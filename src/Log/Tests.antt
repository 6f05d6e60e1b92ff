-- ===== src/Log/Tests.antt =====
-- log.c at concrete inputs: a disk of 40 zeroed blocks whose log starts at block 20.
use mathlib.Core.Path.{fun_ext}
use model_lib.Base.{
  Bool-cases, ◌==◌, if◌then◌else◌, ℕ, zero, suc, ◌+◌, ◌<◌, ◌≡◌, refl, true, false, inl, inr, arith,
  List, [], ◌∷◌,
}
use model_lib.Base.Outcome.{Outcome, ok, panic, Returns, bget_no_buffers, ◌>>=◌}
use model_lib.Base.Words.{word_at}
use model_lib.Bio.{
  Block, Disk, Cache, binit, bread, bwrite, brelse, set_bytes, set_dirty, transfer, rewrite,
}
use model_lib.Base.Family.{find, find_last, erase}
use model_lib.Bio.Inv.{view}
use model_lib.Bio.Init.{binit-IsValid, held-binit, dirty-binit}
use model_lib.Log.{Log, logsize, transaction, update_block, commit_trans, recover_from_log}
use model_lib.Log.Recoverable.{IsRecoverable, Steps}
use model_lib.Log.Recovery.{IsReady, Recovered, recover_lem}
use model_lib.Log.Open.{IsOpen}
use model_lib.Log.Write.{Logs, update_block_lem}
use model_lib.Log.Transaction.{Committed, commit_lem}
use model_lib.Log.Crash.{apply_updates, RecoversTo, begun, transaction_lem, transaction_crash}

abbrev zeros : ℕ → Block
zeros s o = 0

abbrev disk : Disk
disk = record { blocks = zeros; size = 40; history = [] }

abbrev log : Log
log = record { start = 20; size = 20; busy = false; dev = 1; n = 0; sector = λ i. 0 }

abbrev fill : ℕ → Block → Block
fill v b o = v

abbrev two_updates : List (ℕ × (Block → Block))
two_updates = (3, fill 7) ∷ (5, λ b o. b o + 1) ∷ []

log-IsReady : IsReady log zeros (binit disk)
unfolding binit word_at
log-IsReady = record {
  valid = binit-IsValid disk;
  idle = held-binit disk;
  clean = dirty-binit disk;
  size = omega arith;
  dev = refl;
  n = refl;
  header = refl;
  placed = λ t lt. refl;
}

log-IsOpen : IsOpen (record log { busy = true }) zeros (binit disk)
log-IsOpen = begun log zeros (binit disk) log-IsReady (omega arith)

abbrev ten_updates : ℕ → List (ℕ × (Block → Block))
ten_updates zero = []
ten_updates (suc n) = (n + 2, fill 1) ∷ ten_updates n

-- The contents of a block at the end of a call.
abbrev byte_after : ℕ → Outcome (Log × Cache) → Outcome ℕ
byte_after s m = m >>= λ r. ok (r.1.disk.blocks s 0)

-- Nine blocks can be committed.
nine_blocks : byte_after 10 (transaction (ten_updates 9) log (binit disk)) ≡ ok 1
unfolding transaction binit bread bwrite brelse set_bytes set_dirty transfer find find_last erase
    rewrite
nine_blocks = refl

-- A tenth passes the check of `log_write` against LOGSIZE, and finds no buffer: nine of the NBUF are
-- dirty until the commit, and the tenth is held.
ten_blocks : transaction (ten_updates 10) log (binit disk) ≡ panic bget_no_buffers
unfolding transaction binit bread bwrite brelse set_bytes set_dirty transfer find find_last erase
    rewrite
ten_blocks = refl

transaction_lem_example :
    Returns
      (Committed 20 zeros (apply_updates two_updates zeros) (binit disk))
      (transaction two_updates log (binit disk))
transaction_lem_example =
    transaction_lem two_updates log zeros (binit disk) log-IsReady refl (omega arith)
      (omega arith, (omega arith, tt)) (omega arith) (omega arith)

transaction_crash_example :
    Returns
      (λ r.
        Steps
          (λ f.
            (d : Disk)
            → d.blocks ≡ f
            → 20 + logsize < d.size
            → RecoversTo log zeros (apply_updates two_updates zeros) d)
          (binit disk).disk
          r.1.disk)
      (transaction two_updates log (binit disk))
transaction_crash_example =
    transaction_crash two_updates log zeros (binit disk) log-IsReady refl (omega arith)
      (omega arith, (omega arith, tt)) (omega arith) (omega arith) log refl refl

commit_lem_example :
    Returns
      (Committed 20 zeros (view (binit disk)) (binit disk))
      (commit_trans (record log { busy = true }) (binit disk))
commit_lem_example = commit_lem (record log { busy = true }) zeros (binit disk) log-IsOpen

update_block_lem_example :
    Returns
      (Logs (record log { busy = true }) zeros (binit disk) 3 (fill 7 (view (binit disk) 3)))
      (update_block 1 3 (fill 7) (record log { busy = true }) (binit disk))
update_block_lem_example =
    update_block_lem (record log { busy = true }) zeros (binit disk) 3 (fill 7) log-IsOpen
      (omega arith) (omega arith) (inl (omega arith))

-- A disk on which a transaction of block 3 was committed and not installed: the header names it, and
-- its contents, sevens, are in the log.
abbrev crashed_blocks : ℕ → Block
crashed_blocks s o =
    if s == 20
    then (if o == 0 then 1 else (if o == 4 then 3 else 0))
    else (if s == 21 then 7 else 0)

abbrev crashed : Disk
crashed = record { blocks = crashed_blocks; size = 40; history = [] }

abbrev sevens : ℕ → Block
sevens s o = if s == 3 then 7 else 0

crashed-IsRecoverable : IsRecoverable 20 crashed_blocks sevens
unfolding word_at
crashed-IsRecoverable = record {
  count = omega arith;
  home = λ i lt. (let e : i ≡ 0 = omega arith in rw e (omega arith));
  logged = λ i lt. (let e : i ≡ 0 = omega arith in rw e refl);
  settled = λ t lt. elim (Bool-cases (t == 3)) [
    | inl q ↦ inr (0, omega arith, (let e : 3 ≡ t = ground arith in e))
    | inr q ↦ inl (fun_ext λ o. ground arith)
  ];
}

recover_lem_example :
    Returns (Recovered log sevens (binit crashed)) (recover_from_log log (binit crashed))
unfolding binit
recover_lem_example =
    recover_lem log sevens (binit crashed) (binit-IsValid crashed) (held-binit crashed)
      (dirty-binit crashed) (omega arith) refl crashed-IsRecoverable
