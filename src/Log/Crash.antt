-- ===== src/Log/Crash.antt =====
-- Whole transactions, and what is found after a crash at any moment of one.
use model_lib.Base.{
  ℕ, ◌+◌, ◌^◌, ◌<◌, ◌≡◌, ◌≢◌, refl, sym, ap, ◌∙◌, ◌⊎◌, true, false, inl, inr, arith, List, [], ◌∷◌,
  length, Bool-cases, ◌==◌, false≢true,
}
use model_lib.Base.Outcome.{Returns, returns, Returns-bind, Returns-mono}
use model_lib.Base.Family.{update, update_self, update_ne}
use model_lib.Bio.{Block, Disk, Cache, nbuf, binit}
use model_lib.Bio.Inv.{view}
use model_lib.Bio.Init.{binit-IsValid, held-binit, dirty-binit}
use model_lib.Bio.Store.{view_clean, room_full}
use model_lib.Log.{Log, logsize, begin_trans, update_blocks, transaction, recover_from_log}
use model_lib.Log.Recoverable.{
  IsRecoverable, IsRecoverable-agree, Steps, stay, Steps-trans, Steps-mono,
}
use model_lib.Log.Recovery.{IsReady, recover_lem}
use model_lib.Log.Open.{IsOpen}
use model_lib.Log.Write.{Logs, update_block_lem}
use model_lib.Log.Transaction.{OldOrNew, Committed, commit_lem}

-- The specification: the updates made at once on the contents of the disk.
pub apply_updates : List (ℕ × (Block → Block)) → (ℕ → Block) → ℕ → Block
apply_updates [] h = h
apply_updates ((t, f) ∷ us) h = apply_updates us (update h t (f (h t)))

-- Every update is of a block before the log.
abbrev pub IsHome : ℕ → List (ℕ × (Block → Block)) → Type 0
IsHome start [] = Unit
IsHome start ((t, f) ∷ us) = (t < start) × IsHome start us

record Updates (l : Log) (old h : ℕ → Block) (k : Cache) (r : Log × Cache) : Type 0 where
  opened : IsOpen r.0 old r.1
  start_same : r.0.start ≡ l.start
  reads : (s : ℕ) → s < l.start → view r.1 s ≡ h s
  steps : Steps (λ f. IsRecoverable l.start f old) k.disk r.1.disk

update_blocks_lem :
    (us : List (ℕ × (Block → Block))) (l : Log) (old h : ℕ → Block) (k : Cache)
    → IsOpen l old k
    → IsHome l.start us
    → l.n + length us < nbuf
    → l.n + length us < l.size
    → ((s : ℕ) → s < l.start → view k s ≡ h s)
    → Returns (Updates l old (apply_updates us h) k) (update_blocks us l k)
unfolding update_blocks apply_updates
update_blocks_lem [] l old h k g home few fits same =
    returns (l, k) (record { opened = g; start_same = refl; reads = same; steps = stay })
update_blocks_lem ((t, f) ∷ us) l old h k g home few fits same =
    Returns-bind _ (update_block_lem l old k t f g home.0 (omega arith) (inl (omega arith))) λ r p.
      Returns-mono
        (update_blocks_lem us r.0 old (update h t (f (h t))) r.1 p.opened (rw p.start_same home.1)
          (omega (arith, p.n_le)) (omega (arith, p.n_le, p.size_same))
          (λ s lt. next s (omega (arith, p.start_same)) r p))
        λ q u. record {
          opened = u.opened;
          start_same = u.start_same ∙ p.start_same;
          reads = λ s lt. u.reads s (omega (arith, p.start_same));
          steps =
              Steps-trans (λ d. IsRecoverable l.start d old) p.steps (rw p.start_same at u.steps);
        }
  where
    next :
        (s : ℕ)
        → s < l.start
        → (r : Log × Cache) → Logs l old k t (f (view k t)) r
        → view r.1 s ≡ update h t (f (h t)) s
    next s lt r p = elim (Bool-cases (s == t)) [
      | inl q ↦
          let e : s ≡ t = ground arith in
          p.view_eq s lt
          ∙ ap (update (view k) t (f (view k t))) e
          ∙ update_self (view k) t (f (view k t))
          ∙ ap f (same t home.0)
          ∙ sym (ap (update h t (f (h t))) e ∙ update_self h t (f (h t)))
      | inr q ↦
          let ne : s ≢ t = ground arith in
          p.view_eq s lt
          ∙ update_ne (view k) t s (f (view k t)) ne
          ∙ same s lt
          ∙ sym (update_ne h t s (f (h t)) ne)
    ]

-- The log as `begin_trans` leaves it.
pub begun :
    (l : Log) (old : ℕ → Block) (k : Cache)
    → IsReady l old k
    → l.start < 2 ^ 31
    → IsOpen (record l { busy = true }) old k
begun l old k r small = record {
  valid = r.valid;
  idle = r.idle;
  size = r.size;
  small = small;
  dev = r.dev;
  busy = refl;
  header = r.header;
  untouched = r.placed;
  count = omega (arith, r.n);
  home = λ i lt. absurd (omega (arith, r.n));
  distinct = λ i j lt. absurd (omega (arith, r.n));
  logged = λ i lt. absurd (omega (arith, r.n));
  marked = λ i lt. absurd (omega (arith, r.n));
  named = λ t m. absurd (false≢true (sym (ap (λ f. f t) r.clean) ∙ m));
  space = omega (arith, room_full k r.valid r.idle r.clean);
}

-- A transaction of fewer than NBUF updates of blocks before the log, begun on a log that is ready, with
-- no other transaction active and a log on the disk that has more blocks than updates, returns. The log
-- is ready again and the disk holds the updated contents. After each of its writes the disk was
-- recoverable either to the contents before the transaction or to those after all of it.
pub transaction_lem :
    (us : List (ℕ × (Block → Block))) (l : Log) (old : ℕ → Block) (k : Cache)
    → IsReady l old k
    → l.busy ≡ false
    → l.start < 2 ^ 31
    → IsHome l.start us
    → length us < nbuf
    → length us < l.size
    → Returns (Committed l.start old (apply_updates us old) k) (transaction us l k)
unfolding transaction begin_trans
transaction_lem us l old k r free small home few fits =
    let l₁ : Log = record l { busy = true } in
    let same = λ (s : ℕ) (lt : s < l.start).
      view_clean k r.valid s (ap (λ f. f s) r.idle) (ap (λ f. f s) r.clean) ∙ r.placed s lt in
    rw free (
      Returns-bind _
        (update_blocks_lem us l₁ old old k (begun l old k r small) home (omega (arith, r.n))
          (omega (arith, r.n)) same)
        λ q u. Returns-mono (commit_lem q.0 old q.1 u.opened) λ p c.
          let new = apply_updates us old in
          let P = OldOrNew l.start old new in
          let agree =
            λ (f : ℕ → Block) (o : OldOrNew l.start old (view q.1) f). renew f q.1 u.reads o in
          record {
            ready = record {
              valid = c.ready.valid;
              idle = c.ready.idle;
              clean = c.ready.clean;
              size = c.ready.size;
              dev = c.ready.dev;
              n = c.ready.n;
              header = c.ready.header;
              placed = λ t lt.
                  c.ready.placed t lt ∙ u.reads t (omega (arith, c.start_same, u.start_same));
            };
            start_same = c.start_same ∙ u.start_same;
            steps =
                Steps-trans P
                  (Steps-mono (λ f. IsRecoverable l.start f old) P (λ f o. inl o) u.steps)
                  (Steps-mono (OldOrNew l.start old (view q.1)) P agree
                    (rw u.start_same at c.steps));
          })
  where
    renew :
        (f : ℕ → Block) (k' : Cache)
        → ((t : ℕ) → t < l.start → view k' t ≡ apply_updates us old t)
        → OldOrNew l.start old (view k') f
        → OldOrNew l.start old (apply_updates us old) f
    renew f k' same (inl o) = inl o
    renew f k' same (inr n) =
        inr (IsRecoverable-agree l.start f (view k') (apply_updates us old) same n)

-- Recovery of a machine that starts again from a disk: it ends ready, with contents `old` or `new`.
abbrev pub RecoversTo : Log → (old new : ℕ → Block) → Disk → Type 0
RecoversTo l old new d =
    Returns (λ r. IsReady r.0 old r.1 ⊎ IsReady r.0 new r.1) (recover_from_log l (binit d))

recovers :
    (l : Log) (old new : ℕ → Block) (d : Disk)
    → l.dev ≡ 1
    → l.start + logsize < d.size
    → OldOrNew l.start old new d.blocks
    → RecoversTo l old new d
recovers l old new d on_disk size (inl o) =
    Returns-mono
      (recover_lem l old (binit d) (binit-IsValid d) (held-binit d) (dirty-binit d) (at_disk d size)
        on_disk (at_blocks d o))
      λ r p. inl p.1.0
  where
    at_disk : (d : Disk) → l.start + logsize < d.size → l.start + logsize < (binit d).disk.size
    at_disk d h = unfold binit in h

    at_blocks :
        (d : Disk)
        → IsRecoverable l.start d.blocks old
        → IsRecoverable l.start (binit d).disk.blocks old
    at_blocks d h = unfold binit in h
recovers l old new d on_disk size (inr o) =
    Returns-mono
      (recover_lem l new (binit d) (binit-IsValid d) (held-binit d) (dirty-binit d) (at_disk d size)
        on_disk (at_blocks d o))
      λ r p. inr p.1.0
  where
    at_disk : (d : Disk) → l.start + logsize < d.size → l.start + logsize < (binit d).disk.size
    at_disk d h = unfold binit in h

    at_blocks :
        (d : Disk)
        → IsRecoverable l.start d.blocks new
        → IsRecoverable l.start (binit d).disk.blocks new
    at_blocks d h = unfold binit in h

-- Crash safety. Of a transaction as in `transaction_lem`: if the machine stops after any of its writes
-- to the disk and starts again from the disk as it then is, with an empty cache and a log at the same
-- place, recovery returns, with either all of the updates on the disk or none of them.
pub transaction_crash :
    (us : List (ℕ × (Block → Block))) (l : Log) (old : ℕ → Block) (k : Cache)
    → IsReady l old k
    → l.busy ≡ false
    → l.start < 2 ^ 31
    → IsHome l.start us
    → length us < nbuf
    → length us < l.size
    → (boot : Log) → boot.start ≡ l.start
    → boot.dev ≡ 1
    → Returns
        (λ r.
          Steps
            (λ f.
              (d : Disk)
              → d.blocks ≡ f
              → l.start + logsize < d.size
              → RecoversTo boot old (apply_updates us old) d)
            k.disk
            r.1.disk)
        (transaction us l k)
transaction_crash us l old k r free small home few fits boot same on_disk =
    let new = apply_updates us old in
    Returns-mono (transaction_lem us l old k r free small home few fits) λ q c.
      Steps-mono (OldOrNew l.start old new) _
        (λ f o d e size. recovers boot old new d on_disk (rw same size) (rw (same, e) o)) c.steps
