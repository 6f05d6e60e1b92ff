-- ===== src/Fs/Tests.antt =====
-- The block allocator over the log, on a disk of 40 blocks: the superblock in block 1, the bitmap in block
-- 5 with the blocks below 8 in use, and the log from block 20 on.
use model_lib.Base.{ℕ, ◌<◌, ◌≡◌, ap, refl, true, false, [], ◌==◌, if◌then◌else◌, arith}
use model_lib.Base.Outcome.{◌>>=◌, Returns}
use model_lib.Base.Words.{word_at}
use model_lib.Bio.{Block, Disk, Cache, binit}
use model_lib.Bio.Init.{binit-IsValid, held-binit, dirty-binit, view-binit}
use model_lib.Log.{Log}
use model_lib.Log.Recovery.{IsReady}
use model_lib.Log.Crash.{begun}
use model_lib.Log.Visit.{Holds, log_store}
use model_lib.Fs.{bblock, has_bit, balloc, bfree}
use model_lib.Fs.Alloc.{in_use, Allocated, balloc_lem}
use model_lib.Base.Search.{any_below-intro}
use model_lib.Base.{◌+◌, inr}
use model_lib.Base.Family.{update}
use model_lib.Fs.Dinode.{Dinode, write_dinode}
use model_lib.Fs.Inode.{Inode, Icache, iget, ilock, iupdate}
use model_lib.Fs.Inode.Refs.{Unique, Got, iget_lem}
use model_lib.Fs.Inode.Update.{Locked, iupdate-ilock}
use model_lib.Fs.Undo.{balloc-bfree}

abbrev blocks : ℕ → Block
blocks s o =
    if s == 1
    then (if o == 0
        then 40
        else if o == 4
        then 10
        else if o == 8
        then 8
        else if o == 12
        then 20
        else 0)
    else if s == 5
    then (if o == 0 then 255 else 0)
    else 0

abbrev disk : Disk
disk = record { blocks = blocks; size = 40; history = [] }

abbrev log : Log
log = record { start = 20; size = 20; busy = false; dev = 1; n = 0; sector = λ i. 0 }

log-IsReady : IsReady log blocks (binit disk)
unfolding binit word_at
log-IsReady = record {
  valid = binit-IsValid disk;
  idle = held-binit disk;
  clean = dirty-binit disk;
  size = omega arith;
  dev = refl;
  n = refl;
  header = refl;
  placed = λ t lt. refl;
}

abbrev start_state : Log × Cache
start_state = (record log { busy = true }, binit disk)

start-Holds : (n : ℕ) → n < 10 → Holds 20 blocks n blocks start_state
start-Holds n lt = record {
  opened = begun log blocks (binit disk) log-IsReady (omega arith);
  start_at = refl;
  log_space = omega arith;
  buffers = omega arith;
  reads = λ t t_lt. ap (λ w. w t) (view-binit disk);
}

map_at_5 : (b : ℕ) → b < 40 → bblock b 8 ≡ 5
map_at_5 b lt = omega arith

balloc_lem_example :
    Returns
      (Allocated (log_store 20 blocks) 3 40 8 blocks)
      (balloc (log_store 20 blocks) 1 start_state)
unfolding word_at has_bit
balloc_lem_example =
    balloc_lem (log_store 20 blocks) 3 blocks start_state 8 (start-Holds 5 (omega arith))
      (omega arith) (omega arith) (omega arith) refl (λ b lt. omega (arith, map_at_5 b lt))

balloc-bfree_example :
    Returns
      (λ s'.
        (w : ℕ → Block) × Holds 20 blocks 2 w s'
        × ((x : ℕ) → x < 40 → in_use w 8 x ≡ in_use blocks 8 x))
      (do (b, s₁) ← balloc (log_store 20 blocks) 1 start_state; bfree (log_store 20 blocks) 1 b s₁)
unfolding word_at has_bit
balloc-bfree_example =
    balloc-bfree (log_store 20 blocks) 2 blocks start_state 8 (start-Holds 5 (omega arith))
      (omega arith) (omega arith) (omega arith) refl (λ b lt. omega (arith, map_at_5 b lt)) refl
      (λ b lt. (let e = map_at_5 b lt in rw e refl))

abbrev file_copy : Dinode
file_copy = record {
  type = 2;
  major = 0;
  minor = 0;
  nlink = 1;
  size = 700;
  addrs = λ i. 100 + i;
  indirect2 = 0;
  password = λ i. 65 + i;
}

abbrev file_inode : Inode
file_inode = record { dev = 1; inum = 5; ref = 1; busy = true; valid = true; copy = file_copy }

-- One entry, for inode 5, not yet read.
abbrev one_entry : Icache
one_entry i =
    if i == 0
    then record file_inode { busy = false; valid = false }
    else record file_inode { ref = 0; busy = false; valid = false }

iupdate-ilock_example :
    Returns
      (Locked
        (log_store 20 blocks)
        0
        2
        (update blocks 3 (write_dinode 1 file_copy (blocks 3)))
        file_copy)
      (do
        s' ← iupdate (log_store 20 blocks) file_inode start_state
        ilock (log_store 20 blocks) 0 (one_entry, s'))
iupdate-ilock_example =
    iupdate-ilock (log_store 20 blocks) 2 blocks start_state file_inode one_entry 0
      (start-Holds 3 (omega arith)) refl (omega arith)
      record {
        type = omega arith;
        major = omega arith;
        minor = omega arith;
        nlink = omega arith;
        size = omega arith;
        addrs = λ i lt. omega arith;
        indirect2 = omega arith;
      }
      (omega arith) refl refl (omega arith) refl refl

one_entry-Unique : Unique one_entry
one_entry-Unique i j li lj ri rj ed ei = ground arith

iget_lem_example : Returns (Got 1 6 one_entry) (iget 1 6 one_entry)
iget_lem_example =
    iget_lem 1 6 one_entry one_entry-Unique
      (inr (any_below-intro (λ i. (one_entry i).ref == 0) 50 1 (omega arith) refl))
