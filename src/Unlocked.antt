-- ===== src/Unlocked.antt =====
-- The table of fs.c that says which processes have unlocked which password-protected inodes. Its lock
-- is held throughout each function. Rows are those of inodes below NINODES, columns those below NPROC;
-- a slot with 0 is free, and no process has that pid.
pub mod Table
mod Tests
use model_lib.Base.{ℕ, zero, suc, ◌+◌, Bool, true, false, Option, none, some, ◌==◌, if◌then◌else◌}
use model_lib.Base.Outcome.{Outcome, ok, panic, ◌>>=◌, unlock_no_slot, fork_pids_no_slot}
use model_lib.Base.Family.{update}
use model_lib.Base.Search.{search_from, any_below}

abbrev pub ninodes : ℕ
ninodes = 200

abbrev pub nproc : ℕ
nproc = 64

-- `unlocked_inodes.pids`
abbrev pub Pids : Type 0
Pids = ℕ → ℕ → ℕ

-- Is the pid in the row?
abbrev pub in_row : (ℕ → ℕ) → ℕ → Bool
in_row row pid = any_below (λ j. row j == pid) nproc

-- The loops that put a pid into the first free slot of a row.
pub add_pid : (ℕ → ℕ) → ℕ → Option (ℕ → ℕ)
add_pid row pid = elim (search_from (λ j. row j == 0) nproc 0) [
  | some j ↦ some (update row j pid)
  | none ↦ none
]

pub unlock_inode : ℕ → ℕ → Pids → Outcome Pids
unfolding add_pid
unlock_inode inum pid t = if in_row (t inum) pid then ok t else elim (add_pid (t inum) pid) [
  | some row ↦ ok (update t inum row)
  | none ↦ panic unlock_no_slot
]

pub is_inode_unlocked : ℕ → ℕ → Pids → Bool
is_inode_unlocked inum pid t = in_row (t inum) pid

-- The inner loop of `free_inode_locks`.
pub clear_row : ℕ → ℕ → (ℕ → ℕ) → ℕ → ℕ
clear_row pid zero row = row
clear_row pid (suc j) row =
    let done = clear_row pid j row in update done j (if done j == pid then 0 else done j)

clear_rows : ℕ → ℕ → Pids → Pids
unfolding clear_row
clear_rows pid zero t = t
clear_rows pid (suc i) t =
    let done = clear_rows pid i t in update done i (clear_row pid nproc (done i))

pub free_inode_locks : ℕ → Pids → Pids
unfolding clear_rows
free_inode_locks pid t = clear_rows pid ninodes t

-- One round of the outer loop of `fork_pids`.
pub fork_row : ℕ → ℕ → (ℕ → ℕ) → Outcome (ℕ → ℕ)
unfolding add_pid
fork_row old_pid new_pid row =
    if in_row row old_pid
    then elim (add_pid row new_pid) [ some row' ↦ ok row' | none ↦ panic fork_pids_no_slot ]
    else ok row

fork_rows : ℕ → ℕ → ℕ → Pids → Outcome Pids
unfolding fork_row
fork_rows old_pid new_pid zero t = ok t
fork_rows old_pid new_pid (suc i) t = do
  t' ← fork_rows old_pid new_pid i t
  row ← fork_row old_pid new_pid (t' i)
  ok (update t' i row)

pub fork_pids : ℕ → ℕ → Pids → Outcome Pids
unfolding fork_rows
fork_pids old_pid new_pid t = fork_rows old_pid new_pid ninodes t
