-- ===== src/Proc.antt =====
-- proc.c: the process table. Each part of a function that holds ptable.lock is one step. A process is
-- named by its slot in the table; what swtch and the trap return restore is left out, but for the trap
-- frame that fork copies.
pub mod Services
pub mod Calls
pub mod Valid
pub mod Rounds
pub mod Killing
mod Tests
use model_lib.Base.{
  ℕ, zero, suc, ◌+◌, Bool, true, false, Option, none, some, ◌==◌, ltb, if◌then◌else◌, ◌&&◌,
}
use model_lib.Base.Family.{update}
use model_lib.Base.Search.{search_from}

abbrev pub nproc : ℕ
nproc = 64

abbrev pub nofile : ℕ
nofile = 16

pub data ProcState : Type 0 where
  unused embryo sleeping runnable running zombie : ProcState

-- The channels that processes sleep on: none, the address of a slot of the table (wait), or another.
pub data Channel : Type 0 where
  no_chan : Channel
  proc_chan addr_chan : ℕ → Channel

pub same_chan : Channel → Channel → Bool
same_chan no_chan no_chan = true
same_chan (proc_chan i) (proc_chan j) = i == j
same_chan (addr_chan a) (addr_chan b) = a == b
same_chan no_chan (proc_chan j) = false
same_chan no_chan (addr_chan b) = false
same_chan (proc_chan i) no_chan = false
same_chan (proc_chan i) (addr_chan b) = false
same_chan (addr_chan a) no_chan = false
same_chan (addr_chan a) (proc_chan j) = false

-- `struct proc`. `tf` gives the words of the trap frame; `pgdir`, `kstack`, `cwd` and the open files are
-- addresses, 0 for none.
pub record Proc : Type 0 where
  pub sz : ℕ
  pub pgdir : ℕ
  pub kstack : ℕ
  pub state : ProcState
  pub pid : ℕ
  pub parent : Option ℕ
  pub tf : ℕ → ℕ
  pub chan : Channel
  pub killed : Bool
  pub ofile : ℕ → ℕ
  pub cwd : ℕ
  pub name : ℕ → ℕ

-- `ptable`, with `nextpid` and `initproc`.
pub record Ptable : Type 0 where
  pub proc : ℕ → Proc
  pub nextpid : ℕ
  pub initproc : ℕ

abbrev pub set_proc : ℕ → Proc → Ptable → Ptable
set_proc i p t = record t { proc = update t.proc i p }

abbrev pub is_unused : ProcState → Bool
is_unused unused = true
is_unused s = false

abbrev pub is_sleeping : ProcState → Bool
is_sleeping sleeping = true
is_sleeping s = false

abbrev pub is_zombie : ProcState → Bool
is_zombie zombie = true
is_zombie s = false

abbrev pub is_runnable : ProcState → Bool
is_runnable runnable = true
is_runnable s = false

-- The slot that `allocproc` takes.
pub claim : ℕ → Ptable → Ptable
claim i t = record (set_proc i (record (t.proc i) { state = embryo; pid = t.nextpid }) t) {
  nextpid = t.nextpid + 1;
}

-- The part of `allocproc` that holds the lock.
pub claim_slot : Ptable → Option (ℕ × Ptable)
unfolding claim
claim_slot t = elim (search_from (λ i. is_unused (t.proc i).state) nproc 0) [
  | some i ↦ some (i, claim i t)
  | none ↦ none
]

-- The body of the loop of `wakeup1`.
pub wake : Channel → Proc → Proc
unfolding same_chan
wake c p = if is_sleeping p.state && same_chan p.chan c then record p { state = runnable } else p

-- `wakeup1`, whose rounds are independent of one another.
pub wakeup1 : Channel → Ptable → Ptable
unfolding wake
wakeup1 c t = record t { proc = λ i. if ltb i nproc then wake c (t.proc i) else t.proc i }

pub yield : ℕ → Ptable → Ptable
yield self t = set_proc self (record (t.proc self) { state = runnable }) t

-- `sleep` up to the switch to the scheduler, and from where it comes back.
pub sleep : ℕ → Channel → Ptable → Ptable
sleep self c t = set_proc self (record (t.proc self) { chan = c; state = sleeping }) t

pub awake : ℕ → Ptable → Ptable
awake self t = set_proc self (record (t.proc self) { chan = no_chan }) t

-- `kill`: found or not, and the table.
pub kill : ℕ → Ptable → Bool × Ptable
kill pid t = elim (search_from (λ i. (t.proc i).pid == pid) nproc 0) [
  | some i ↦
      let p = t.proc i in
      (
        true,
        set_proc i
            (record p { killed = true; state = if is_sleeping p.state then runnable else p.state })
            t,
      )
  | none ↦ (false, t)
]

-- One round of the scheduler's loop over the table. `run i` is what happens from the switch to process `i`
-- to the switch back.
pub scheduler_from : ℕ → ℕ → (ℕ → Ptable → Ptable) → Ptable → Ptable
scheduler_from zero i run t = t
scheduler_from (suc r) i run t = scheduler_from r (i + 1) run (
    if is_runnable (t.proc i).state
    then run i (set_proc i (record (t.proc i) { state = running }) t)
    else t)
