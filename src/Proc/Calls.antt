-- ===== src/Proc/Calls.antt =====
-- The functions of proc.c that create and end processes.
pub mod Parents
pub mod Life
pub mod Steps
pub mod Waiting
pub mod Birth
use model_lib.Base.{
  ℕ, zero, suc, ◌+◌, ◌^◌, ◌%◌, Bool, true, false, not, Option, none, some, ◌==◌, ltb, leb,
  if◌then◌else◌, ◌&&◌, ◌||◌,
}
use model_lib.Base.Outcome.{Outcome, ok, panic, ◌>>=◌, init_exiting}
use model_lib.Base.Family.{update}
use model_lib.Base.Search.{search_from, any_below}
use model_lib.Strings.{safestrcpy}
use model_lib.Proc.{
  nproc, nofile, unused, runnable, zombie, Channel, no_chan, proc_chan, Proc, Ptable, set_proc,
  is_zombie, claim_slot, wakeup1, sleep,
}
use model_lib.Proc.Services.{Services}

-- p->parent == &ptable.proc[self]
abbrev pub is_child : ℕ → Proc → Bool
is_child self p = elim p.parent [ some i ↦ i == self | none ↦ false ]

abbrev pub parent_chan : Option ℕ → Channel
parent_chan none = no_chan
parent_chan (some i) = proc_chan i

-- What `fork` copies from the parent `p` into the new process `np`: the memory at `pgdir`, the trap frame
-- with 0 in eax, the open files and the rest.
pub copied : ℕ → Proc → ℕ → (ℕ → ℕ) → Proc → Proc
unfolding safestrcpy
copied self p pgdir files np = record np {
  pgdir = pgdir;
  sz = p.sz;
  parent = some self;
  tf = update p.tf 7 0;
  ofile = files;
  cwd = p.cwd;
  state = runnable;
  name = safestrcpy np.name p.name 16;
}

-- A round of the loop of `exit` that passes children on to init.
pub adopt : ℕ → ℕ → Ptable → Ptable
adopt i self t =
    if is_child self (t.proc i)
    then (let t' = set_proc i (record (t.proc i) { parent = some t.initproc }) t in
        if is_zombie (t.proc i).state then wakeup1 (proc_chan t.initproc) t' else t')
    else t

pub pass_on : ℕ → ℕ → Ptable → Ptable
unfolding adopt
pass_on zero self t = t
pass_on (suc i) self t = adopt i self (pass_on i self t)

-- The end of `exit`, under the lock.
pub finish : ℕ → Ptable → Ptable
unfolding pass_on
finish self t =
    let t₁ = wakeup1 (parent_chan (t.proc self).parent) t in
    let t₂ = pass_on nproc self t₁ in set_proc self (record (t₂.proc self) { state = zombie }) t₂

-- The slot that `wait` frees.
abbrev pub reaped : Proc → Proc
reaped p = record p {
  kstack = 0;
  state = unused;
  pid = 0;
  parent = none;
  name = update p.name 0 0;
  killed = false;
}

-- What `wait` comes to: a child's pid, -1, or sleep until a child exits, after which it begins again.
pub data Waited : Type 0 where
  child : ℕ → Waited
  minus_one sleeps : Waited

module _ {S : Type 0} (os : Services S) where
  -- The rest of `allocproc`: the kernel stack of the slot claimed.
  pub with_stack : Option (ℕ × Ptable) → Ptable → S → Option ℕ × Ptable × S
  with_stack none t s = (none, t, s)
  with_stack (some (i, t')) t s =
      let (stack, s') = os.kalloc s in
      if stack == 0
      then (none, set_proc i (record (t'.proc i) { kstack = stack; state = unused }) t', s')
      else (some i, set_proc i (record (t'.proc i) { kstack = stack }) t', s')

  -- The new process is an embryo with a kernel stack; none is a null pointer.
  pub allocproc : Ptable → S → Option ℕ × Ptable × S
  unfolding claim_slot with_stack
  allocproc t s = with_stack (claim_slot t) t s

  -- for(i = 0; i < n; i++) if(proc->ofile[i]) np->ofile[i] = filedup(proc->ofile[i]);
  pub dup_files : ℕ → (ℕ → ℕ) → (ℕ → ℕ) → S → Outcome ((ℕ → ℕ) × S)
  dup_files zero from to s = ok (to, s)
  dup_files (suc i) from to s = do
    (to', s') ← dup_files i from to s
    if from i == 0
        then ok (to', s')
        else (do s'' ← os.filedup (from i) s'; ok (update to' i (from i), s''))

  -- The part of `fork` that fills the new process `i`, from the trap frame to the name, and gives its pid.
  pub fill : ℕ → ℕ → ℕ → Ptable → S → Outcome (Option ℕ × Ptable × S)
  unfolding dup_files copied
  fill self i pgdir t s = do
    s₁ ← os.fork_pids (t.proc self).pid (t.proc i).pid s
    (files, s₂) ← dup_files nofile (t.proc self).ofile (t.proc i).ofile s₁
    ok (
      some (t.proc i).pid,
      set_proc i (copied self (t.proc self) pgdir files (t.proc i)) t,
      os.idup (t.proc self).cwd s₂,
    )

  -- `fork` after `allocproc`.
  pub fork_on : ℕ → Option ℕ × Ptable × S → Outcome (Option ℕ × Ptable × S)
  unfolding fill
  fork_on self (none, t, s) = ok (none, t, s)
  fork_on self (some i, t, s) =
      let (pgdir, s₁) = os.copyuvm (t.proc self).pgdir (t.proc self).sz s in
      if pgdir == 0
      then (do
        s₂ ← os.kfree (t.proc i).kstack s₁
        ok (none, set_proc i (record (t.proc i) { pgdir = 0; kstack = 0; state = unused }) t, s₂))
      else fill self i pgdir t s₁

  -- The pid of the new process, or none for -1.
  pub fork : ℕ → Ptable → S → Outcome (Option ℕ × Ptable × S)
  unfolding allocproc fork_on
  fork self t s = fork_on self (allocproc t s)

  -- for(fd = 0; fd < n; fd++) if(proc->ofile[fd]) { fileclose(proc->ofile[fd]); proc->ofile[fd] = 0; }
  pub close_files : ℕ → (ℕ → ℕ) → S → Outcome ((ℕ → ℕ) × S)
  close_files zero files s = ok (files, s)
  close_files (suc fd) files s = do
    (files', s') ← close_files fd files s
    if files' fd == 0
        then ok (files', s')
        else (do s'' ← os.fileclose (files' fd) s'; ok (update files' fd 0, s''))

  pub exit : ℕ → Ptable → S → Outcome (Ptable × S)
  unfolding close_files finish
  exit self t s = if self == t.initproc then panic init_exiting else (do
    (files, s₁) ← close_files nofile (t.proc self).ofile s
    let s₂ = os.free_inode_locks (t.proc self).pid s₁
    s₃ ← os.iput (t.proc self).cwd s₂
    ok (finish self (set_proc self (record (t.proc self) { ofile = files; cwd = 0 }) t), s₃))

  -- `wait` after its search for a child that is a zombie.
  pub wait_on : ℕ → Option ℕ → Ptable → S → Outcome (Waited × Ptable × S)
  wait_on self (some i) t s = do
    s₁ ← os.kfree (t.proc i).kstack s
    s₂ ← os.freevm (t.proc i).pgdir s₁
    ok (Waited.child (t.proc i).pid, set_proc i (reaped (t.proc i)) t, s₂)
  wait_on self none t s =
      if not (any_below (λ i. is_child self (t.proc i)) nproc) || (t.proc self).killed
      then ok (Waited.minus_one, t, s)
      else ok (Waited.sleeps, sleep self (proc_chan self) t, s)

  pub wait : ℕ → Ptable → S → Outcome (Waited × Ptable × S)
  unfolding wait_on
  wait self t s =
      wait_on self
        (search_from (λ i. is_child self (t.proc i) && is_zombie (t.proc i).state) nproc 0) t s

  -- The end of `growproc`, with what the change of the memory has given.
  pub resize : ℕ → ℕ → ℕ × S → Ptable → Bool × Ptable × S
  resize self n (sz, s) t =
      if not (n == 0) && sz == 0
      then (false, t, s)
      else (true, set_proc self (record (t.proc self) { sz = sz }) t, s)

  -- `n` is a two's complement word; false is -1.
  pub growproc : ℕ → ℕ → Ptable → S → Bool × Ptable × S
  unfolding resize
  growproc self n t s =
      let p = t.proc self in
      let target = (p.sz + n) % 2 ^ 32 in
      resize self n
        (if n == 0
          then (p.sz, s)
          else if ltb n (2 ^ 31)
          then os.allocuvm p.pgdir p.sz target s
          else os.deallocuvm p.pgdir p.sz target s)
        t
