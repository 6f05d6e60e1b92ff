-- ===== src/Proc/Tests.antt =====
-- The process table with init asleep in wait, its child running, and all other slots free.
use model_lib.Base.{
  ℕ, ◌+◌, ◌-◌, ◌<◌, ◌≡◌, ◌≢◌, refl, sym, ap, inl, inr, not, ltb, true, false, Option, none, some,
  ◌==◌, if◌then◌else◌, Bool-cases, arith,
}
use model_lib.Base.Outcome.{
  ok, ◌>>=◌, Returns, returns, Returns-bind, Returns-check, filedup_no_ref,
}
use model_lib.Base.Search.{search_from, any_below, any_below-intro}
use mathlib.Core.Path.{subst}
use model_lib.File.{fd_inode, File, Ftable, filedup}
use model_lib.Kalloc.{Kmem, kalloc}
use model_lib.Unlocked.{Pids, fork_pids, free_inode_locks}
use model_lib.Unlocked.Table.{fork_pids_lem}
use model_lib.Proc.{
  nproc, unused, sleeping, running, zombie, no_chan, proc_chan, Proc, Ptable, is_unused,
  is_runnable, claim_slot, kill, yield, scheduler_from,
}
use model_lib.Proc.Services.{Services}
use model_lib.Proc.Valid.{alive, IsValid}
use model_lib.Proc.Rounds.{scheduler_lem}
use model_lib.Proc.Killing.{kill-unborn}
use model_lib.Proc.Calls.{is_child, finish, Waited, fork, wait}
use model_lib.Proc.Calls.Steps.{Step, Step-IsValid}
use model_lib.Proc.Calls.Waiting.{exit-wait}
use model_lib.Proc.Calls.Birth.{Born, fork_lem}

abbrev blank : Proc
blank = record {
  sz = 0;
  pgdir = 0;
  kstack = 0;
  state = unused;
  pid = 0;
  parent = none;
  tf = λ w. 0;
  chan = no_chan;
  killed = false;
  ofile = λ k. 0;
  cwd = 0;
  name = λ k. 0;
}

abbrev init_proc : Proc
init_proc = record blank { state = sleeping; pid = 1; chan = proc_chan 0; sz = 4096 }

abbrev shell_proc : Proc
shell_proc = record blank {
  state = running;
  pid = 2;
  parent = some 0;
  sz = 8192;
  pgdir = 0x8012_0000;
  ofile = λ k. if k == 1 then 1 else 0;
}

abbrev two_procs : Ptable
two_procs = record {
  proc = λ i. if i == 0 then init_proc else if i == 1 then shell_proc else blank;
  nextpid = 3;
  initproc = 0;
}

two_procs-IsValid : IsValid two_procs
two_procs-IsValid = record {
  next = omega arith;
  init_slot = omega arith;
  init_alive = refl;
  pids = λ i lt used. ground arith;
  distinct = λ i j li lj ui uj e. ground arith;
  parents = λ i j lt e. elim (Bool-cases (i == 1)) [
    | inl q ↦
        let j_eq : 0 ≡ j = ground arith in
        (omega (arith, j_eq), ap (λ x. alive (two_procs.proc x).state) (sym j_eq))
    | inr q ↦ absurd (never i j q e)
  ];
  closed = λ i k lt dead small. ground arith;
}
  where
    never : (i j : ℕ) → (i == 1) ≡ false → (two_procs.proc i).parent ≢ some j
    never i j q e = elim (Bool-cases (i == 0)) [ inl z ↦ ground arith | inr z ↦ ground arith ]

-- The page allocator and the table of unlocked inodes, with stand-ins for the rest.
abbrev services : Services (Kmem × Pids)
services = record {
  kalloc = λ (k, p). ((kalloc k).0, ((kalloc k).1, p));
  kfree = λ a s. ok s;
  copyuvm = λ pgdir sz s. (0x8012_1000, s);
  allocuvm = λ pgdir old new s. (new, s);
  deallocuvm = λ pgdir old new s. (new, s);
  freevm = λ pgdir s. ok s;
  fork_pids = λ old new (k, p). (do p' ← fork_pids old new p; ok (k, p'));
  free_inode_locks = λ pid (k, p). (k, free_inode_locks pid p);
  filedup = λ f s. ok s;
  fileclose = λ f s. ok s;
  idup = λ ip s. s;
  iput = λ ip s. ok s;
}

abbrev memory : Kmem × Pids
memory = (
  record {
    use_lock = true;
    freelist = 0x8011_0000;
    mem = λ a. if a == 0x8011_0000 then 0x8011_2000 else 0;
  },
  λ i j. 0,
)

Step-IsValid_example : IsValid (kill 2 two_procs).1
Step-IsValid_example =
    Step-IsValid services {s = memory} {s' = memory} (Step.kills 2) two_procs-IsValid

exit-wait_example :
    ((two_procs.proc 0).state ≡ sleeping
      → (two_procs.proc 0).chan ≡ proc_chan 0
      → is_runnable ((finish 1 two_procs).proc 0).state ≡ true)
    × Returns
        (λ (r : Waited × Ptable × (Kmem × Pids)).
          (i : ℕ) × (is_child 0 ((finish 1 two_procs).proc i) ≡ true)
          × (((finish 1 two_procs).proc i).state ≡ zombie)
          × (r.0 ≡ Waited.child ((finish 1 two_procs).proc i).pid))
        (wait services 0 (finish 1 two_procs) memory)
exit-wait_example =
    exit-wait services 1 0 two_procs memory (omega arith) (omega arith) refl (omega arith)
      (λ i s z. returns s tt) (λ i s z. returns s tt)

-- The same with the file table of file.c, whose file `i` is at the address `i + 1`; the shell has the file 0 open.
abbrev file_services : Services ((Kmem × Pids) × Ftable)
file_services = record {
  kalloc = λ (m, t). ((kalloc m.0).0, (((kalloc m.0).1, m.1), t));
  kfree = λ a s. ok s;
  copyuvm = λ pgdir sz s. (0x8012_1000, s);
  allocuvm = λ pgdir old new s. (new, s);
  deallocuvm = λ pgdir old new s. (new, s);
  freevm = λ pgdir s. ok s;
  fork_pids = λ old new (m, t). (do p' ← fork_pids old new m.1; ok ((m.0, p'), t));
  free_inode_locks = λ pid (m, t). ((m.0, free_inode_locks pid m.1), t);
  filedup = λ f (m, t). (do t' ← filedup (f - 1) t; ok (m, t'));
  fileclose = λ f s. ok s;
  idup = λ ip s. s;
  iput = λ ip s. ok s;
}

abbrev shell_file : File
shell_file = record {
  type = fd_inode;
  ref = 1;
  readable = true;
  writable = true;
  pipe = 0;
  ip = 0;
  off = 0;
}

abbrev Open : (Kmem × Pids) × Ftable → Type 0
Open (m, t) = 0 < (t 0).ref

dup-Open :
    (k : ℕ) (s : (Kmem × Pids) × Ftable)
    → Open s
    → (two_procs.proc 1).ofile k ≢ 0
    → Returns Open (file_services.filedup ((two_procs.proc 1).ofile k) s)
unfolding filedup
dup-Open k (m, t) opened there =
    let one : (two_procs.proc 1).ofile k ≡ 1 = ground (arith, there) in
    subst (λ f. Returns Open (file_services.filedup f (m, t))) (sym one)
      (Returns-bind _
        (Returns-check {P = λ (t' : Ftable). 0 < (t' 0).ref} (not (ltb (t 0).ref 1)) filedup_no_ref
          (ground (arith, opened)) (returns _ (ground arith)))
        λ t' opened'. returns _ opened')

fork_lem_example :
    Returns
      (λ (r : Option ℕ × Ptable × ((Kmem × Pids) × Ftable)).
        (r.0 ≡ some 3) × ((i : ℕ) × Born 1 i two_procs r.1))
      (fork file_services 1 two_procs (memory, λ i. shell_file))
unfolding kalloc any_below search_from
fork_lem_example =
    fork_lem file_services Open 1 two_procs (memory, λ i. shell_file) two_procs-IsValid refl
      (any_below-intro (λ i. is_unused (two_procs.proc i).state) nproc 2 (omega arith) refl)
      (omega arith) (omega arith)
      (λ old new.
        Returns-bind _
          (fork_pids_lem old new (λ i j. 0)
            λ i lt. (let room : any_below (λ j. 0 == 0) 64 ≡ true = refl in ground arith))
          λ p' done. returns _ (omega arith))
      dup-Open

used_pids :
    (j : ℕ) → j < nproc → is_unused (two_procs.proc j).state ≡ false → (two_procs.proc j).pid ≢ 0
used_pids j lt used = ground arith

-- kill(0)
kill-unborn_example :
    ((kill 0 two_procs).0 ≡ true)
    × ((t' : Ptable) × (claim_slot (kill 0 two_procs).1 ≡ some (2, t'))
        × ((t'.proc 2).pid ≡ 3)
        × ((t'.proc 2).pid ≢ 0)
        × ((t'.proc 2).killed ≡ true))
unfolding search_from
kill-unborn_example = kill-unborn 0 2 two_procs refl refl used_pids (omega arith)

-- Each process yields at once.
scheduler_lem_example :
    (t' : Ptable) × ((t'.proc 1).state ≡ running)
    × (scheduler_from 64 0 yield (yield 1 two_procs)
        ≡ scheduler_from (0 + 64 - 2) 2 yield (yield 1 t'))
unfolding yield
scheduler_lem_example =
    scheduler_lem 64 0 yield (yield 1 two_procs) 1 (λ j x t ne ready. ground arith) (omega arith)
      (omega arith) refl
