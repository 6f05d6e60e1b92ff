-- ===== src/Proc/Calls/Steps.antt =====
-- What processes and the scheduler do to the process table, one call after another, as a step relation.
use model_lib.Base.{
  ℕ, ◌<◌, ◌≡◌, refl, sym, ap, inl, inr, Bool, true, false, not, ◌&&◌, ◌||◌, Option, none, some,
  ◌==◌, if◌then◌else◌, Bool-cases, arith,
}
use model_lib.Base.Outcome.{ok, Yields, yields, Yields-then, Yields-value}
use model_lib.Base.Search.{search_from, search_from-some, any_below}
use model_lib.Proc.{
  nproc, sleeping, runnable, running, Channel, no_chan, proc_chan, Proc, Ptable, set_proc,
  is_unused, is_sleeping, is_zombie, wakeup1, yield, sleep, awake, kill,
}
use model_lib.Proc.Services.{Services}
use model_lib.Proc.Valid.{alive, IsValid}
use model_lib.Proc.Calls.{is_child, reaped, Waited, fork, exit, wait_on, wait, resize, growproc}
use model_lib.Proc.Calls.Parents.{Kept, wakeup1-Passed, Passed-IsValid, is_sleeping-eq}
use model_lib.Proc.Calls.Life.{
  touch-IsValid, keep-IsValid, free-IsValid, zombie-eq, fork-IsValid, exit-IsValid,
}

sleep-IsValid :
    (self : ℕ) (c : Channel) (t : Ptable)
    → IsValid t
    → self < nproc
    → alive (t.proc self).state ≡ true
    → IsValid (sleep self c t)
unfolding sleep
sleep-IsValid self c t v slot lives =
    touch-IsValid t self (record (t.proc self) { chan = c; state = sleeping }) v slot lives refl
      refl refl

wakeup1-IsValid : (c : Channel) (t : Ptable) → IsValid t → IsValid (wakeup1 c t)
wakeup1-IsValid c t v = Passed-IsValid 0 0 t (wakeup1 c t) v (wakeup1-Passed 0 c t)

-- `kill` may also mark a slot without a process, and leaves its state.
killed-Kept :
    (p : Proc)
    → Kept p (record p { killed = true; state = if is_sleeping p.state then runnable else p.state })
killed-Kept p = elim (Bool-cases (is_sleeping p.state)) [
  | inl q ↦
      let e : sleeping ≡ p.state = is_sleeping-eq p.state q in
      rw q record {
        pid = refl;
        files = refl;
        living = ap alive e;
        used = ap is_unused e;
        zombies = ap is_zombie e;
        ready = λ _. refl;
      }
  | inr q ↦ rw q record {
    pid = refl;
    files = refl;
    living = refl;
    used = refl;
    zombies = refl;
    ready = λ h. h;
  }
]

kill-IsValid : (pid : ℕ) (t : Ptable) → IsValid t → IsValid (kill pid t).1
unfolding kill
kill-IsValid pid t v = found (search_from (λ i. (t.proc i).pid == pid) nproc 0)
  where
    found :
        (o : Option ℕ)
        → IsValid
            (elim o as (λ _. Bool × Ptable) [
              | some i ↦
                  let p = t.proc i in
                  (
                    true,
                    set_proc i
                        (record p {
                          killed = true;
                          state = if is_sleeping p.state then runnable else p.state;
                        })
                        t,
                  )
              | none ↦ (false, t)
            ]).1
    found none = v
    found (some i) = keep-IsValid t i _ v (killed-Kept (t.proc i)) refl

module _ {S : Type 0} (os : Services S) where
  wait_on-IsValid :
      (self : ℕ) (o : Option ℕ) (t : Ptable) (s : S)
      → search_from (λ i. is_child self (t.proc i) && is_zombie (t.proc i).state) nproc 0 ≡ o
      → IsValid t
      → self < nproc
      → alive (t.proc self).state ≡ true
      → Yields (λ (r : Waited × Ptable × S). IsValid r.1) (wait_on os self o t s)
  unfolding wait_on
  wait_on-IsValid self (some i) t s e v slot lives =
      let (found, _, lt) =
        search_from-some (λ i. is_child self (t.proc i) && is_zombie (t.proc i).state) nproc 0
          {j = i} e in
      let dead : alive (t.proc i).state ≡ false =
        sym (ap alive (zombie-eq (t.proc i).state (ground arith))) in
      Yields-then (os.kfree (t.proc i).kstack s) _ λ s₁.
        Yields-then (os.freevm (t.proc i).pgdir s₁) _ λ s₂.
          yields _ (free-IsValid t i (reaped (t.proc i)) v (omega arith) dead refl refl (inl refl))
  wait_on-IsValid self none t s e v slot lives =
      elim (Bool-cases
        (not (any_below (λ i. is_child self (t.proc i)) nproc) || (t.proc self).killed)) [
          | inl q ↦ rw q (yields _ v)
          | inr q ↦ rw q (yields _ (sleep-IsValid self (proc_chan self) t v slot lives))
        ]

  growproc-IsValid :
      (self n : ℕ) (t : Ptable) (s : S)
      → IsValid t
      → self < nproc
      → alive (t.proc self).state ≡ true
      → IsValid (growproc os self n t s).1
  unfolding growproc resize
  growproc-IsValid self n t s v slot lives = resized _
    where
      resized : (r : ℕ × S) → IsValid (resize os self n r t).1
      resized (sz, s') = elim (Bool-cases (not (n == 0) && sz == 0)) [
        | inl q ↦ rw q v
        | inr q ↦
            rw q
              (touch-IsValid t self (record (t.proc self) { sz = sz }) v slot lives lives refl refl)
      ]

  -- One step: a whole call of the process `self`, which runs, up to its return or sleep; the scheduler's choice of a
  -- process that is ready; or a call of wakeup, which interrupts also make. Of `fork`, `exit` and `growproc`, which
  -- do not hold ptable.lock throughout, a step is a call during which no other process changes the table.
  pub data Step : Ptable → S → Ptable → S → Type 0 where
    forks :
        {t : Ptable} {s : S} {t' : Ptable} {s' : S} (self : ℕ) (r : Option ℕ)
        → self < nproc
        → (t.proc self).state ≡ running
        → fork os self t s ≡ ok (r, t', s')
        → Step t s t' s'
    exits :
        {t : Ptable} {s : S} {t' : Ptable} {s' : S} (self : ℕ)
        → self < nproc
        → (t.proc self).state ≡ running
        → exit os self t s ≡ ok (t', s')
        → Step t s t' s'
    waits :
        {t : Ptable} {s : S} {t' : Ptable} {s' : S} (self : ℕ) (r : Waited)
        → self < nproc
        → (t.proc self).state ≡ running
        → wait os self t s ≡ ok (r, t', s')
        → Step t s t' s'
    grows :
        {t : Ptable} {s : S} (self n : ℕ)
        → self < nproc
        → (t.proc self).state ≡ running
        → Step t s (growproc os self n t s).1 (growproc os self n t s).2
    yields_cpu :
        {t : Ptable} {s : S} (self : ℕ)
        → self < nproc
        → (t.proc self).state ≡ running
        → Step t s (yield self t) s
    goes_to_sleep :
        {t : Ptable} {s : S} (self : ℕ) (c : Channel)
        → self < nproc
        → (t.proc self).state ≡ running
        → Step t s (sleep self c t) s
    comes_back :
        {t : Ptable} {s : S} (self : ℕ)
        → self < nproc
        → (t.proc self).state ≡ running
        → Step t s (awake self t) s
    is_chosen :
        {t : Ptable} {s : S} (i : ℕ)
        → i < nproc
        → (t.proc i).state ≡ runnable
        → Step t s (set_proc i (record (t.proc i) { state = running }) t) s
    wakes : {t : Ptable} {s : S} (c : Channel) → Step t s (wakeup1 c t) s
    kills : {t : Ptable} {s : S} (pid : ℕ) → Step t s (kill pid t).1 s

  -- Between whole calls, of which no other process runs in the middle, the invariant of the table holds: each call of
  -- fork, exit, wait, growproc, yield, sleep and kill by a running process, each wakeup and each choice of the
  -- scheduler keeps it. Pids stay different, a process's parent is alive and no process is left with a parent
  -- that has exited, and what is not alive has no open file. Within `fork` it does not hold: the slot of the
  -- child is embryo when its files are opened.
  pub Step-IsValid :
      {t : Ptable} {s : S} {t' : Ptable} {s' : S} → Step t s t' s' → IsValid t → IsValid t'
  unfolding wait yield awake
  Step-IsValid {t} {s} (forks self r lt runs e) v =
      Yields-value (fork-IsValid os self t s v lt (ap alive runs)) e
  Step-IsValid {t} {s} (exits self lt runs e) v =
      Yields-value (exit-IsValid os self t s v lt (ap alive runs)) e
  Step-IsValid {t} {s} (waits self r lt runs e) v =
      Yields-value (wait_on-IsValid self _ t s refl v lt (ap alive runs)) e
  Step-IsValid {t} {s} (grows self n lt runs) v = growproc-IsValid self n t s v lt (ap alive runs)
  Step-IsValid {t} {s} (yields_cpu self lt runs) v =
      touch-IsValid t self (record (t.proc self) { state = runnable }) v lt (ap alive runs) refl
        refl refl
  Step-IsValid {t} {s} (goes_to_sleep self c lt runs) v =
      sleep-IsValid self c t v lt (ap alive runs)
  Step-IsValid {t} {s} (comes_back self lt runs) v =
      touch-IsValid t self (record (t.proc self) { chan = no_chan }) v lt (ap alive runs)
        (ap alive runs) refl refl
  Step-IsValid {t} {s} (is_chosen i lt ready) v =
      touch-IsValid t i (record (t.proc i) { state = running }) v lt (ap alive ready) refl refl refl
  Step-IsValid {t} {s} (wakes c) v = wakeup1-IsValid c t v
  Step-IsValid {t} {s} (kills pid) v = kill-IsValid pid t v
