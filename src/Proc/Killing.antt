-- ===== src/Proc/Killing.antt =====
-- kill.
use model_lib.Base.{
  ℕ, ◌<◌, ◌≡◌, ◌≢◌, ◌⊎◌, refl, ap, ◌∙◌, inl, inr, Bool, true, false, Option, none, some,
  Option-cases, ◌==◌, if◌then◌else◌, Bool-cases, arith,
}
use model_lib.Base.Family.{update, update_self, update_ne}
use model_lib.Base.Search.{search_from, search_from-some, search_from-none, search_from-ext}
use model_lib.Proc.{
  nproc, ProcState, unused, embryo, sleeping, runnable, running, zombie, Proc, Ptable, set_proc,
  is_unused, is_sleeping, claim, claim_slot, kill,
}

-- What `kill` makes of the process.
abbrev pub killed_proc : Proc → Proc
killed_proc p = record p {
  killed = true;
  state = if is_sleeping p.state then runnable else p.state;
}

not_asleep : (s : ProcState) → is_sleeping (if is_sleeping s then runnable else s) ≡ false
not_asleep unused = refl
not_asleep embryo = refl
not_asleep sleeping = refl
not_asleep runnable = refl
not_asleep running = refl
not_asleep zombie = refl

kill-found :
    (pid : ℕ) (t : Ptable) (i : ℕ)
    → search_from (λ i. (t.proc i).pid == pid) nproc 0 ≡ some i
    → kill pid t ≡ (true, set_proc i (killed_proc (t.proc i)) t)
unfolding kill
kill-found pid t i e =
    ap
      (λ o. elim o as (λ _. Bool × Ptable) [
        | some x ↦ (true, set_proc x (killed_proc (t.proc x)) t)
        | none ↦ (false, t)
      ])
      e

-- `kill` fails and changes nothing if no slot has the pid. Else it marks one with that pid as killed,
-- which is then not asleep, and changes no other.
pub kill_lem :
    (pid : ℕ) (t : Ptable)
    → ((kill pid t ≡ (false, t)) × ((i : ℕ) → i < nproc → (t.proc i).pid ≢ pid))
      ⊎ ((i : ℕ) × (i < nproc)
          × ((t.proc i).pid ≡ pid)
          × ((kill pid t).0 ≡ true)
          × (((kill pid t).1.proc i).killed ≡ true)
          × (is_sleeping ((kill pid t).1.proc i).state ≡ false)
          × ((j : ℕ) → j ≢ i → (kill pid t).1.proc j ≡ t.proc j))
kill_lem pid t = elim (Option-cases (search_from (λ i. (t.proc i).pid == pid) nproc 0)) [
  | inl e ↦ inl (
    unfold kill in
        ap
          (λ o. elim o as (λ _. Bool × Ptable) [
            | some x ↦ (true, set_proc x (killed_proc (t.proc x)) t)
            | none ↦ (false, t)
          ])
          e,
    λ i lt same.
        let other =
          search_from-none (λ i. (t.proc i).pid == pid) nproc 0 i e (omega arith) (omega arith) in
        ground arith,
  )
  | inr (i, e) ↦
      let (same, _, lt) = search_from-some (λ i. (t.proc i).pid == pid) nproc 0 {j = i} e in
      rw (kill-found pid t i e) (
        inr (
          i,
          omega arith,
          ground arith,
          refl,
          ground arith,
          ap (λ (p : Proc). is_sleeping p.state) (update_self t.proc i (killed_proc (t.proc i)))
              ∙ not_asleep (t.proc i).state,
          λ j ne. update_ne t.proc i j (killed_proc (t.proc i)) ne,
        ))
]

-- Where no process has the pid, the next pid to be given is another, and the first free slot is the first
-- slot with this pid, as with pid 0 in slots never used or freed by `wait`: `kill` of the pid succeeds, and the
-- next process that is created, whose pid is another, starts as killed.
pub kill-unborn :
    (pid i : ℕ) (t : Ptable)
    → search_from (λ i. (t.proc i).pid == pid) nproc 0 ≡ some i
    → search_from (λ i. is_unused (t.proc i).state) nproc 0 ≡ some i
    → ((j : ℕ) → j < nproc → is_unused (t.proc j).state ≡ false → (t.proc j).pid ≢ pid)
    → t.nextpid ≢ pid
    → ((kill pid t).0 ≡ true)
      × ((t' : Ptable) × (claim_slot (kill pid t).1 ≡ some (i, t'))
          × ((t'.proc i).pid ≡ t.nextpid)
          × ((t'.proc i).pid ≢ pid)
          × ((t'.proc i).killed ≡ true))
unfolding claim_slot claim
kill-unborn pid i t here free nobody other =
    let (u, _, _) = search_from-some (λ i. is_unused (t.proc i).state) nproc 0 {j = i} free in
    let k : Ptable = set_proc i (killed_proc (t.proc i)) t in
    let still : search_from (λ i. is_unused (k.proc i).state) nproc 0 ≡ some i =
      search_from-ext (λ x. is_unused (k.proc x).state) (λ x. is_unused (t.proc x).state) nproc 0
        (same_free i t u)
      ∙ free in
    rw (kill-found pid t i here) (
      refl,
      (
        claim i k,
        ap
            (λ o. elim o as (λ _. Option (ℕ × Ptable)) [
              | some x ↦ some (x, claim x k)
              | none ↦ none
            ])
            still,
        ground arith,
        (λ e. other (ground (arith, e))),
        ground arith,
      ),
    )
  where
    kept_state :
        (s : ProcState)
        → is_unused s ≡ true
        → is_unused (if is_sleeping s then runnable else s) ≡ is_unused s
    kept_state unused h = refl
    kept_state embryo h = cc
    kept_state sleeping h = cc
    kept_state runnable h = cc
    kept_state running h = cc
    kept_state zombie h = cc

    same_free :
        (i : ℕ) (t : Ptable)
        → is_unused (t.proc i).state ≡ true
        → (x : ℕ)
        → is_unused (update t.proc i (killed_proc (t.proc i)) x).state ≡ is_unused (t.proc x).state
    same_free i t u x = elim (Bool-cases (x == i)) [
      | inl q ↦ (let e : x ≡ i = ground arith in rw q (rw e (kept_state (t.proc i).state u)))
      | inr q ↦ rw q refl
    ]
