-- ===== src/Proc/Rounds.antt =====
-- The scheduler's loop over the table.
use model_lib.Base.{
  ℕ, zero, suc, ◌+◌, ◌-◌, ◌≤◌, ◌<◌, ◌≡◌, ◌≢◌, sym, ap, ◌∙◌, inl, inr, true, ◌==◌, if◌then◌else◌,
  Bool-cases, arith,
}
use model_lib.Proc.{running, Ptable, set_proc, is_runnable, scheduler_from}

-- A process that is ready when the scheduler goes through the table, in the slots from `from` on,
-- is run in this round, if no other process takes away its readiness: the round goes on from where the
-- process, running, has switched back.
pub scheduler_lem :
    (r from : ℕ) (run : ℕ → Ptable → Ptable) (t : Ptable) (i : ℕ)
    → ((j x : ℕ) (t : Ptable)
        → x ≢ j
        → is_runnable (t.proc x).state ≡ true
        → is_runnable ((run j t).proc x).state ≡ true)
    → from ≤ i
    → i < from + r
    → is_runnable (t.proc i).state ≡ true
    → (t' : Ptable) × ((t'.proc i).state ≡ running)
      × (scheduler_from r from run t ≡ scheduler_from (from + r - (i + 1)) (i + 1) run (run i t'))
unfolding scheduler_from
scheduler_lem zero from run t i kind le lt ready = absurd (omega arith)
scheduler_lem (suc r) from run t i kind le lt ready = elim (Bool-cases (i == from)) [
  | inl q ↦
      let e : from ≡ i = ground arith in
      let left : r ≡ from + suc r - (i + 1) = omega arith in
      let here : is_runnable (t.proc from).state ≡ true = rw e ready in
      let t' : Ptable = set_proc from (record (t.proc from) { state = running }) t in
      (
        t',
        rw (sym e) (ground arith),
        rw here (
            ap (λ n. scheduler_from n (from + 1) run (run from t')) left
            ∙ ap (λ x. scheduler_from (from + suc r - (i + 1)) (x + 1) run (run x t')) e),
      )
  | inr q ↦
      let ne : i ≢ from = ground arith in
      let t₁ : Ptable =
        if is_runnable (t.proc from).state
        then run from (set_proc from (record (t.proc from) { state = running }) t)
        else t in
      let still : is_runnable (t₁.proc i).state ≡ true =
        elim (Bool-cases (is_runnable (t.proc from).state)) [
          | inl here ↦ rw here (kind from i _ ne (rw q ready))
          | inr here ↦ rw here ready
        ] in
      let (t', runs, e) =
        scheduler_lem r (from + 1) run t₁ i kind (omega arith) (omega arith) still in
      let left : from + 1 + r - (i + 1) ≡ from + suc r - (i + 1) = omega arith in
      (t', runs, e ∙ ap (λ n. scheduler_from n (i + 1) run (run i t')) left)
]
