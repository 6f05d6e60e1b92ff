-- ===== src/Proc/Calls/Waiting.antt =====
-- A child that exits and its parent in `wait`.
use model_lib.Base.{
  ℕ, ◌<◌, ◌≡◌, ◌≢◌, refl, sym, ap, ◌∙◌, true, false, false≢true, ◌&&◌, Option, none, some, ◌==◌,
  arith,
}
use model_lib.Base.Outcome.{Returns, returns, Returns-bind}
use model_lib.Base.Search.{search_from, search_from-some, search_from-none}
use model_lib.Proc.{
  nproc, sleeping, zombie, Channel, set_proc, proc_chan, same_chan, Proc, Ptable, is_sleeping,
  is_zombie, is_runnable, wake, wakeup1,
}
use model_lib.Proc.Services.{Services}
use model_lib.Proc.Calls.{is_child, parent_chan, pass_on, finish, Waited, wait_on, wait}
use model_lib.Proc.Calls.Life.{zombie-eq}
use model_lib.Proc.Calls.Parents.{Passed, wakeup1-Passed, pass_on-Passed}

-- The end of `exit` leaves a zombie child of the same parent, and the parent ready if it slept in
-- `wait`.
pub record Exited (self j : ℕ) (t t' : Ptable) : Type 0 where
  pub parent : (t'.proc self).parent ≡ some j
  pub state : (t'.proc self).state ≡ zombie
  pub woken :
      (t.proc j).state ≡ sleeping
      → (t.proc j).chan ≡ proc_chan j
      → is_runnable (t'.proc j).state ≡ true

same_chan_self : (c : Channel) → same_chan c c ≡ true
unfolding same_chan
same_chan_self Channel.no_chan = refl
same_chan_self (proc_chan i) = ground arith
same_chan_self (Channel.addr_chan a) = ground arith

wakes_up :
    (c : Channel) (t : Ptable) (j : ℕ)
    → j < nproc
    → (t.proc j).state ≡ sleeping
    → (t.proc j).chan ≡ c
    → is_runnable ((wakeup1 c t).proc j).state ≡ true
unfolding wakeup1 wake
wakes_up c t j lt s ch =
    let on : same_chan (t.proc j).chan c ≡ true = ap (λ x. same_chan x c) ch ∙ same_chan_self c in
    let asleep : is_sleeping (t.proc j).state ≡ true = ap is_sleeping s in ground arith

not_own : (self j : ℕ) (p : Proc) → p.parent ≡ some j → j ≢ self → is_child self p ≡ false
not_own self j p e ne =
    let differ : (j == self) ≡ false = ground arith in
    ap (λ o. elim o [ some i ↦ i == self | none ↦ false ]) e ∙ differ

parent_stays :
    (n self j : ℕ) (t t' : Ptable)
    → Passed n self t t'
    → j ≢ self
    → (t.proc self).parent ≡ some j
    → (t'.proc self).parent ≡ some j
parent_stays n self j t t' p ne e =
    let other = not_own self j (t.proc self) e ne in ground (arith, p.parent self)

zombie-Exited :
    (self j : ℕ) (t t₁ t₂ : Ptable)
    → j ≢ self
    → (t₂.proc self).parent ≡ some j
    → ((t.proc j).state ≡ sleeping
        → (t.proc j).chan ≡ proc_chan j
        → is_runnable (t₂.proc j).state ≡ true)
    → Exited self j t (set_proc self (record (t₂.proc self) { state = zombie }) t₂)
zombie-Exited self j t t₁ t₂ ne e woken = record {
  parent = ground arith;
  state = ground arith;
  woken = λ s ch. (let runs = woken s ch in ground arith);
}

pub finish-Exited :
    (self j : ℕ) (t : Ptable)
    → j < nproc
    → (t.proc self).parent ≡ some j
    → j ≢ self
    → Exited self j t (finish self t)
unfolding finish
finish-Exited self j t slot e ne =
    let c = parent_chan (t.proc self).parent in
    let t₁ = wakeup1 c t in
    let w : Passed 0 self t t₁ = wakeup1-Passed self c t in
    let t₂ = pass_on nproc self t₁ in
    let p = pass_on-Passed nproc self t₁ in
    zombie-Exited self j t t₁ t₂ ne
      (parent_stays nproc self j t₁ t₂ p ne (parent_stays 0 self j t t₁ w ne e))
      (λ s ch. (p.kept j).ready (wakes_up c t j slot s (ch ∙ sym (ap parent_chan e))))

module _ {S : Type 0} (os : Services S) where
  wait_on-child :
      (j : ℕ) (o : Option ℕ) (t : Ptable) (s : S) (self : ℕ)
      → search_from (λ i. is_child j (t.proc i) && is_zombie (t.proc i).state) nproc 0 ≡ o
      → self < nproc
      → (t.proc self).parent ≡ some j
      → (t.proc self).state ≡ zombie
      → ((i : ℕ) (s : S)
          → (t.proc i).state ≡ zombie
          → Returns (λ (s' : S). Unit {0}) (os.kfree (t.proc i).kstack s))
      → ((i : ℕ) (s : S)
          → (t.proc i).state ≡ zombie
          → Returns (λ (s' : S). Unit {0}) (os.freevm (t.proc i).pgdir s))
      → Returns
          (λ (r : Waited × Ptable × S).
            (i : ℕ) × (is_child j (t.proc i) ≡ true)
            × ((t.proc i).state ≡ zombie)
            × (r.0 ≡ Waited.child (t.proc i).pid))
          (wait_on os j o t s)
  unfolding wait_on
  wait_on-child j none t s self e slot child dead kfree freevm =
      let is_c : is_child j (t.proc self) ≡ true =
        ap (λ o. elim o [ some i ↦ i == j | none ↦ false ]) child ∙ ground arith in
      let is_z : is_zombie (t.proc self).state ≡ true = ap is_zombie dead in
      let missed : (is_child j (t.proc self) && is_zombie (t.proc self).state) ≡ false =
        search_from-none (λ i. is_child j (t.proc i) && is_zombie (t.proc i).state) nproc 0 self e
          (omega arith) (omega arith) in
      absurd (false≢true (sym missed ∙ ground arith))
  wait_on-child j (some i) t s self e slot child dead kfree freevm =
      let (found, _, _) =
        search_from-some (λ i. is_child j (t.proc i) && is_zombie (t.proc i).state) nproc 0 {j = i}
          e in
      let z = sym (zombie-eq (t.proc i).state (ground arith)) in
      Returns-bind _ (kfree i s z)
        λ s₁ _. Returns-bind _ (freevm i s₁ z) λ s₂ _. returns _ (i, ground arith, z, refl)

  -- When a child has finished its `exit`, its parent is ready if it slept in `wait`, and a
  -- `wait` of the parent does not sleep: where the memory can be freed it returns the pid of a zombie
  -- child.
  pub exit-wait :
      (self j : ℕ) (t : Ptable) (s : S)
      → self < nproc
      → j < nproc
      → (t.proc self).parent ≡ some j
      → j ≢ self
      → ((i : ℕ) (s : S)
          → ((finish self t).proc i).state ≡ zombie
          → Returns (λ (s' : S). Unit {0}) (os.kfree ((finish self t).proc i).kstack s))
      → ((i : ℕ) (s : S)
          → ((finish self t).proc i).state ≡ zombie
          → Returns (λ (s' : S). Unit {0}) (os.freevm ((finish self t).proc i).pgdir s))
      → ((t.proc j).state ≡ sleeping
          → (t.proc j).chan ≡ proc_chan j
          → is_runnable ((finish self t).proc j).state ≡ true)
        × Returns
            (λ (r : Waited × Ptable × S).
              (i : ℕ) × (is_child j ((finish self t).proc i) ≡ true)
              × (((finish self t).proc i).state ≡ zombie)
              × (r.0 ≡ Waited.child ((finish self t).proc i).pid))
            (wait os j (finish self t) s)
  unfolding wait
  exit-wait self j t s slot parent_slot e ne kfree freevm =
      let x = finish-Exited self j t parent_slot e ne in
      (x.woken, wait_on-child j _ (finish self t) s self refl slot x.parent x.state kfree freevm)
