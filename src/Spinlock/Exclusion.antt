-- ===== src/Spinlock/Exclusion.antt =====
-- A lock is held by one processor at a time.
use model_lib.Base.{
  ℕ, ◌-◌, ◌<◌, ◌≡◌, refl, sym, ap, ◌∙◌, inl, inr, Bool, true, false, false≢true, not, ◌&&◌, List,
  [], ◌∷◌, ◌==◌, Bool-cases, arith,
}
use mathlib.Core.Path.{subst}
use model_lib.Base.Outcome.{ok, ◌>>=◌, Returns, returns, Returns-bind, Returns-if}
use model_lib.Base.Family.{update}
use model_lib.Spinlock.{
  Cpu, pushcli, popcli, is_cpu, holding, Place, outside, pushed, spinning, taken, inside, leaving,
  popping, System, go, step_at, step, run,
}

-- Between the xchg that takes the lock and the one that gives it back.
abbrev pub owns : Place → Bool
owns taken = true
owns inside = true
owns leaving = true
owns _ = false

abbrev pub is_inside : Place → Bool
is_inside inside = true
is_inside _ = false

abbrev pub is_outside : Place → Bool
is_outside outside = true
is_outside _ = false

-- What holds of the lock and its processors at any time: at most one processor owns the lock, and one does if it is
-- locked; the lock names the processor that is inside; a processor has its interrupts off from
-- pushcli to popcli.
pub record IsSafe (s : System) : Type 0 where
  pub owner : (i : ℕ) → owns (s.places i) ≡ true → s.lock.locked ≡ true
  pub unique : (i j : ℕ) → owns (s.places i) ≡ true → owns (s.places j) ≡ true → i ≡ j
  pub locked : s.lock.locked ≡ true → (i : ℕ) × (owns (s.places i) ≡ true)
  pub named : (i : ℕ) → is_cpu i s.lock.cpu ≡ is_inside (s.places i)
  pub off : (i : ℕ) → 0 < (s.cpus i).ncli → (s.cpus i).interrupts ≡ false
  pub matched : (i : ℕ) → is_outside (s.places i) ≡ false → 0 < (s.cpus i).ncli

inside-owns : (p : Place) → is_inside p ≡ true → owns p ≡ true
inside-owns inside e = refl
inside-owns outside e = e
inside-owns pushed e = e
inside-owns spinning e = e
inside-owns taken e = refl
inside-owns leaving e = refl
inside-owns popping e = e

-- No other processor is inside.
alone :
    (s : System) (i j : ℕ)
    → IsSafe s
    → owns (s.places i) ≡ true
    → j == i ≡ false
    → is_inside (s.places j) ≡ false
alone s i j v mine ne = elim (Bool-cases (is_inside (s.places j))) [
  | inl t ↦
      let same : j ≡ i = v.unique j i (inside-owns (s.places j) t) mine in
      absurd (ground (arith, ne, same))
  | inr f ↦ f
]

popcli-ok :
    (c : Cpu)
    → c.interrupts ≡ false
    → 0 < c.ncli
    → popcli c ≡ ok (record c { ncli = c.ncli - 1; interrupts = c.ncli - 1 == 0 && c.intena })
unfolding popcli
popcli-ok c off pos = ground (arith, off)

outside-Safe :
    (i : ℕ) (s : System) → s.places i ≡ outside → IsSafe s → Returns IsSafe (step_at outside i s)
unfolding step_at pushcli
outside-Safe i s at v = returns _ record {
  owner = λ j o. ground (arith, v.owner j);
  unique = λ j k oj ok. ground (arith, v.unique j k);
  locked = λ l. let (j, o) = v.locked l in (j, ground arith);
  named = λ j. ground (arith, v.named j, ap is_inside at);
  off = λ j pos. ground (arith, v.off j);
  matched = λ j out. ground (arith, v.matched j);
}

pushed-Safe :
    (i : ℕ) (s : System) → s.places i ≡ pushed → IsSafe s → Returns IsSafe (step_at pushed i s)
unfolding step_at holding
pushed-Safe i s at v =
    let here = v.named i ∙ ap is_inside at in
    Returns-if (holding i s.lock) _ _ (λ q. absurd (ground (arith, here)))
      (λ q. returns _ record {
        owner = λ j o. ground (arith, v.owner j);
        unique = λ j k oj ok. ground (arith, v.unique j k);
        locked = λ l. let (j, o) = v.locked l in (j, ground arith);
        named = λ j. ground (arith, v.named j, ap is_inside at);
        off = v.off;
        matched = λ j out. ground (arith, v.matched j);
      })

spinning-Safe :
    (i : ℕ) (s : System) → s.places i ≡ spinning → IsSafe s → Returns IsSafe (step_at spinning i s)
unfolding step_at
spinning-Safe i s at v =
    Returns-if s.lock.locked _ _ (λ q. returns _ v)
      (λ q. returns _ record {
        owner = λ j o. refl;
        unique = λ j k oj ok. ground (arith, v.owner j, v.owner k, q);
        locked = λ l. (i, ground arith);
        named = λ j. ground (arith, v.named j, ap is_inside at);
        off = v.off;
        matched = λ j out. ground (arith, v.matched j);
      })

taken-Safe :
    (i : ℕ) (s : System) → s.places i ≡ taken → IsSafe s → Returns IsSafe (step_at taken i s)
unfolding step_at
taken-Safe i s at v =
    let mine : owns (s.places i) ≡ true = ap owns at in
    returns _ record {
      owner = λ j o. v.owner i mine;
      unique = λ j k oj ok. ground (arith, v.unique j k, mine);
      locked = λ l. (i, ground arith);
      named = λ j. elim (Bool-cases (j == i)) [
        | inl q ↦ ground arith
        | inr q ↦ ground (arith, alone s i j v mine q)
      ];
      off = v.off;
      matched = λ j out. ground (arith, v.matched j);
    }

inside-Safe :
    (i : ℕ) (s : System) → s.places i ≡ inside → IsSafe s → Returns IsSafe (step_at inside i s)
unfolding step_at holding
inside-Safe i s at v =
    let mine : owns (s.places i) ≡ true = ap owns at in
    let named_i = v.named i ∙ ap is_inside at in
    let locked_i = v.owner i mine in
    Returns-if (not (holding i s.lock)) _ _ (λ q. absurd (ground (arith, named_i, locked_i)))
      (λ q. returns _ record {
        owner = λ j o. v.owner i mine;
        unique = λ j k oj ok. ground (arith, v.unique j k, mine);
        locked = λ l. (i, ground arith);
        named = λ j. elim (Bool-cases (j == i)) [
          | inl q' ↦ ground arith
          | inr q' ↦ ground (arith, alone s i j v mine q')
        ];
        off = v.off;
        matched = λ j out. ground (arith, v.matched j);
      })

leaving-Safe :
    (i : ℕ) (s : System) → s.places i ≡ leaving → IsSafe s → Returns IsSafe (step_at leaving i s)
unfolding step_at
leaving-Safe i s at v =
    let mine : owns (s.places i) ≡ true = ap owns at in
    returns _ record {
      owner = λ j o. absurd (ground (arith, v.unique i j mine));
      unique = λ j k oj ok. ground (arith, v.unique j k);
      locked = λ l. absurd (false≢true l);
      named = λ j. ground (arith, v.named j, ap is_inside at);
      off = v.off;
      matched = λ j out. ground (arith, v.matched j);
    }

popping-Safe :
    (i : ℕ) (s : System) → s.places i ≡ popping → IsSafe s → Returns IsSafe (step_at popping i s)
unfolding step_at
popping-Safe i s at v =
    let pos = v.matched i (ap is_outside at) in
    let c : Cpu = record (s.cpus i) {
      ncli = (s.cpus i).ncli - 1;
      interrupts = (s.cpus i).ncli - 1 == 0 && (s.cpus i).intena;
    } in
    let popped : popcli (s.cpus i) ≡ ok c = popcli-ok (s.cpus i) (v.off i pos) pos in
    subst
      (λ o. Returns IsSafe (o >>= λ c'. ok (go i outside (record s { cpus = update s.cpus i c' }))))
      (sym popped)
      (returns _ record {
        owner = λ j o. ground (arith, v.owner j);
        unique = λ j k oj ok. ground (arith, v.unique j k);
        locked = λ l. let (j, o) = v.locked l in (j, ground arith);
        named = λ j. ground (arith, v.named j, ap is_inside at);
        off = λ j more. ground (arith, v.off j);
        matched = λ j out. ground (arith, v.matched j);
      })

step_at-Safe :
    (p : Place) (i : ℕ) (s : System) → s.places i ≡ p → IsSafe s → Returns IsSafe (step_at p i s)
step_at-Safe outside = outside-Safe
step_at-Safe pushed = pushed-Safe
step_at-Safe spinning = spinning-Safe
step_at-Safe taken = taken-Safe
step_at-Safe inside = inside-Safe
step_at-Safe leaving = leaving-Safe
step_at-Safe popping = popping-Safe

-- In whatever order the processors move, no step of `acquire` or `release` panics, and at any time at most one
-- processor is between the taking of the lock and its giving back, while an unlocked lock has none;
-- a processor between its pushcli and its popcli has interrupts off.
pub run-IsSafe : (is : List ℕ) (s : System) → IsSafe s → Returns IsSafe (run is s)
unfolding run step
run-IsSafe [] s v = returns s v
run-IsSafe (i ∷ is) s v =
    Returns-bind _ (step_at-Safe (s.places i) i s refl v) λ s₁ v₁. run-IsSafe is s₁ v₁
