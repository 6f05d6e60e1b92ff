-- ===== src/Strings/Copy.antt =====
-- What the copies of strings leave in the destination.
use model_lib.Base.{
  ℕ, zero, suc, ◌+◌, ◌≤◌, ◌<◌, ◌≡◌, ◌≢◌, ◌⊎◌, refl, ◌∙◌, inl, inr, ◌==◌, Bool-cases, arith,
}
use model_lib.Base.Family.{update}
use model_lib.Strings.{zero_out, strncpy_from, strncpy, safestrcpy_from, safestrcpy}

-- From offset `i` on, `r` is the string at `t` up to offset `k`, where it ends.
pub record Copied (i k : ℕ) (t r : ℕ → ℕ) : Type 0 where
  pub starts : i ≤ k
  pub same : (x : ℕ) → i ≤ x → x < k → (r x ≡ t x) × (t x ≢ 0)

Copied-grow : (i k : ℕ) (t r : ℕ → ℕ) → Copied (i + 1) k t r → r i ≡ t i → t i ≢ 0 → Copied i k t r
Copied-grow i k t r c e ne = record {
  starts = omega (arith, c.starts);
  same = λ x le lt. elim (Bool-cases (x == i)) [
    | inl q ↦ (let x_eq : x ≡ i = ground arith in rw x_eq (e, ne))
    | inr q ↦ c.same x (ground arith) lt
  ];
}

safestrcpy_from_lem :
    (m i : ℕ) (s t : ℕ → ℕ)
    → (k : ℕ) × Copied i k t (safestrcpy_from m i s t)
      × (k ≤ i + m)
      × (safestrcpy_from m i s t k ≡ 0)
      × (k < i + m → t k ≡ 0)
      × ((x : ℕ) → (x < i) ⊎ (i + m < x) → safestrcpy_from m i s t x ≡ s x)
unfolding safestrcpy_from
safestrcpy_from_lem zero i s t = (
  i,
  record { starts = omega arith; same = λ x le lt. absurd (omega arith) },
  omega arith,
  ground arith,
  (λ lt. absurd (omega arith)),
  λ x out. ground arith,
)
safestrcpy_from_lem (suc m) i s t = elim (Bool-cases (t i == 0)) [
  | inl q ↦ rw q (
    i,
    record { starts = omega arith; same = λ x le lt. absurd (omega arith) },
    omega arith,
    ground arith,
    (λ lt. ground arith),
    λ x out. ground arith,
  )
  | inr q ↦
      let (k, c, le, ends, stop, rest) = safestrcpy_from_lem m (i + 1) (update s i (t i)) t in
      rw q (
        k,
        Copied-grow i k t (safestrcpy_from m (i + 1) (update s i (t i)) t) c
            (rest i (inl (omega arith)) ∙ ground arith) (ground arith),
        omega arith,
        ends,
        (λ lt. stop (omega arith)),
        λ x out.
            let far : (x < i + 1) ⊎ (i + 1 + m < x) = elim out [
              | inl h ↦ inl (omega arith)
              | inr h ↦ inr (omega arith)
            ] in
            rest x far ∙ ground arith,
      )
]

-- Where `n` is positive, `safestrcpy` leaves a string of fewer than `n` bytes and its NUL: the
-- source's string, cut off only if it is too long. No byte from offset `n` on changes.
pub safestrcpy_lem :
    (s t : ℕ → ℕ) (n : ℕ)
    → 0 < n
    → (k : ℕ) × Copied 0 k t (safestrcpy s t n)
      × (k < n)
      × (safestrcpy s t n k ≡ 0)
      × (k + 1 < n → t k ≡ 0)
      × ((x : ℕ) → n ≤ x → safestrcpy s t n x ≡ s x)
unfolding safestrcpy
safestrcpy_lem s t zero pos = absurd (omega arith)
safestrcpy_lem s t (suc m) pos =
    let (k, c, le, ends, stop, rest) = safestrcpy_from_lem m 0 s t in
    (k, c, omega arith, ends, (λ lt. stop (omega arith)), λ x far. rest x (inr (omega arith)))

zero_out_lem :
    (n i : ℕ) (s : ℕ → ℕ) (x : ℕ)
    → ((i ≤ x) × (x < i + n) × (zero_out n i s x ≡ 0))
      ⊎ (((x < i) ⊎ (i + n ≤ x)) × (zero_out n i s x ≡ s x))
unfolding zero_out
zero_out_lem zero i s x = inr (omega arith, refl)
zero_out_lem (suc n) i s x = elim (zero_out_lem n (i + 1) (update s i 0) x) [
  | inl (le, lt, e) ↦ inl (omega arith, omega arith, e)
  | inr (out, e) ↦ elim (Bool-cases (x == i)) [
    | inl q ↦ inl (ground arith, ground arith, ground arith)
    | inr q ↦ inr (ground arith, ground arith)
  ]
]

strncpy_from_lem :
    (m i : ℕ) (s t : ℕ → ℕ)
    → (k : ℕ) × Copied i k t (strncpy_from m i s t)
      × (k ≤ i + m)
      × (k < i + m → t k ≡ 0)
      × ((x : ℕ) → k ≤ x → x < i + m → strncpy_from m i s t x ≡ 0)
      × ((x : ℕ) → (x < i) ⊎ (i + m ≤ x) → strncpy_from m i s t x ≡ s x)
unfolding strncpy_from
strncpy_from_lem zero i s t = (
  i,
  record { starts = omega arith; same = λ x le lt. absurd (omega arith) },
  omega arith,
  (λ lt. absurd (omega arith)),
  (λ x le lt. absurd (omega arith)),
  λ x out. refl,
)
strncpy_from_lem (suc m) i s t = elim (Bool-cases (t i == 0)) [
  | inl q ↦ rw q (
    i,
    record { starts = omega arith; same = λ x le lt. absurd (omega arith) },
    omega arith,
    (λ lt. ground arith),
    (λ x le lt. ground (arith, zero_out_lem m (i + 1) (update s i (t i)) x)),
    λ x out. ground (arith, zero_out_lem m (i + 1) (update s i (t i)) x),
  )
  | inr q ↦
      let (k, c, le, stop, zeros, rest) = strncpy_from_lem m (i + 1) (update s i (t i)) t in
      rw q (
        k,
        Copied-grow i k t (strncpy_from m (i + 1) (update s i (t i)) t) c
            (rest i (inl (omega arith)) ∙ ground arith) (ground arith),
        omega arith,
        (λ lt. stop (omega arith)),
        (λ x ge lt. zeros x ge (omega arith)),
        λ x out.
            let far : (x < i + 1) ⊎ (i + 1 + m ≤ x) = elim out [
              | inl h ↦ inl (omega arith)
              | inr h ↦ inr (omega arith)
            ] in
            rest x far ∙ ground arith,
      )
]

-- `strncpy` copies the source's string, at most `n` bytes of it, fills up with NULs to `n` bytes and
-- changes no byte after them.
pub strncpy_lem :
    (s t : ℕ → ℕ) (n : ℕ)
    → (k : ℕ) × Copied 0 k t (strncpy s t n)
      × (k ≤ n)
      × (k < n → t k ≡ 0)
      × ((x : ℕ) → k ≤ x → x < n → strncpy s t n x ≡ 0)
      × ((x : ℕ) → n ≤ x → strncpy s t n x ≡ s x)
unfolding strncpy
strncpy_lem s t n =
    let (k, c, le, stop, zeros, rest) = strncpy_from_lem n 0 s t in
    (
      k,
      c,
      omega arith,
      (λ lt. stop (omega arith)),
      (λ x ge lt. zeros x ge (omega arith)),
      λ x far. rest x (inr (omega arith)),
    )
