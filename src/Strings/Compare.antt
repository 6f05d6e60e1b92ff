-- ===== src/Strings/Compare.antt =====
-- When two strings or two blocks of memory compare as equal, and where a string ends.
use model_lib.Base.{
  ℕ, zero, suc, ◌+◌, ◌≤◌, ◌<◌, ◌≡◌, ◌≢◌, ◌↔◌, refl, ap, sym, ◌∙◌, inl, inr, true, some, ◌==◌,
  Bool-cases, arith,
}
use model_lib.Strings.{strncmp_from, strncmp, is_zero, memcmp, strlen_from, strlen}

strncmp_sound :
    (n i : ℕ) (p q : ℕ → ℕ)
    → is_zero (strncmp_from n i p q) ≡ true
    → (x : ℕ) → i ≤ x
    → x < i + n
    → ((j : ℕ) → i ≤ j → j < x → p j ≢ 0)
    → p x ≡ q x
unfolding strncmp_from
strncmp_sound zero i p q h x le lt before = absurd (omega arith)
strncmp_sound (suc n) i p q h x le lt before = elim (Bool-cases (x == i)) [
  | inl e ↦ let x_eq : x ≡ i = ground arith in ap p x_eq ∙ ground arith ∙ sym (ap q x_eq)
  | inr e ↦
      let gt : i + 1 ≤ x = ground arith in
      strncmp_sound n (i + 1) p q (ground (arith, before i (omega arith) (omega arith))) x gt
        (omega arith) (λ j ge. before j (omega arith))
]

strncmp_complete :
    (n i : ℕ) (p q : ℕ → ℕ)
    → ((x : ℕ) → i ≤ x → x < i + n → ((j : ℕ) → i ≤ j → j < x → p j ≢ 0) → p x ≡ q x)
    → is_zero (strncmp_from n i p q) ≡ true
unfolding strncmp_from
strncmp_complete zero i p q same = refl
strncmp_complete (suc n) i p q same =
    let here : p i ≡ q i = same i (omega arith) (omega arith) (λ j ge lt. absurd (omega arith)) in
    elim (Bool-cases (p i == 0)) [
      | inl e ↦ ground arith
      | inr e ↦
          let later : is_zero (strncmp_from n (i + 1) p q) ≡ true =
            strncmp_complete n (i + 1) p q λ x ge lt before.
              same x (omega arith) (omega arith) λ j le j_lt. elim (Bool-cases (j == i)) [
                | inl f ↦ (let j_eq : j ≡ i = ground arith in rw j_eq (ground arith))
                | inr f ↦ before j (ground arith) j_lt
              ] in
          ground arith
    ]

strncmp_from-ext :
    (n i : ℕ) (p q r : ℕ → ℕ)
    → ((x : ℕ) → i ≤ x → x < i + n → q x ≡ r x)
    → strncmp_from n i p q ≡ strncmp_from n i p r
unfolding strncmp_from
strncmp_from-ext zero i p q r same = refl
strncmp_from-ext (suc n) i p q r same = cc (
  same i (omega arith) (omega arith),
  strncmp_from-ext n (i + 1) p q r (λ x le lt. same x (omega arith) (omega arith)),
)

-- No byte behind the first `n` counts.
pub strncmp-ext :
    (n : ℕ) (p q r : ℕ → ℕ) → ((x : ℕ) → x < n → q x ≡ r x) → strncmp p q n ≡ strncmp p r n
unfolding strncmp
strncmp-ext n p q r same = strncmp_from-ext n 0 p q r (λ x le lt. same x (omega arith))

-- `strncmp` returns 0 exactly when the strings agree at each of the first `n` offsets that no
-- NUL of the first string comes before.
pub strncmp_lem :
    (p q : ℕ → ℕ) (n : ℕ)
    → (is_zero (strncmp p q n) ≡ true) ↔ ((x : ℕ) → x < n → ((j : ℕ) → j < x → p j ≢ 0) → p x ≡ q x)
unfolding strncmp
strncmp_lem p q n = (
  (λ h x lt before. strncmp_sound n 0 p q h x (omega arith) (omega arith) (λ j ge. before j)),
  λ same.
      strncmp_complete n 0 p q λ x ge lt before. same x (omega arith) (λ j. before j (omega arith)),
)

memcmp_sound :
    (n i : ℕ) (p q : ℕ → ℕ)
    → is_zero (memcmp n i p q) ≡ true
    → (x : ℕ) → i ≤ x
    → x < i + n
    → p x ≡ q x
unfolding memcmp
memcmp_sound zero i p q h x le lt = absurd (omega arith)
memcmp_sound (suc n) i p q h x le lt = elim (Bool-cases (x == i)) [
  | inl e ↦ (let x_eq : x ≡ i = ground arith in ap p x_eq ∙ ground arith ∙ sym (ap q x_eq))
  | inr e ↦ memcmp_sound n (i + 1) p q (ground arith) x (ground arith) (omega arith)
]

memcmp_complete :
    (n i : ℕ) (p q : ℕ → ℕ)
    → ((x : ℕ) → i ≤ x → x < i + n → p x ≡ q x)
    → is_zero (memcmp n i p q) ≡ true
unfolding memcmp
memcmp_complete zero i p q same = refl
memcmp_complete (suc n) i p q same = ground (
  arith,
  same i (omega arith) (omega arith),
  memcmp_complete n (i + 1) p q (λ x ge lt. same x (omega arith) (omega arith)),
)

-- `memcmp` returns 0 exactly when the first `n` bytes are the same.
pub memcmp_lem :
    (n : ℕ) (p q : ℕ → ℕ) → (is_zero (memcmp n 0 p q) ≡ true) ↔ ((x : ℕ) → x < n → p x ≡ q x)
memcmp_lem n p q = (
  (λ h x lt. memcmp_sound n 0 p q h x (omega arith) (omega arith)),
  λ same. memcmp_complete n 0 p q (λ x ge lt. same x (omega arith)),
)

strlen_from_lem :
    (fuel i k : ℕ) (s : ℕ → ℕ)
    → i ≤ k
    → k < i + fuel
    → s k ≡ 0
    → ((j : ℕ) → i ≤ j → j < k → s j ≢ 0)
    → strlen_from fuel i s ≡ some k
unfolding strlen_from
strlen_from_lem zero i k s le lt ends before = absurd (omega arith)
strlen_from_lem (suc fuel) i k s le lt ends before = elim (Bool-cases (i == k)) [
  | inl e ↦ (let i_eq : i ≡ k = ground arith in rw i_eq (ground arith))
  | inr e ↦
      let ne : s i ≢ 0 = before i (omega arith) (ground arith) in
      ground (
        arith,
        strlen_from_lem fuel (i + 1) k s (ground arith) (omega arith) ends
            (λ j ge. before j (omega arith)),
      )
]

-- With fuel for its bytes and its NUL, `strlen` of a string with first NUL at offset `k` returns `k`.
pub strlen_lem :
    (fuel k : ℕ) (s : ℕ → ℕ)
    → k < fuel
    → s k ≡ 0
    → ((j : ℕ) → j < k → s j ≢ 0)
    → strlen fuel s ≡ some k
unfolding strlen
strlen_lem fuel k s lt ends before =
    strlen_from_lem fuel 0 k s (omega arith) (omega arith) ends (λ j ge. before j)
