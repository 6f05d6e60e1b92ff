-- ===== src/Base/Family.antt =====
-- Arrays and stores as functions of an index, and searches in a list of indices.
use Prim.Native.Nat.{ℕ, ◌+◌, ◌≤◌, ◌<◌}
use mathlib.Core.Path.{◌≡◌, refl, fun_ext, ap, ◌∙◌}
use mathlib.Core.Logic.{◌≢◌, inl, inr}
use mathlib.Core.Bool.{Bool, true, false, ◌||◌}
use mathlib.Core.Option.{Option, none, some}
use mathlib.Core.List.{List, [], ◌∷◌}
use native.Mathlib.Omega.{arith}
use model_lib.Base.Tests.{◌==◌, if◌then◌else◌, Bool-cases}

module _ {ℓ} {A : Type ℓ} where
  abbrev pub update : (ℕ → A) → ℕ → A → ℕ → A
  update f i a j = if j == i then a else f j

  pub update_self : (f : ℕ → A) (i : ℕ) (a : A) → update f i a i ≡ a
  update_self f i a = ground arith

  pub update_ne : (f : ℕ → A) (i j : ℕ) (a : A) → j ≢ i → update f i a j ≡ f j
  update_ne f i j a h = ground arith

  -- Writing back what is there changes nothing.
  pub update_same : (f : ℕ → A) (i : ℕ) (a : A) → f i ≡ a → update f i a ≡ f
  update_same f i a e = fun_ext λ j. ground arith

  pub update-update : (f : ℕ → A) (i : ℕ) (a b : A) → update (update f i a) i b ≡ update f i b
  update-update f i a b = fun_ext λ j. ground arith

-- Is `i` in the list?
unfoldable pub has : List ℕ → ℕ → Bool
has [] i = false
has (x ∷ xs) i = i == x || has xs i

-- No index stands in the list twice.
abbrev pub Distinct : List ℕ → Type 0
Distinct [] = Unit
Distinct (x ∷ xs) = (has xs x ≡ false) × Distinct xs

-- The first element that passes the test, and the last.
unfoldable pub find : (ℕ → Bool) → List ℕ → Option ℕ
find p [] = none
find p (x ∷ xs) = if p x then some x else find p xs

unfoldable pub find_last : (ℕ → Bool) → List ℕ → Option ℕ
find_last p [] = none
find_last p (x ∷ xs) = elim (find_last p xs) [
  | some y ↦ some y
  | none ↦ if p x then some x else none
]

-- The list without the first `i` in it.
unfoldable pub erase : ℕ → List ℕ → List ℕ
erase i [] = []
erase i (x ∷ xs) = if x == i then xs else x ∷ erase i xs

-- How many elements pass the test.
unfoldable pub count : (ℕ → Bool) → List ℕ → ℕ
count p [] = 0
count p (x ∷ xs) = (if p x then 1 else 0) + count p xs

pub find-some :
    (p : ℕ → Bool) (xs : List ℕ) {i : ℕ} → find p xs ≡ some i → (p i ≡ true) × (has xs i ≡ true)
unfolding find has
find-some p [] e = cc
find-some p (x ∷ xs) {i} e = elim (Bool-cases (p x)) [
  | inl t ↦ ground arith
  | inr f ↦ ground (arith, find-some p xs {i = i})
]

pub find-none :
    (p : ℕ → Bool) (xs : List ℕ) (i : ℕ) → find p xs ≡ none → has xs i ≡ true → p i ≡ false
unfolding find has
find-none p [] i e h = cc
find-none p (x ∷ xs) i e h = ground (arith, find-none p xs i)

pub find_last-some :
    (p : ℕ → Bool) (xs : List ℕ) {i : ℕ}
    → find_last p xs ≡ some i
    → (p i ≡ true) × (has xs i ≡ true)
unfolding find_last has
find_last-some p [] e = cc
find_last-some p (x ∷ xs) {i} e = ground (arith, find_last-some p xs {i = i})

pub find_last-none :
    (p : ℕ → Bool) (xs : List ℕ) (i : ℕ) → find_last p xs ≡ none → has xs i ≡ true → p i ≡ false
unfolding find_last has
find_last-none p [] i e h = cc
find_last-none p (x ∷ xs) i e h = ground (arith, find_last-none p xs i)

-- With only one element that passes, the search finds it.
pub find_unique :
    (p : ℕ → Bool) (xs : List ℕ) (i : ℕ)
    → has xs i ≡ true
    → p i ≡ true
    → ((j : ℕ) → has xs j ≡ true → p j ≡ true → j ≡ i)
    → find p xs ≡ some i
unfolding find has
find_unique p [] i h t one = cc
find_unique p (x ∷ xs) i h t one = elim (Bool-cases (p x)) [
  | inl px ↦ rw px (ap some (one x (ground arith) px))
  | inr px ↦ rw px (find_unique p xs i (ground arith) t (λ j hj. one j (ground arith)))
]

pub find-eq_none :
    (p : ℕ → Bool) (xs : List ℕ) → ((j : ℕ) → has xs j ≡ true → p j ≡ false) → find p xs ≡ none
unfolding find has
find-eq_none p [] all = refl
find-eq_none p (x ∷ xs) all =
    ground (arith, all x, find-eq_none p xs (λ j hj. all j (ground arith)))

-- Moving an element to the front keeps what the list has and how often.
pub has-move : (i j : ℕ) (xs : List ℕ) → has xs i ≡ true → has (i ∷ erase i xs) j ≡ has xs j
unfolding has erase
has-move i j [] h = cc
has-move i j (x ∷ xs) h = ground (arith, has-move i j xs)

pub has-erase_ne : (i j : ℕ) (xs : List ℕ) → j ≢ i → has (erase i xs) j ≡ has xs j
unfolding has erase
has-erase_ne i j [] h = refl
has-erase_ne i j (x ∷ xs) h = ground (arith, has-erase_ne i j xs)

pub erase-Distinct : (i : ℕ) (xs : List ℕ) → Distinct xs → Distinct (erase i xs)
unfolding has erase
erase-Distinct i [] d = d
erase-Distinct i (x ∷ xs) d = elim (Bool-cases (x == i)) [
  | inl e ↦ rw e d.1
  | inr e ↦ rw e (has-erase_ne i x xs (ground arith) ∙ d.0, erase-Distinct i xs d.1)
]

pub has-erase_self : (i : ℕ) (xs : List ℕ) → Distinct xs → has (erase i xs) i ≡ false
unfolding has erase
has-erase_self i [] d = refl
has-erase_self i (x ∷ xs) d = ground (arith, has-erase_self i xs)

pub move-Distinct : (i : ℕ) (xs : List ℕ) → Distinct xs → Distinct (i ∷ erase i xs)
move-Distinct i xs d = (has-erase_self i xs d, erase-Distinct i xs d)

pub count-move :
    (p : ℕ → Bool) (i : ℕ) (xs : List ℕ) → has xs i ≡ true → count p (i ∷ erase i xs) ≡ count p xs
unfolding has erase count
count-move p i [] h = cc
count-move p i (x ∷ xs) h = ground (arith, count-move p i xs)

-- A count of zero or more: an element that passes makes it positive, and the other way round.
pub count-pos :
    (p : ℕ → Bool) (xs : List ℕ) → 0 < count p xs → (i : ℕ) × (p i ≡ true) × (has xs i ≡ true)
unfolding has count
count-pos p [] h = absurd (omega arith)
count-pos p (x ∷ xs) h = elim (Bool-cases (p x)) [
  | inl e ↦ (x, e, ground arith)
  | inr e ↦ (let (i, t, m) = count-pos p xs (ground arith) in (i, t, ground arith))
]

pub count-ext :
    (p q : ℕ → Bool) (xs : List ℕ)
    → ((j : ℕ) → has xs j ≡ true → p j ≡ q j)
    → count p xs ≡ count q xs
unfolding has count
count-ext p q [] all = refl
count-ext p q (x ∷ xs) all =
    ground (arith, all x (ground arith), count-ext p q xs (λ j hj. all j (ground arith)))

abbrev pub weight : Bool → ℕ
weight b = if b then 1 else 0

-- Changing the test at one element of a list without repetitions moves the count by that element.
pub count-change :
    (p q : ℕ → Bool) (i : ℕ) (xs : List ℕ)
    → Distinct xs
    → has xs i ≡ true
    → ((j : ℕ) → j ≢ i → p j ≡ q j)
    → count q xs + weight (p i) ≡ count p xs + weight (q i)
unfolding has count
count-change p q i [] d h same = cc
count-change p q i (x ∷ xs) d h same = elim (Bool-cases (i == x)) [
  | inl e ↦
      let e' : i ≡ x = ground arith in
      let rest : count p xs ≡ count q xs =
        count-ext p q xs (λ j hj. same j (λ e''. ground arith)) in
      rw e' (omega (arith, rest))
  | inr e ↦
      let ne : x ≢ i = ground arith in
      rw (same x ne) (omega (arith, count-change p q i xs d.1 (ground arith) same))
]

pub weight_le_one : (b : Bool) → weight b ≤ 1
weight_le_one true = omega arith
weight_le_one false = omega arith

pub find_last-eq_none :
    (p : ℕ → Bool) (xs : List ℕ) → ((j : ℕ) → has xs j ≡ true → p j ≡ false) → find_last p xs ≡ none
unfolding find_last has
find_last-eq_none p [] all = refl
find_last-eq_none p (x ∷ xs) all =
    rw (find_last-eq_none p xs (λ j hj. all j (ground arith)), all x (ground arith))

pub count-eq_zero :
    (p : ℕ → Bool) (xs : List ℕ) → count p xs ≡ 0 → (i : ℕ) → has xs i ≡ true → p i ≡ false
unfolding has count
count-eq_zero p [] e i h = cc
count-eq_zero p (x ∷ xs) e i h = ground (arith, count-eq_zero p xs (ground arith) i)
