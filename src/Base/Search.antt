-- ===== src/Base/Search.antt =====
-- A loop over a table that stops at the first entry that passes a test.
use Prim.Native.Nat.{ℕ, zero, suc, ◌+◌, ◌≤◌, ◌<◌}
use mathlib.Core.Path.{◌≡◌, refl, ap, sym, ◌∙◌}
use mathlib.Core.Logic.{inl, inr}
use mathlib.Core.Bool.{Bool, true, false}
use mathlib.Core.Option.{Option, none, some}
use native.Mathlib.Omega.{arith}
use model_lib.Base.Tests.{◌==◌, if◌then◌else◌, Bool-cases}

-- for (j = i; j < i + r; j++) if (p(j)) return j;
unfoldable pub search_from : (ℕ → Bool) → ℕ → ℕ → Option ℕ
search_from p zero i = none
search_from p (suc r) i = let rest = search_from p r (i + 1) in if p i then some i else rest

pub search_from-some :
    (p : ℕ → Bool) (r i : ℕ) {j : ℕ}
    → search_from p r i ≡ some j
    → (p j ≡ true) × (i ≤ j) × (j < i + r)
unfolding search_from
search_from-some p zero i e = cc
search_from-some p (suc r) i {j} e = elim (Bool-cases (p i)) [
  | inl t ↦ let ij : i ≡ j = ground arith in (ap p (sym ij) ∙ t, omega arith, omega arith)
  | inr f ↦
      let (t, le, lt) = search_from-some p r (i + 1) {j = j} (ground arith) in
      (t, omega arith, omega arith)
]

pub search_from-none :
    (p : ℕ → Bool) (r i j : ℕ) → search_from p r i ≡ none → i ≤ j → j < i + r → p j ≡ false
unfolding search_from
search_from-none p zero i j e le lt = absurd (omega arith)
search_from-none p (suc r) i j e le lt = elim (Bool-cases (i == j)) [
  | inl q ↦ (let ij : i ≡ j = ground arith in rw (← ij) (ground arith))
  | inr q ↦ search_from-none p r (i + 1) j (ground arith) (ground arith) (omega arith)
]

-- Does some entry below `n` pass?
pub is_found : Option ℕ → Bool
is_found none = false
is_found (some j) = true

unfoldable pub any_below : (ℕ → Bool) → ℕ → Bool
unfolding is_found
any_below p n = is_found (search_from p n 0)

pub any_below-intro : (p : ℕ → Bool) (n j : ℕ) → j < n → p j ≡ true → any_below p n ≡ true
unfolding any_below
any_below-intro p n j lt t = by_search (search_from p n 0) refl
  where
    by_search : (o : Option ℕ) → search_from p n 0 ≡ o → is_found o ≡ true
    by_search none e = cc (search_from-none p n 0 j e (omega arith) (omega arith), t)
    by_search (some x) e = refl

pub any_below-elim :
    (p : ℕ → Bool) (n : ℕ) → any_below p n ≡ true → (j : ℕ) × (j < n) × (p j ≡ true)
unfolding any_below
any_below-elim p n = by_search (search_from p n 0) refl
  where
    by_search :
        (o : Option ℕ)
        → search_from p n 0 ≡ o
        → is_found o ≡ true
        → (j : ℕ) × (j < n) × (p j ≡ true)
    by_search none e h = cc
    by_search (some x) e h =
        let (t, le, lt) = search_from-some p n 0 {j = x} e in (x, omega arith, t)

-- Two tests that imply one another are equal.
pub Bool-ext : (a b : Bool) → (a ≡ true → b ≡ true) → (b ≡ true → a ≡ true) → a ≡ b
Bool-ext true b f g = sym (f refl)
Bool-ext false true f g = g refl
Bool-ext false false f g = refl

pub search_from-ext :
    (p q : ℕ → Bool) (r i : ℕ) → ((j : ℕ) → p j ≡ q j) → search_from p r i ≡ search_from q r i
unfolding search_from
search_from-ext p q zero i same = refl
search_from-ext p q (suc r) i same = ground (arith, same i, search_from-ext p q r (i + 1) same)

-- No entry before the one found passes.
pub search_from-first :
    (p : ℕ → Bool) (r i x : ℕ) {j : ℕ} → search_from p r i ≡ some j → i ≤ x → x < j → p x ≡ false
unfolding search_from
search_from-first p zero i x e le lt = cc
search_from-first p (suc r) i x {j} e le lt = elim (Bool-cases (p i)) [
  | inl t ↦ (let ij : i ≡ j = ground arith in absurd (omega arith))
  | inr f ↦ elim (Bool-cases (i == x)) [
    | inl q ↦ (let ix : i ≡ x = ground arith in rw (← ix) f)
    | inr q ↦ search_from-first p r (i + 1) x {j = j} (ground arith) (ground arith) lt
  ]
]

pub search_from-here : (p : ℕ → Bool) (r i : ℕ) → p i ≡ true → search_from p (suc r) i ≡ some i
unfolding search_from
search_from-here p r i t = cc t

pub search_from-next :
    (p : ℕ → Bool) (r i : ℕ) → p i ≡ false → search_from p (suc r) i ≡ search_from p r (i + 1)
unfolding search_from
search_from-next p r i f = cc f

-- The first entry that passes is the one found.
pub search_from-at :
    (p : ℕ → Bool) (r i k : ℕ)
    → i ≤ k
    → k < i + r
    → ((j : ℕ) → i ≤ j → j < k → p j ≡ false)
    → p k ≡ true
    → search_from p r i ≡ some k
search_from-at p zero i k le lt before t = absurd (omega arith)
search_from-at p (suc r) i k le lt before t = elim (Bool-cases (i == k)) [
  | inl q ↦ let ik : i ≡ k = ground arith in search_from-here p r i (ap p ik ∙ t) ∙ ap some ik
  | inr q ↦
      search_from-next p r i (before i (omega arith) (ground arith))
      ∙ search_from-at p r (i + 1) k (ground arith) (omega arith) (λ j ge. before j (omega arith)) t
]
