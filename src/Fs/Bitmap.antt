-- ===== src/Fs/Bitmap.antt =====
-- The bits of a block, one by one.
use model_lib.Base.{
  ℕ, zero, suc, ◌+◌, ◌*◌, ◌/◌, ◌%◌, ◌≡◌, ◌≢◌, sym, ap, ◌∙◌, inl, inr, false, not, ◌&&◌, ◌||◌, ◌==◌,
  Bool-cases, arith,
}
use model_lib.Base.Family.{update, update_self, update_ne}
use model_lib.Bio.{Block}
use model_lib.Fs.{bit, or_bit, and_not, has_bit, set_bit, clear_bit}

bit-or_bit : (x k j : ℕ) → bit (or_bit x k) j ≡ (j == k || bit x j)
unfolding bit or_bit
bit-or_bit x zero zero = let e : (x / 2 * 2 + 1) % 2 ≡ 1 = omega arith in ground arith
bit-or_bit x zero (suc j) =
    let e : (x / 2 * 2 + 1) / 2 ≡ x / 2 = omega arith in ap (λ y. bit y j) e ∙ ground arith
bit-or_bit x (suc k) zero =
    let e : (or_bit (x / 2) k * 2 + x % 2) % 2 ≡ x % 2 = omega arith in
    ap (λ y. y == 1) e ∙ ground arith
bit-or_bit x (suc k) (suc j) =
    let e : (or_bit (x / 2) k * 2 + x % 2) / 2 ≡ or_bit (x / 2) k = omega arith in
    ap (λ y. bit y j) e ∙ bit-or_bit (x / 2) k j ∙ ground arith

bit-and_not : (x k j : ℕ) → bit (and_not x k) j ≡ (not (j == k) && bit x j)
unfolding bit and_not
bit-and_not x zero zero = let e : (x / 2 * 2) % 2 ≡ 0 = omega arith in ground arith
bit-and_not x zero (suc j) =
    let e : (x / 2 * 2) / 2 ≡ x / 2 = omega arith in ap (λ y. bit y j) e ∙ ground arith
bit-and_not x (suc k) zero =
    let e : (and_not (x / 2) k * 2 + x % 2) % 2 ≡ x % 2 = omega arith in
    ap (λ y. y == 1) e ∙ ground arith
bit-and_not x (suc k) (suc j) =
    let e : (and_not (x / 2) k * 2 + x % 2) / 2 ≡ and_not (x / 2) k = omega arith in
    ap (λ y. bit y j) e ∙ bit-and_not (x / 2) k j ∙ ground arith

pub has_bit-set_bit :
    (bi : ℕ) (b : Block) (x : ℕ) → has_bit (set_bit bi b) x ≡ (x == bi || has_bit b x)
unfolding has_bit set_bit
has_bit-set_bit bi b x = elim (Bool-cases (x / 8 == bi / 8)) [
  | inl q ↦
      let same : x / 8 ≡ bi / 8 = ground arith in
      let place : (x % 8 == bi % 8) ≡ (x == bi) = ground arith in
      ap (λ y. bit y (x % 8))
        (ap (update b (bi / 8) (or_bit (b (bi / 8)) (bi % 8))) same
          ∙ update_self b (bi / 8) (or_bit (b (bi / 8)) (bi % 8)))
      ∙ bit-or_bit (b (bi / 8)) (bi % 8) (x % 8)
      ∙ ap (λ t. t || bit (b (bi / 8)) (x % 8)) place
      ∙ ap (λ y. x == bi || bit (b y) (x % 8)) (sym same)
  | inr q ↦
      let ne : x / 8 ≢ bi / 8 = ground arith in
      let far : (x == bi) ≡ false = ground arith in
      ap (λ y. bit y (x % 8)) (update_ne b (bi / 8) (x / 8) (or_bit (b (bi / 8)) (bi % 8)) ne)
      ∙ ap (λ t. t || bit (b (x / 8)) (x % 8)) (sym far)
]

pub has_bit-clear_bit :
    (bi : ℕ) (b : Block) (x : ℕ) → has_bit (clear_bit bi b) x ≡ (not (x == bi) && has_bit b x)
unfolding has_bit clear_bit
has_bit-clear_bit bi b x = elim (Bool-cases (x / 8 == bi / 8)) [
  | inl q ↦
      let same : x / 8 ≡ bi / 8 = ground arith in
      let place : (x % 8 == bi % 8) ≡ (x == bi) = ground arith in
      ap (λ y. bit y (x % 8))
        (ap (update b (bi / 8) (and_not (b (bi / 8)) (bi % 8))) same
          ∙ update_self b (bi / 8) (and_not (b (bi / 8)) (bi % 8)))
      ∙ bit-and_not (b (bi / 8)) (bi % 8) (x % 8)
      ∙ ap (λ t. not t && bit (b (bi / 8)) (x % 8)) place
      ∙ ap (λ y. not (x == bi) && bit (b y) (x % 8)) (sym same)
  | inr q ↦
      let ne : x / 8 ≢ bi / 8 = ground arith in
      let far : (x == bi) ≡ false = ground arith in
      ap (λ y. bit y (x % 8)) (update_ne b (bi / 8) (x / 8) (and_not (b (bi / 8)) (bi % 8)) ne)
      ∙ ap (λ t. not t && bit (b (x / 8)) (x % 8)) (sym far)
]
