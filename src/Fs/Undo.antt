-- ===== src/Fs/Undo.antt =====
-- balloc and bfree after one another.
use model_lib.Base.{
  ℕ, suc, ◌%◌, ◌<◌, ◌≡◌, ◌≢◌, refl, sym, ap, ◌∙◌, inl, inr, true, false, false≢true, not, ◌&&◌,
  ◌||◌, ◌==◌, Bool-cases, arith,
}
use mathlib.Core.Path.{subst}
use model_lib.Base.Outcome.{◌>>=◌, Returns, Returns-bind, Returns-mono}
use model_lib.Base.Family.{update, update_self, update_ne}
use model_lib.Base.Words.{word_at}
use model_lib.Bio.{Block}
use model_lib.Fs.Store.{BlockStore}
use model_lib.Fs.{bpb, bblock, has_bit, set_bit, clear_bit, balloc, bfree}
use model_lib.Fs.Bitmap.{has_bit-set_bit, has_bit-clear_bit}
use model_lib.Fs.Alloc.{super, in_use, balloc_lem, bfree_lem}

module _ (v : ℕ → Block) (ninodes b : ℕ) (free : in_use v ninodes b ≡ false) where
  abbrev taken : ℕ → Block
  taken = update (update v (bblock b ninodes) (set_bit (b % bpb) (v (bblock b ninodes)))) b (λ o. 0)

  abbrev given_back : ℕ → Block
  given_back = update taken (bblock b ninodes) (clear_bit (b % bpb) (taken (bblock b ninodes)))

  differs : (x : ℕ) → in_use v ninodes x ≡ true → x ≢ b
  differs x used e = false≢true (sym free ∙ ap (in_use v ninodes) (sym e) ∙ used)

  taken_map :
      bblock b ninodes ≢ b → taken (bblock b ninodes) ≡ set_bit (b % bpb) (v (bblock b ninodes))
  taken_map ne =
      update_ne (update v (bblock b ninodes) (set_bit (b % bpb) (v (bblock b ninodes)))) b
        (bblock b ninodes) (λ o. 0) ne
      ∙ update_self v (bblock b ninodes) (set_bit (b % bpb) (v (bblock b ninodes)))

  taken_other : (t : ℕ) → t ≢ b → t ≢ bblock b ninodes → taken t ≡ v t
  taken_other t far away =
      update_ne (update v (bblock b ninodes) (set_bit (b % bpb) (v (bblock b ninodes)))) b t
        (λ o. 0) far
      ∙ update_ne v (bblock b ninodes) t (set_bit (b % bpb) (v (bblock b ninodes))) away

  taken_used : bblock b ninodes ≢ b → in_use taken ninodes b ≡ true
  taken_used ne =
      ap (λ d. has_bit d (b % bpb)) (taken_map ne)
      ∙ has_bit-set_bit (b % bpb) (v (bblock b ninodes)) (b % bpb)
      ∙ ground arith

  undone :
      (x : ℕ)
      → bblock b ninodes ≢ b
      → bblock x ninodes ≢ b
      → in_use given_back ninodes x ≡ in_use v ninodes x
  undone x ne far = elim (Bool-cases (bblock x ninodes == bblock b ninodes)) [
    | inl q ↦
        let a = bblock b ninodes in
        let e : bblock x ninodes ≡ a = ground arith in
        ap (λ t. has_bit (given_back t) (x % bpb)) e
        ∙ ap (λ d. has_bit d (x % bpb))
            (update_self taken a (clear_bit (b % bpb) (taken a))
              ∙ ap (clear_bit (b % bpb)) (taken_map ne))
        ∙ has_bit-clear_bit (b % bpb) (set_bit (b % bpb) (v a)) (x % bpb)
        ∙ ap (λ t. not (x % bpb == b % bpb) && t) (has_bit-set_bit (b % bpb) (v a) (x % bpb))
        ∙ bits (x % bpb) (b % bpb) (v a) free
        ∙ ap (λ t. has_bit (v t) (x % bpb)) (sym e)
    | inr q ↦
        let away : bblock x ninodes ≢ bblock b ninodes = ground arith in
        ap (λ d. has_bit d (x % bpb))
          (update_ne taken (bblock b ninodes) (bblock x ninodes)
              (clear_bit (b % bpb) (taken (bblock b ninodes))) away
            ∙ taken_other (bblock x ninodes) far away)
  ]
    where
      bits :
          (i j : ℕ) (d : Block)
          → has_bit d j ≡ false
          → (not (i == j) && (i == j || has_bit d i)) ≡ has_bit d i
      bits i j d h = elim (Bool-cases (i == j)) [
        | inl q ↦ (let e : j ≡ i = ground arith in rw q (sym (ap (has_bit d) (sym e) ∙ h)))
        | inr q ↦ rw q refl
      ]

module _ {S : Type 0} (bs : BlockStore S) where
  -- In a transaction with room for three updates, on a disk whose bitmap lies before the log and with a
  -- free block there, freeing the block that `balloc` has just returned makes exactly the blocks in use that were before.
  -- The bitmap's own blocks and the superblock are marked as in use.
  pub balloc-bfree :
      (n : ℕ) (v : ℕ → Block) (s : S) (b₀ : ℕ)
      → bs.Holds (suc (suc (suc n))) v s
      → 1 < bs.limit
      → b₀ < (super v).size
      → b₀ < bs.limit
      → in_use v (super v).ninodes b₀ ≡ false
      → ((b : ℕ) → b < (super v).size → bblock b (super v).ninodes < bs.limit)
      → in_use v (super v).ninodes 1 ≡ true
      → ((b : ℕ)
          → b < (super v).size
          → in_use v (super v).ninodes (bblock b (super v).ninodes) ≡ true)
      → Returns
          (λ s'.
            (w : ℕ → Block) × bs.Holds n w s'
            × ((x : ℕ)
                → x < (super v).size
                → in_use w (super v).ninodes x ≡ in_use v (super v).ninodes x))
          (do (b, s₁) ← balloc bs 1 s; bfree bs 1 b s₁)
  balloc-bfree n v s b₀ h one inside below free layout super_used map_used =
      Returns-bind _ (balloc_lem bs (suc n) v s b₀ h one inside below free layout) λ (b, s₁) got.
        let ninodes = (super v).ninodes in
        let v₁ = taken v ninodes b got.was_free in
        let ne : bblock b ninodes ≢ b =
          differs v ninodes b got.was_free (bblock b ninodes) (map_used b got.inside) in
        let super_eq : v₁ 1 ≡ v 1 =
          taken_other v ninodes b got.was_free 1 (differs v ninodes b got.was_free 1 super_used)
            (omega arith) in
        let ninodes_eq : (super v₁).ninodes ≡ ninodes = ap (λ d. word_at d 2) super_eq in
        Returns-mono
          (bfree_lem bs n v₁ s₁ b got.holds one
            (subst (λ m. bblock b m < bs.limit) (sym ninodes_eq) (layout b got.inside))
            (ap (λ m. in_use v₁ m b) ninodes_eq ∙ taken_used v ninodes b got.was_free ne))
          λ s' h'. (
            given_back v ninodes b got.was_free,
            subst
                (λ m.
                  bs.Holds n (update v₁ (bblock b m) (clear_bit (b % bpb) (v₁ (bblock b m)))) s')
                ninodes_eq h',
            λ x lt.
                undone v ninodes b got.was_free x ne
                  (differs v ninodes b got.was_free (bblock x ninodes) (map_used x lt)),
          )
