-- ===== src/Fs/Alloc.antt =====
-- balloc and bfree against the set of the blocks in use.
use model_lib.Base.{
  ℕ, zero, suc, ◌+◌, ◌-◌, ◌*◌, ◌/◌, ◌%◌, ◌≤◌, ◌<◌, ◌≡◌, refl, sym, ap, ◌∙◌, inl, inr, Bool, true,
  false, false≢true, not, none, some, Option-cases, leb, if◌then◌else◌, Bool-cases, arith,
}
use mathlib.Core.Path.{subst}
use model_lib.Base.Outcome.{
  Outcome, ok, ◌>>=◌, ◌>>◌, check, bfree_free_block, Returns, returns, Returns-bind,
}
use model_lib.Base.Family.{update}
use model_lib.Base.Search.{search_from-some, search_from-none, search_from-first}
use model_lib.Base.Words.{word_at}
use model_lib.Bio.{Block}
use model_lib.Log.{Superblock}
use model_lib.Fs.Store.{BlockStore}
use model_lib.Fs.{
  bpb, bblock, has_bit, set_bit, clear_bit, bits_from, scan, marked, readsb, bzero, take_block,
  balloc_from, balloc, bfree,
}

-- The superblock that the blocks hold.
abbrev pub super : (ℕ → Block) → Superblock
super v = record {
  size = word_at (v 1) 0;
  nblocks = word_at (v 1) 1;
  ninodes = word_at (v 1) 2;
  nlog = word_at (v 1) 3;
}

-- Is block `b` marked as in use?
abbrev pub in_use : (ℕ → Block) → ℕ → ℕ → Bool
in_use v ninodes b = has_bit (v (bblock b ninodes)) (b % bpb)

bits_from_lem : (b size x : ℕ) → x < bpb → b + x < size → x < bits_from b size
unfolding bits_from
bits_from_lem b size x lt le = ground arith

bits_from_end : (b size x : ℕ) → x < bits_from b size → (x < bpb) × (b + x < size)
unfolding bits_from
bits_from_end b size x lt = elim (Bool-cases (leb (b + bpb) size)) [
  | inl q ↦ (ground arith, ground arith)
  | inr q ↦ (ground arith, ground arith)
]

-- The block that a round finds, and that a round finds none only if all are in use.
module _ (v : ℕ → Block) (ninodes size q : ℕ) where
  same_block :
      (y : ℕ) → y < bpb → in_use v ninodes (q * bpb + y) ≡ has_bit (v (bblock (q * bpb) ninodes)) y
  same_block y lt =
      let b_eq : (q * bpb + y) / bpb ≡ q * bpb / bpb = omega arith in
      let bit_eq : (q * bpb + y) % bpb ≡ y = omega arith in
      ap (λ x. has_bit (v (x + ninodes / 4 + 3)) ((q * bpb + y) % bpb)) b_eq
      ∙ ap (has_bit (v (bblock (q * bpb) ninodes))) bit_eq

  scan-some :
      {bi : ℕ}
      → scan (q * bpb) size (v (bblock (q * bpb) ninodes)) ≡ some bi
      → (bi < bpb)
        × (q * bpb + bi < size)
        × (in_use v ninodes (q * bpb + bi) ≡ false)
        × ((x : ℕ) → q * bpb ≤ x → x < q * bpb + bi → in_use v ninodes x ≡ true)
  unfolding scan
  scan-some {bi} e =
      let block = v (bblock (q * bpb) ninodes) in
      let test = λ (bi : ℕ). not (has_bit block bi) in
      let (free, _, lt) = search_from-some test (bits_from (q * bpb) size) 0 {j = bi} e in
      let (small, inside) = bits_from_end (q * bpb) size bi (omega arith) in
      (
        small,
        inside,
        same_block bi small ∙ ground arith,
        λ x le x_lt.
            let y = x - q * bpb in
            let x_eq : q * bpb + y ≡ x = omega arith in
            let busy : test y ≡ false =
              search_from-first test (bits_from (q * bpb) size) 0 y {j = bi} e (omega arith)
                (omega arith) in
            ap (in_use v ninodes) (sym x_eq) ∙ same_block y (omega arith) ∙ ground arith,
      )

  scan-none :
      scan (q * bpb) size (v (bblock (q * bpb) ninodes)) ≡ none
      → (x : ℕ) → q * bpb ≤ x
      → x < q * bpb + bpb
      → x < size
      → in_use v ninodes x ≡ true
  unfolding scan
  scan-none e x le x_lt inside =
      let test = λ (bi : ℕ). not (has_bit (v (bblock (q * bpb) ninodes)) bi) in
      let y = x - q * bpb in
      let x_eq : q * bpb + y ≡ x = omega arith in
      let in_scan : y < bits_from (q * bpb) size =
        bits_from_lem (q * bpb) size y (omega arith) (omega arith) in
      let busy : test y ≡ false =
        search_from-none test (bits_from (q * bpb) size) 0 y e (omega arith) (omega arith) in
      ap (in_use v ninodes) (sym x_eq) ∙ same_block y (omega arith) ∙ ground arith

module _ {S : Type 0} (bs : BlockStore S) where
  pub bzero_lem :
      (n : ℕ) (v : ℕ → Block) (s : S) (t : ℕ)
      → bs.Holds (suc n) v s
      → t < bs.limit
      → Returns (λ s'. bs.Holds n (update v t (λ o. 0)) s') (bzero bs 1 t s)
  unfolding bzero
  bzero_lem n v s t h lt =
      Returns-bind _
        (bs.visit_write {n = n} {v = v} {s = s} t (λ d. some (λ o. 0)) (λ o. 0) h lt refl)
        λ r (_, h'). returns _ h'

  pub readsb_lem :
      (n : ℕ) (v : ℕ → Block) (s : S)
      → bs.Holds n v s
      → 1 < bs.limit
      → Returns (λ (r : Superblock × S). (r.0 ≡ super v) × bs.Holds n v r.1) (readsb bs 1 s)
  unfolding readsb
  readsb_lem n v s h lt =
      Returns-bind _ (bs.visit_read {n = n} {v = v} {s = s} 1 (λ d. none) h lt refl)
        λ r (same, h'). returns _ (ap superblock same, h')
    where
      superblock : Block → Superblock
      superblock b = record {
        size = word_at b 0;
        nblocks = word_at b 1;
        ninodes = word_at b 2;
        nlog = word_at b 3;
      }

  -- Block `r.0`, the first that is not in use, is marked and zeroed; all else is as before.
  pub record Allocated (n size ninodes : ℕ) (v : ℕ → Block) (r : ℕ × S) : Type 0 where
    pub inside : r.0 < size
    pub below : r.0 < bs.limit
    pub was_free : in_use v ninodes r.0 ≡ false
    pub first : (x : ℕ) → x < r.0 → in_use v ninodes x ≡ true
    pub holds :
        bs.Holds n
          (update
            (update v (bblock r.0 ninodes) (set_bit (r.0 % bpb) (v (bblock r.0 ninodes))))
            r.0
            (λ o. 0))
          r.1

  module _ (n : ℕ) (v : ℕ → Block) (sb : Superblock) (b₀ : ℕ) (inside : b₀ < sb.size)
      (below : b₀ < bs.limit) (free : in_use v sb.ninodes b₀ ≡ false)
      (layout : (b : ℕ) → b < sb.size → bblock b sb.ninodes < bs.limit) where
    found_round :
        (q bi : ℕ) (s : S) (next : S → Outcome (ℕ × S))
        → ((x : ℕ) → x < q * bpb → x < sb.size → in_use v sb.ninodes x ≡ true)
        → scan (q * bpb) sb.size (v (bblock (q * bpb) sb.ninodes)) ≡ some bi
        → bs.Holds
            (suc n)
            (update v (bblock (q * bpb) sb.ninodes) (set_bit bi (v (bblock (q * bpb) sb.ninodes))))
            s
        → Returns (Allocated n sb.size sb.ninodes v) (take_block bs 1 (q * bpb) next (some bi) s)
    unfolding take_block
    found_round q bi s next before e h =
        let (small, fits, was, first) = scan-some v sb.ninodes sb.size q {bi = bi} e in
        let b = q * bpb + bi in
        let all : (x : ℕ) → x < b → in_use v sb.ninodes x ≡ true = (λ x lt.
          elim (Bool-cases (leb (q * bpb) x)) [
            | inl le ↦ first x (ground arith) lt
            | inr gt ↦ before x (ground arith) (omega arith)
          ]) in
        let low : b ≤ b₀ = elim (Bool-cases (leb b b₀)) [
          | inl le ↦ ground arith
          | inr gt ↦ absurd (false≢true (sym free ∙ all b₀ (ground arith)))
        ] in
        let block_eq : q * bpb / bpb ≡ b / bpb = omega arith in
        let bit_eq : b % bpb ≡ bi = omega arith in
        let old =
          update v (bblock (q * bpb) sb.ninodes) (set_bit bi (v (bblock (q * bpb) sb.ninodes))) in
        let new = update v (bblock b sb.ninodes) (set_bit (b % bpb) (v (bblock b sb.ninodes))) in
        let same : old ≡ new =
          ap (λ x. update v (x + sb.ninodes / 4 + 3) (set_bit bi (v (x + sb.ninodes / 4 + 3))))
            block_eq
          ∙ ap (λ x. update v (bblock b sb.ninodes) (set_bit x (v (bblock b sb.ninodes))))
              (sym bit_eq) in
        Returns-bind _ (bzero_lem n old s b h (omega arith)) λ s' h'. returns _ record {
          inside = fits;
          below = omega arith;
          was_free = was;
          first = all;
          holds = subst (λ w. bs.Holds n (update w b (λ o. 0)) s') same h';
        }

    balloc_from_lem :
        (r q : ℕ) (s : S)
        → bs.Holds (suc (suc n)) v s
        → ((x : ℕ) → x < q * bpb → x < sb.size → in_use v sb.ninodes x ≡ true)
        → b₀ < q * bpb + r * bpb
        → Returns (Allocated n sb.size sb.ninodes v) (balloc_from bs r (q * bpb) 1 sb s)
    unfolding balloc_from
    balloc_from_lem zero q s h before lt =
        absurd (false≢true (sym free ∙ before b₀ (omega arith) inside))
    balloc_from_lem (suc r) q s h before lt =
        let a = bblock (q * bpb) sb.ninodes in
        let ahead : q * bpb ≤ b₀ = elim (Bool-cases (leb (q * bpb) b₀)) [
          | inl le ↦ ground arith
          | inr gt ↦ absurd (false≢true (sym free ∙ before b₀ (ground arith) inside))
        ] in
        let a_lt : a < bs.limit = layout (q * bpb) (omega arith) in
        let f = λ (d : Block). marked (scan (q * bpb) sb.size d) d in
        elim (Option-cases (scan (q * bpb) sb.size (v a))) [
          | inr (bi, e) ↦
              Returns-bind _
                (bs.visit_write {n = suc n} {v = v} {s = s} a f (set_bit bi (v a)) h a_lt
                  (ap (λ o. marked o (v a)) e))
                λ (block, s₁) (same, h₁).
                  subst
                    (λ o.
                      Returns (Allocated n sb.size sb.ninodes v)
                        (take_block bs 1 (q * bpb) (balloc_from bs r (q * bpb + bpb) 1 sb) o s₁))
                    (sym (ap (scan (q * bpb) sb.size) same ∙ e))
                    (found_round q bi s₁ (balloc_from bs r (q * bpb + bpb) 1 sb) before e h₁)
          | inl e ↦
              let next : q * bpb + bpb ≡ suc q * bpb = omega arith in
              let busy : (x : ℕ) → x < suc q * bpb → x < sb.size → in_use v sb.ninodes x ≡ true =
                (λ x x_lt x_in. elim (Bool-cases (leb (q * bpb) x)) [
                  | inl le ↦ scan-none v sb.ninodes sb.size q e x (ground arith) (omega arith) x_in
                  | inr gt ↦ before x (ground arith) x_in
                ]) in
              Returns-bind _
                (bs.visit_read {n = suc (suc n)} {v = v} {s = s} a f h a_lt
                  (ap (λ o. marked o (v a)) e))
                λ (block, s₁) (same, h₁).
                  subst
                    (λ o.
                      Returns (Allocated n sb.size sb.ninodes v)
                        (take_block bs 1 (q * bpb) (balloc_from bs r (q * bpb + bpb) 1 sb) o s₁))
                    (sym (ap (scan (q * bpb) sb.size) same ∙ e))
                    (subst
                      (λ x. Returns (Allocated n sb.size sb.ninodes v) (balloc_from bs r x 1 sb s₁))
                      (sym next) (balloc_from_lem r (suc q) s₁ h₁ busy (omega arith)))
        ]

  -- In a transaction with room for two updates, on a disk whose bitmap lies before the log and with a
  -- free block there, `balloc` returns the first free block. It has marked that block as in use, zeroed
  -- it, and changed nothing else.
  pub balloc_lem :
      (n : ℕ) (v : ℕ → Block) (s : S) (b₀ : ℕ)
      → bs.Holds (suc (suc n)) v s
      → 1 < bs.limit
      → b₀ < (super v).size
      → b₀ < bs.limit
      → in_use v (super v).ninodes b₀ ≡ false
      → ((b : ℕ) → b < (super v).size → bblock b (super v).ninodes < bs.limit)
      → Returns (Allocated n (super v).size (super v).ninodes v) (balloc bs 1 s)
  unfolding balloc
  balloc_lem n v s b₀ h one inside below free layout =
      Returns-bind _ (readsb_lem (suc (suc n)) v s h one) λ (sb, s₁) (e, h₁).
        subst
          (λ (x : Superblock).
            Returns (Allocated n (super v).size (super v).ninodes v)
              (balloc_from bs ((x.size + bpb - 1) / bpb) 0 1 x s₁))
          (sym e)
          (balloc_from_lem n v (super v) b₀ inside below free layout
            (((super v).size + bpb - 1) / bpb) 0 s₁ h₁ (λ x lt. absurd (omega arith)) (omega arith))

  -- In a transaction with room for one more update, on a disk whose bitmap lies before the log,
  -- `bfree` of a block in use returns. It has cleared the block's bit and changed nothing else.
  pub bfree_lem :
      (n : ℕ) (v : ℕ → Block) (s : S) (b : ℕ)
      → bs.Holds (suc n) v s
      → 1 < bs.limit
      → bblock b (super v).ninodes < bs.limit
      → in_use v (super v).ninodes b ≡ true
      → Returns
          (λ s'.
            bs.Holds n
              (update v
                (bblock b (super v).ninodes)
                (clear_bit (b % bpb) (v (bblock b (super v).ninodes))))
              s')
          (bfree bs 1 b s)
  unfolding bfree
  bfree_lem n v s b h one a_lt used =
      let a = bblock b (super v).ninodes in
      let f = λ (d : Block). if has_bit d (b % bpb) then some (clear_bit (b % bpb) d) else none in
      Returns-bind _ (readsb_lem (suc n) v s h one) λ (sb, s₁) (e, h₁).
        subst
          (λ (x : Superblock).
            Returns (λ s'. bs.Holds n (update v a (clear_bit (b % bpb) (v a))) s')
              (bs.visit 1 (bblock b x.ninodes) f s₁ >>= λ (block, s₂).
                check (has_bit block (b % bpb)) bfree_free_block >> ok s₂))
          (sym e)
          (Returns-bind _
            (bs.visit_write {n = n} {v = v} {s = s₁} a f (clear_bit (b % bpb) (v a)) h₁ a_lt
              (rw used refl))
            λ (block, s₂) (same, h₂).
              let yes_bit : has_bit block (b % bpb) ≡ true =
                ap (λ d. has_bit d (b % bpb)) same ∙ used in
              rw yes_bit (returns _ h₂))
