-- ===== src/Bio/Slots.antt =====
-- How the sector-wise view of the cache changes with one buffer.
use model_lib.Base.{
  ℕ, ◌≡◌, ◌≢◌, sym, ap, ◌∙◌, true, false, none, some, ◌==◌, Option-cases, ◌⊎◌, inl, inr, arith,
  Bool-cases,
}
use mathlib.Core.Path.{fun_ext}
use model_lib.Base.Family.{
  has, update, update_self, update_ne, find-some, find-none, find_unique, find-eq_none,
}
use model_lib.Bio.{Buf, Cache, set_buf, matches}
use model_lib.Bio.Inv.{IsValid, slot, look, look-some, look-none}

pub slot-some :
    (k : Cache) (s i : ℕ)
    → slot k s ≡ some i
    → (has k.order i ≡ true) × ((k.buf i).dev ≡ 1) × ((k.buf i).sector ≡ s)
slot-some k s i e =
    let (m, h) = find-some (matches k.buf 1 s) k.order e in (h, ground arith, ground arith)

pub slot-none :
    (k : Cache) (s i : ℕ)
    → slot k s ≡ none
    → has k.order i ≡ true
    → (k.buf i).dev ≡ 1
    → (k.buf i).sector ≢ s
slot-none k s i e h d q = let n = find-none (matches k.buf 1 s) k.order i e h in ground arith

pub slot-eq :
    (k : Cache) (s i : ℕ)
    → IsValid k
    → has k.order i ≡ true
    → (k.buf i).dev ≡ 1
    → (k.buf i).sector ≡ s
    → slot k s ≡ some i
slot-eq k s i v h d e =
    find_unique (matches k.buf 1 s) k.order i h (ground arith)
      (λ j hj m. v.unique j i hj h (ground arith) d (ground arith))

-- A change to buffer `i` that keeps its device and sector leaves each sector in its buffer.
module _ (k : Cache) (i : ℕ) (b : Buf) (same_dev : b.dev ≡ (k.buf i).dev)
    (same_sector : b.sector ≡ (k.buf i).sector) where
  same_matches : (s : ℕ) → matches (update k.buf i b) 1 s ≡ matches k.buf 1 s
  same_matches s = fun_ext λ j. ground arith

  pub slot-change : (s : ℕ) → slot (set_buf i b k) s ≡ slot k s
  slot-change s = rw (same_matches s)

  -- A view of the buffers changes at its sector only.
  pub look-change {ℓ} :
      {X : Type ℓ} (f : Buf → X) (d : ℕ → X) (s : ℕ)
      → slot k s ≡ some i
      → look f d (set_buf i b k) ≡ update (look f d k) s (f b)
  look-change f d s own = fun_ext λ t. at_sector t (Option-cases (slot k t))
    where
      at_sector :
          (t : ℕ)
          → (slot k t ≡ none) ⊎ ((j : ℕ) × (slot k t ≡ some j))
          → look f d (set_buf i b k) t ≡ update (look f d k) s (f b) t
      at_sector t (inl n) =
          let ne : t ≢ s = λ e. cc (ap (slot k) e) in
          look-none f d (set_buf i b k) t (slot-change t ∙ n)
          ∙ sym (update_ne (look f d k) s t (f b) ne ∙ look-none f d k t n)
      at_sector t (inr (j, e)) = elim (Bool-cases (j == i)) [
        | inl q ↦
            let ji : j ≡ i = ground arith in
            let ts : t ≡ s =
              sym (slot-some k t j e).2 ∙ ap (λ x. (k.buf x).sector) ji ∙ (slot-some k s i own).2 in
            look-some f d (set_buf i b k) t i (slot-change t ∙ e ∙ ap some ji)
            ∙ ap f (update_self k.buf i b)
            ∙ sym (ap (update (look f d k) s (f b)) ts ∙ update_self (look f d k) s (f b))
        | inr q ↦
            let ji : j ≢ i = ground arith in
            let ts : t ≢ s = λ u. ji (cc (ap (slot k) u)) in
            look-some f d (set_buf i b k) t j (slot-change t ∙ e)
            ∙ ap f (update_ne k.buf i j b ji)
            ∙ sym (update_ne (look f d k) s t (f b) ts ∙ look-some f d k t j e)
      ]

-- A free buffer `i` that is given to a sector `s` that was in no buffer.
module _ (k : Cache) (v : IsValid k) (i s : ℕ) (b : Buf) (h : has k.order i ≡ true)
    (miss : slot k s ≡ none) (for_disk : b.dev ≡ 1) (for_sector : b.sector ≡ s) where
  pub slot-recycle_self : slot (set_buf i b k) s ≡ some i
  slot-recycle_self =
      find_unique (matches (update k.buf i b) 1 s) k.order i h (ground arith)
        (λ j hj m. only j hj m)
    where
      only : (j : ℕ) → has k.order j ≡ true → matches (update k.buf i b) 1 s j ≡ true → j ≡ i
      only j hj m = ground (arith, slot-none k s j miss hj)

  pub slot-recycle_ne :
      (t j : ℕ) → t ≢ s → j ≢ i → slot k t ≡ some j → slot (set_buf i b k) t ≡ some j
  slot-recycle_ne t j ne ji e =
      let (hj, dj, sj) = slot-some k t j e in
      find_unique (matches (update k.buf i b) 1 t) k.order j hj (ground arith)
        (λ l hl m. only l hl m hj dj sj)
    where
      only :
          (l : ℕ)
          → has k.order l ≡ true
          → matches (update k.buf i b) 1 t l ≡ true
          → has k.order j ≡ true
          → (k.buf j).dev ≡ 1
          → (k.buf j).sector ≡ t
          → l ≡ j
      only l hl m hj dj sj = ground (arith, v.unique l j hl hj)

  pub slot-recycle_lost :
      (t : ℕ) → t ≢ s → ((j : ℕ) → slot k t ≡ some j → j ≡ i) → slot (set_buf i b k) t ≡ none
  slot-recycle_lost t ne lost =
      find-eq_none (matches (update k.buf i b) 1 t) k.order
        (λ j hj. gone j hj (Bool-cases (matches k.buf 1 t j)))
    where
      gone :
          (j : ℕ)
          → has k.order j ≡ true
          → (matches k.buf 1 t j ≡ true) ⊎ (matches k.buf 1 t j ≡ false)
          → matches (update k.buf i b) 1 t j ≡ false
      gone j hj (inl m) =
          let ji : j ≡ i = lost j (slot-eq k t j v hj (ground arith) (ground arith)) in ground arith
      gone j hj (inr m) = ground arith

  pub look-recycle {ℓ} :
      {X : Type ℓ} (f : Buf → X) (d : ℕ → X)
      → ((t : ℕ) → slot k t ≡ some i → f (k.buf i) ≡ d t)
      → look f d (set_buf i b k) ≡ update (look f d k) s (f b)
  look-recycle f d flushed =
      fun_ext λ t. at_sector t (Bool-cases (t == s)) (Option-cases (slot k t))
    where
      at_sector :
          (t : ℕ)
          → ((t == s) ≡ true) ⊎ ((t == s) ≡ false)
          → (slot k t ≡ none) ⊎ ((j : ℕ) × (slot k t ≡ some j))
          → look f d (set_buf i b k) t ≡ update (look f d k) s (f b) t
      at_sector t (inl q) c =
          let ts : t ≡ s = ground arith in
          look-some f d (set_buf i b k) t i (ap (slot (set_buf i b k)) ts ∙ slot-recycle_self)
          ∙ ap f (update_self k.buf i b)
          ∙ sym (ap (update (look f d k) s (f b)) ts ∙ update_self (look f d k) s (f b))
      at_sector t (inr q) (inl n) =
          let ts : t ≢ s = ground arith in
          look-none f d (set_buf i b k) t (slot-recycle_lost t ts (λ j e. cc))
          ∙ sym (update_ne (look f d k) s t (f b) ts ∙ look-none f d k t n)
      at_sector t (inr q) (inr (j, e)) = elim (Bool-cases (j == i)) [
        | inl ji ↦
            let ts : t ≢ s = ground arith in
            let ji' : j ≡ i = ground arith in
            let e' : slot k t ≡ some i = e ∙ ap some ji' in
            look-none f d (set_buf i b k) t (slot-recycle_lost t ts (λ l el. cc))
            ∙ sym (update_ne (look f d k) s t (f b) ts ∙ look-some f d k t i e' ∙ flushed t e')
        | inr ji ↦
            let ts : t ≢ s = ground arith in
            let ji' : j ≢ i = ground arith in
            look-some f d (set_buf i b k) t j (slot-recycle_ne t j ts ji' e)
            ∙ ap f (update_ne k.buf i j b ji')
            ∙ sym (update_ne (look f d k) s t (f b) ts ∙ look-some f d k t j e)
      ]
