-- ===== src/Kalloc/Owners.antt =====
-- The kernel and its pages: every step that a kernel takes that frees and writes only what it owns.
use model_lib.Base.{
  ℕ, ◌+◌, ◌≤◌, ◌<◌, ◌≡◌, ◌≢◌, sym, ap, ◌∙◌, inl, inr, true, false, false≢true, List, ◌∷◌, ◌==◌,
  Bool-cases, arith,
}
use mathlib.Core.Path.{subst}
use model_lib.Base.Outcome.{ok, Returns-at}
use model_lib.Base.Family.{
  update, update_ne, has, Distinct, erase, erase-Distinct, has-erase_ne, has-erase_self,
}
use model_lib.Kalloc.{pgsize, Kmem, kfree, kalloc}
use model_lib.Kalloc.Pages.{IsPage, Free, Chain-frame, kfree_lem, kalloc_lem}

-- A step of a kernel that owns the pages `own`: it asks for a page and gets one or none, gives back
-- one that it owns, or writes a word of one that it owns.
pub data Step (end : ℕ) : List ℕ → Kmem → List ℕ → Kmem → Type 0 where
  alloc :
      {own : List ℕ} {k : Kmem}
      → (kalloc k).0 ≢ 0
      → Step end own k ((kalloc k).0 ∷ own) (kalloc k).1
  exhausted : {own : List ℕ} {k : Kmem} → (kalloc k).0 ≡ 0 → Step end own k own (kalloc k).1
  free :
      {own : List ℕ} {k k' : Kmem} (v : ℕ)
      → has own v ≡ true
      → kfree end v k ≡ ok k'
      → Step end own k (erase v own) k'
  store :
      {own : List ℕ} {k : Kmem} (v a w : ℕ)
      → has own v ≡ true
      → v ≤ a
      → a < v + pgsize
      → Step end own k own (record k { mem = update k.mem a w })

-- The owned pages and the free ones are pages, all different.
pub record Apart (end : ℕ) (own : List ℕ) (k : Kmem) : Type 0 where
  pub pages : List ℕ
  pub free : Free end k pages
  pub owned : (x : ℕ) → has own x ≡ true → IsPage end x
  pub apart : (x : ℕ) → has own x ≡ true → has pages x ≡ false
  pub distinct : Distinct own

alloc-Apart :
    (end : ℕ) (own : List ℕ) (k : Kmem)
    → Apart end own k
    → (kalloc k).0 ≢ 0
    → Apart end ((kalloc k).0 ∷ own) (kalloc k).1
unfolding has
alloc-Apart end own k i ne = elim (kalloc_lem end k i.pages i.free) [
  | inl (_, e) ↦ absurd (ne (ap (λ r. r.0) e))
  | inr (ys, e, page, rest) ↦
      let once : Distinct ((kalloc k).0 ∷ ys) = subst Distinct e i.free.distinct in
      let was : (x : ℕ) → has own x ≡ true → has ((kalloc k).0 ∷ ys) x ≡ false =
        λ x h. subst (λ zs. has zs x ≡ false) e (i.apart x h) in
      record {
        pages = ys;
        free = rest;
        owned = λ x h. elim (Bool-cases (x == (kalloc k).0)) [
          | inl q ↦ (let x_eq : (kalloc k).0 ≡ x = ground arith in subst (IsPage end) x_eq page)
          | inr q ↦ i.owned x (ground arith)
        ];
        apart = λ x h. elim (Bool-cases (x == (kalloc k).0)) [
          | inl q ↦
              let x_eq : (kalloc k).0 ≡ x = ground arith in
              subst (λ y. has ys y ≡ false) x_eq once.0
          | inr q ↦ ground (arith, was x (ground arith))
        ];
        distinct = (
          elim (Bool-cases (has own (kalloc k).0)) [
            | inl h ↦ ground (arith, was (kalloc k).0 h)
            | inr h ↦ h
          ],
          i.distinct,
        );
      }
]

store-Apart :
    (end : ℕ) (own : List ℕ) (k : Kmem) (v a w : ℕ)
    → Apart end own k
    → has own v ≡ true
    → v ≤ a
    → a < v + pgsize
    → Apart end own (record k { mem = update k.mem a w })
store-Apart end own k v a w i h le lt = record {
  pages = i.pages;
  free = record {
    chain = Chain-frame end k.mem (update k.mem a w) k.freelist i.pages i.free.chain λ x page hx.
        update_ne k.mem a x w λ e.
          let pv = i.owned v h in
          let x_eq : x ≡ v = omega (arith, e, pv.aligned, page.aligned) in
          false≢true (sym (i.apart v h) ∙ ap (has i.pages) (sym x_eq) ∙ hx);
    distinct = i.free.distinct;
  };
  owned = i.owned;
  apart = i.apart;
  distinct = i.distinct;
}

free-Apart :
    (end : ℕ) (own : List ℕ) (k k' : Kmem) (v : ℕ)
    → Apart end own k
    → has own v ≡ true
    → kfree end v k ≡ ok k'
    → Apart end (erase v own) k'
unfolding has
free-Apart end own k k' v i h e =
    let other : (x : ℕ) → has (erase v own) x ≡ true → x ≢ v = λ x hx x_eq.
      false≢true (sym (has-erase_self v own i.distinct) ∙ ap (has (erase v own)) (sym x_eq) ∙ hx) in
    let was : (x : ℕ) → has (erase v own) x ≡ true → has own x ≡ true =
      λ x hx. sym (has-erase_ne v x own (other x hx)) ∙ hx in
    record {
      pages = v ∷ i.pages;
      free = Returns-at (kfree_lem end v k i.pages i.free (i.owned v h) (i.apart v h)) e;
      owned = λ x hx. i.owned x (was x hx);
      apart = λ x hx. ground (arith, other x hx, i.apart x (was x hx));
      distinct = erase-Distinct v own i.distinct;
    }

-- Every step keeps the owned pages and the free ones pages, all different: `kalloc` never gives out
-- a page that is owned, and neither `kfree` nor a write to an owned page harms the free list.
pub Step-Apart :
    (end : ℕ) {own : List ℕ} {k : Kmem} {own' : List ℕ} {k' : Kmem}
    → Step end own k own' k'
    → Apart end own k
    → Apart end own' k'
Step-Apart end {own} {k} (alloc ne) i = alloc-Apart end own k i ne
Step-Apart end {own} {k} (exhausted e) i = elim (kalloc_lem end k i.pages i.free) [
  | inl (_, same) ↦ subst (Apart end own) (sym (ap (λ r. r.1) same)) i
  | inr (_, _, page, _) ↦ absurd (omega (arith, e, page.kernel))
]
Step-Apart end {own} {k} {k'} (free v h e) i = free-Apart end own k k' v i h e
Step-Apart end {own} {k} (store v a w h le lt) i = store-Apart end own k v a w i h le lt
