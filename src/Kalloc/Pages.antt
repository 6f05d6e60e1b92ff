-- ===== src/Kalloc/Pages.antt =====
-- The free list as a list of pages.
use model_lib.Base.{
  ℕ, ◌+◌, ◌-◌, ◌%◌, ◌≤◌, ◌<◌, ◌≡◌, ◌≢◌, ◌⊎◌, refl, sym, ap, false≢true, not, ◌||◌, ltb, leb, inl,
  inr, true, false, List, [], ◌∷◌, ◌==◌, arith,
}
use mathlib.Core.Path.{subst}
use model_lib.Base.Outcome.{Returns, returns}
use model_lib.Base.Family.{update, update_self, has, Distinct}
use model_lib.Kalloc.{pgsize, phystop, kernbase, v2p, Kmem, fill, kfree, kalloc}

-- A page that the kernel may give out: aligned, after the kernel and below PHYSTOP.
pub record IsPage (end v : ℕ) : Type 0 where
  pub aligned : v % pgsize ≡ 0
  pub after : end ≤ v
  pub kernel : kernbase ≤ v
  pub low : v < kernbase + phystop

-- The list that starts at `a` is `xs`, and `xs` consists of pages.
abbrev pub Chain : ℕ → (ℕ → ℕ) → ℕ → List ℕ → Type 0
Chain end mem a [] = a ≡ 0
Chain end mem a (x ∷ xs) = (a ≡ x) × IsPage end x × Chain end mem (mem x) xs

-- The free pages, from the head of the list on, each once.
pub record Free (end : ℕ) (k : Kmem) (xs : List ℕ) : Type 0 where
  pub chain : Chain end k.mem k.freelist xs
  pub distinct : Distinct xs

-- What changes in memory outside the pages of the list does not matter to it.
pub Chain-frame :
    (end : ℕ) (mem mem' : ℕ → ℕ) (a : ℕ) (xs : List ℕ)
    → Chain end mem a xs
    → ((x : ℕ) → IsPage end x → has xs x ≡ true → mem' x ≡ mem x)
    → Chain end mem' a xs
unfolding has
Chain-frame end mem mem' a [] c same = c
Chain-frame end mem mem' a (x ∷ xs) (e, page, c) same = (
  e,
  page,
  rw (same x page (ground arith))
      (Chain-frame end mem mem' (mem x) xs c (λ y p h. same y p (ground arith))),
)

pages_apart :
    (end v x : ℕ) (mem : ℕ → ℕ) (w : ℕ)
    → IsPage end v
    → IsPage end x
    → x ≢ v
    → update (fill v mem) v w x ≡ mem x
pages_apart end v x mem w pv px ne =
    let far : (x < v) ⊎ (v + pgsize ≤ x) = omega (arith, pv.aligned, px.aligned) in
    elim far [ inl lt ↦ ground arith | inr le ↦ ground arith ]

-- The checks of `kfree` let a page pass.
page_passes :
    (end v : ℕ) → IsPage end v → (not (v % pgsize == 0) || ltb v end || leb phystop (v2p v)) ≡ false
page_passes end v p =
    let wrap : v2p v ≡ v - kernbase = omega (arith, p.kernel, p.low) in
    ground (arith, p.aligned, p.after, p.kernel, p.low, wrap)

-- `kfree` of a page that is not free returns, and puts the page at the head of the free list.
pub kfree_lem :
    (end v : ℕ) (k : Kmem) (xs : List ℕ)
    → Free end k xs
    → IsPage end v
    → has xs v ≡ false
    → Returns (λ k'. Free end k' (v ∷ xs)) (kfree end v k)
unfolding kfree
kfree_lem end v k xs f page fresh =
    let is_page : (not (v % pgsize == 0) || ltb v end || leb phystop (v2p v)) ≡ false =
      page_passes end v page in
    rw is_page (
      returns _ record {
        chain = (
          refl,
          page,
          rw (update_self (fill v k.mem) v k.freelist) (
              Chain-frame end k.mem (update (fill v k.mem) v k.freelist) k.freelist xs f.chain
                λ x p h.
                  pages_apart end v x k.mem k.freelist page p
                    (λ e. false≢true (ground (arith, e, ap (has xs) e)))),
        );
        distinct = (fresh, f.distinct);
      })

-- `kalloc` gives the first free page and takes it off the list, which it does not contain again. With no
-- free page it gives 0 and changes nothing.
pub kalloc_lem :
    (end : ℕ) (k : Kmem) (xs : List ℕ)
    → Free end k xs
    → ((xs ≡ []) × (kalloc k ≡ (0, k)))
      ⊎ ((ys : List ℕ) × (xs ≡ (kalloc k).0 ∷ ys)
          × IsPage end (kalloc k).0
          × Free end (kalloc k).1 ys)
unfolding kalloc
kalloc_lem end k [] f = inl (refl, ground (arith, f.chain))
kalloc_lem end k (x ∷ xs) f =
    let e = f.chain.0 in
    let page : IsPage end x = f.chain.1 in
    let some_page : (k.freelist == 0) ≡ false = ground (arith, page.kernel, e) in
    rw some_page (
      inr (
        xs,
        ap (λ y. y ∷ xs) (sym e),
        subst (IsPage end) (sym e) page,
        record {
          chain = subst (λ y. Chain end k.mem (k.mem y) xs) (sym e) f.chain.2;
          distinct = f.distinct.1;
        },
      ))
