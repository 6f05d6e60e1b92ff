-- ===== src/Kalloc/Start.antt =====
-- The pages that the allocator starts with.
use model_lib.Base.{
  ℕ, zero, suc, ◌+◌, ◌-◌, ◌*◌, ◌/◌, ◌%◌, ◌≤◌, ◌<◌, ◌≡◌, inl, inr, true, false, false≢true, List, [],
  ◌∷◌, ◌==◌, Bool-cases, arith,
}
use model_lib.Base.Outcome.{Returns, returns, Returns-bind}
use model_lib.Base.Family.{has}
use model_lib.Kalloc.{pgsize, phystop, kernbase, Kmem, pground_up, free_from, freerange}
use model_lib.Kalloc.Pages.{IsPage, Free, kfree_lem}

-- The `r` pages from `p` on, in front of `xs`.
unfoldable pub pages : ℕ → ℕ → List ℕ → List ℕ
pages zero p xs = xs
pages (suc r) p xs = pages r (p + pgsize) (p ∷ xs)

free_from_lem :
    (end r p : ℕ) (k : Kmem) (xs : List ℕ)
    → Free end k xs
    → p % pgsize ≡ 0
    → end ≤ p
    → kernbase ≤ p
    → p + pgsize * r ≤ kernbase + phystop
    → ((x : ℕ) → has xs x ≡ true → x < p)
    → Returns (λ k'. Free end k' (pages r p xs)) (free_from end r p k)
unfolding free_from pages has
free_from_lem end zero p k xs f aligned after kernel low below = returns k f
free_from_lem end (suc r) p k xs f aligned after kernel low below =
    let page : IsPage end p = record {
      aligned = aligned;
      after = after;
      kernel = kernel;
      low = omega arith;
    } in
    let fresh : has xs p ≡ false = elim (Bool-cases (has xs p)) [
      | inl t ↦ (let lt = below p t in absurd (omega (arith, lt)))
      | inr e ↦ e
    ] in
    Returns-bind _ (kfree_lem end p k xs f page fresh) λ k' f'.
      free_from_lem end r (p + pgsize) k' (p ∷ xs) f' (omega (arith, aligned)) (omega arith)
        (omega arith) (omega arith)
        (λ x h. elim (Bool-cases (x == p)) [
          | inl q ↦ ground arith
          | inr q ↦ (let lt : x < p = below x (ground arith) in omega (arith, lt))
        ])

-- `freerange` of addresses of the kernel behind `end`, with no page free before, returns. It makes free exactly the
-- whole pages of the range, each once, the first one last.
pub freerange_lem :
    (end vstart vend : ℕ) (k : Kmem)
    → Free end k []
    → end ≤ vstart
    → kernbase ≤ vstart
    → vstart ≤ vend
    → vend ≤ kernbase + phystop
    → Returns
        (λ k'. Free end k' (pages ((vend - pground_up vstart) / pgsize) (pground_up vstart) []))
        (freerange end vstart vend k)
unfolding freerange has
freerange_lem end vstart vend k f after kernel ordered low =
    let p : ℕ = pground_up vstart in
    let up : vstart ≤ p = omega arith in
    let bounded : p + pgsize * ((vend - p) / pgsize) ≤ kernbase + phystop = omega arith in
    free_from_lem end ((vend - p) / pgsize) p k [] f (omega arith) (omega (arith, up))
      (omega (arith, up)) bounded (λ x h. absurd (false≢true h))
