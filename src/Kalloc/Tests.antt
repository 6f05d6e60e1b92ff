-- ===== src/Kalloc/Tests.antt =====
-- kalloc.c on a free list of two pages.
use model_lib.Base.{
  false, ℕ, ◌-◌, ◌/◌, ◌≡◌, ◌≢◌, ◌⊎◌, refl, true, List, [], ◌∷◌, ◌==◌, if◌then◌else◌, arith,
}
use mathlib.Core.Path.{subst}
use model_lib.Base.Family.{has}
use model_lib.Base.Outcome.{panic, kfree_bad_page, Returns}
use model_lib.Kalloc.{pgsize, pground_up, Kmem, kfree, kalloc, freerange}
use model_lib.Kalloc.Start.{pages, freerange_lem}
use model_lib.Kalloc.Pages.{IsPage, Free, kfree_lem, kalloc_lem}
use model_lib.Kalloc.Owners.{Step, Apart, Step-Apart}

abbrev kernel_end : ℕ
kernel_end = 0x8010_0000

abbrev two_free : Kmem
two_free = record {
  use_lock = true;
  freelist = 0x8011_0000;
  mem = λ a. if a == 0x8011_0000 then 0x8011_2000 else 0;
}

first-IsPage : IsPage kernel_end 0x8011_0000
first-IsPage = record {
  aligned = refl;
  after = omega arith;
  kernel = omega arith;
  low = omega arith;
}

second-IsPage : IsPage kernel_end 0x8011_2000
second-IsPage = record {
  aligned = refl;
  after = omega arith;
  kernel = omega arith;
  low = omega arith;
}

owned-IsPage : IsPage kernel_end 0x8011_1000
owned-IsPage = record {
  aligned = refl;
  after = omega arith;
  kernel = omega arith;
  low = omega arith;
}

abbrev listed : List ℕ
listed = 0x8011_0000 ∷ 0x8011_2000 ∷ []

two_free-Free : Free kernel_end two_free (0x8011_0000 ∷ 0x8011_2000 ∷ [])
unfolding has
two_free-Free = record {
  chain = (refl, first-IsPage, (refl, second-IsPage, refl));
  distinct = (refl, (refl, tt));
}

two_free-Apart : Apart kernel_end (0x8011_1000 ∷ []) two_free
unfolding has
two_free-Apart = record {
  pages = 0x8011_0000 ∷ 0x8011_2000 ∷ [];
  free = two_free-Free;
  owned = λ x h. let e : 0x8011_1000 ≡ x = ground arith in subst (IsPage kernel_end) e owned-IsPage;
  apart = λ x h. ground arith;
  distinct = (refl, tt);
}

unaligned : kfree kernel_end 0x8011_0004 two_free ≡ panic kfree_bad_page
unfolding kfree
unaligned = refl

takes_first : (kalloc two_free).0 ≡ 0x8011_0000
unfolding kalloc
takes_first = refl

one_freed :
    Returns
      (λ k'. Free kernel_end k' (0x8011_1000 ∷ 0x8011_0000 ∷ 0x8011_2000 ∷ []))
      (kfree kernel_end 0x8011_1000 two_free)
unfolding has
one_freed =
    kfree_lem kernel_end 0x8011_1000 two_free (0x8011_0000 ∷ 0x8011_2000 ∷ []) two_free-Free
      owned-IsPage refl

one_given :
    ((listed ≡ []) × (kalloc two_free ≡ (0, two_free)))
    ⊎ ((ys : List ℕ) × (listed ≡ (kalloc two_free).0 ∷ ys)
        × IsPage kernel_end (kalloc two_free).0
        × Free kernel_end (kalloc two_free).1 ys)
one_given = kalloc_lem kernel_end two_free (0x8011_0000 ∷ 0x8011_2000 ∷ []) two_free-Free

gets_a_page : (kalloc two_free).0 ≢ 0
unfolding kalloc
gets_a_page = omega arith

Step-Apart_example : Apart kernel_end ((kalloc two_free).0 ∷ 0x8011_1000 ∷ []) (kalloc two_free).1
Step-Apart_example = Step-Apart kernel_end (Step.alloc gets_a_page) two_free-Apart

-- From an address inside a page: three whole pages follow.
abbrev none_free : Kmem
none_free = record { use_lock = false; freelist = 0; mem = λ a. 0 }

none_free-Free : Free kernel_end none_free []
none_free-Free = record { chain = refl; distinct = tt }

freerange_lem_example :
    Returns
      (λ k'.
        Free kernel_end k'
          (pages ((0x8010_4000 - pground_up 0x8010_0010) / pgsize) (pground_up 0x8010_0010) []))
      (freerange kernel_end 0x8010_0010 0x8010_4000 none_free)
freerange_lem_example =
    freerange_lem kernel_end 0x8010_0010 0x8010_4000 none_free none_free-Free (omega arith)
      (omega arith) (omega arith) (omega arith)

three_pages :
    pages ((0x8010_4000 - pground_up 0x8010_0010) / pgsize) (pground_up 0x8010_0010) []
    ≡ 0x8010_3000 ∷ 0x8010_2000 ∷ 0x8010_1000 ∷ []
unfolding pages
three_pages = refl
