-- ===== src/Kalloc.antt =====
-- kalloc.c: the allocator of physical pages. Its free list runs through the free pages themselves.
pub mod Pages
pub mod Owners
pub mod Start
mod Tests
use model_lib.Base.{
  true, false, ℕ, zero, suc, ◌+◌, ◌-◌, ◌*◌, ◌/◌, ◌%◌, ◌^◌, Bool, not, ◌&&◌, ◌||◌, ◌==◌, ltb, leb,
  if◌then◌else◌,
}
use model_lib.Base.Outcome.{Outcome, ok, panic, ◌>>=◌, kfree_bad_page}
use model_lib.Base.Family.{update}

abbrev pub pgsize : ℕ
pgsize = 4096

abbrev pub phystop : ℕ
phystop = 0xE00_0000

abbrev pub kernbase : ℕ
kernbase = 0x8000_0000

abbrev pub v2p : ℕ → ℕ
v2p a = (a + 2 ^ 32 - kernbase) % 2 ^ 32

-- `kmem` and the memory that the list runs through. `mem` gives the 4-byte word at an address that is
-- a multiple of 4.
pub record Kmem : Type 0 where
  pub use_lock : Bool
  pub freelist : ℕ
  pub mem : ℕ → ℕ

-- memset(v, 1, PGSIZE), which writes words as `v` is a multiple of 4.
abbrev pub fill : ℕ → (ℕ → ℕ) → ℕ → ℕ
fill v mem a = if leb v a && ltb a (v + pgsize) then 0x101_0101 else mem a

-- The first argument is the linker's symbol `end`.
pub kfree : ℕ → ℕ → Kmem → Outcome Kmem
kfree end v k =
    if not (v % pgsize == 0) || ltb v end || leb phystop (v2p v)
    then panic kfree_bad_page
    else ok (record k { mem = update (fill v k.mem) v k.freelist; freelist = v })

unfoldable pub kalloc : Kmem → ℕ × Kmem
kalloc k =
    if k.freelist == 0 then (0, k) else (k.freelist, record k { freelist = k.mem k.freelist })

-- PGROUNDUP of an unsigned number
abbrev pub pground_up : ℕ → ℕ
pground_up sz = (sz + pgsize - 1) % 2 ^ 32 / pgsize * pgsize

-- The loop of `freerange` with the rounds that are left.
pub free_from : ℕ → ℕ → ℕ → Kmem → Outcome Kmem
unfolding kfree
free_from end zero p k = ok k
free_from end (suc r) p k = do k' ← kfree end p k; free_from end r (p + pgsize) k'

pub freerange : ℕ → ℕ → ℕ → Kmem → Outcome Kmem
unfolding free_from
freerange end vstart vend k =
    free_from end ((vend - pground_up vstart) / pgsize) (pground_up vstart) k

pub kinit1 : ℕ → ℕ → ℕ → Kmem → Outcome Kmem
unfolding freerange
kinit1 end vstart vend k = freerange end vstart vend (record k { use_lock = false })

pub kinit2 : ℕ → ℕ → ℕ → Kmem → Outcome Kmem
unfolding freerange
kinit2 end vstart vend k = do k' ← freerange end vstart vend k; ok (record k' { use_lock = true })
