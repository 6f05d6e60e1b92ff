-- ===== src/Bio/Inv.antt =====
-- What holds of the buffer cache between calls, and what can be seen of it sector by sector.
use model_lib.Base.{
  ◌∙◌, arith, ◌≤◌, ℕ, ◌≡◌, ◌≢◌, ap, if◌then◌else◌, Bool, true, false, Option, none, some,
}
use model_lib.Base.Family.{Distinct, has, find, count}
use model_lib.Bio.{Block, Buf, Cache, matches, is_free, nbuf}

-- The NBUF buffers are in the list once each; no two hold one sector of the disk; a buffer for the disk is read
-- in; and one that is neither in use nor dirty agrees with the disk. A buffer that is not for the disk is free.
pub record IsValid (k : Cache) : Type 0 where
  pub distinct : Distinct k.order
  pub unique :
      (i j : ℕ)
      → has k.order i ≡ true
      → has k.order j ≡ true
      → (k.buf i).dev ≡ 1
      → (k.buf j).dev ≡ 1
      → (k.buf i).sector ≡ (k.buf j).sector
      → i ≡ j
  pub loaded : (i : ℕ) → has k.order i ≡ true → (k.buf i).dev ≡ 1 → (k.buf i).valid ≡ true
  pub clean :
      (i : ℕ)
      → has k.order i ≡ true
      → (k.buf i).dev ≡ 1
      → is_free (k.buf i) ≡ true
      → (k.buf i).bytes ≡ k.disk.blocks (k.buf i).sector
  pub spare : (i : ℕ) → has k.order i ≡ true → (k.buf i).dev ≢ 1 → is_free (k.buf i) ≡ true
  pub total : count (λ i. true) k.order ≡ nbuf

-- The buffer that holds a sector of the disk.
abbrev pub slot : Cache → ℕ → Option ℕ
slot k s = find (matches k.buf 1 s) k.order

abbrev pub pick {ℓ} : {X : Type ℓ} → (ℕ → X) → X → Option ℕ → X
pick f d none = d
pick f d (some i) = f i

-- A field of that buffer, or `d` where no buffer holds the sector.
abbrev pub look {ℓ} : {X : Type ℓ} → (Buf → X) → (ℕ → X) → Cache → ℕ → X
look f d k s = pick (λ i. f (k.buf i)) (d s) (slot k s)

-- The contents that a reader of the sector gets.
unfoldable pub view : Cache → ℕ → Block
view k = look (λ b. b.bytes) k.disk.blocks k

-- Does a process hold the sector's buffer?
unfoldable pub held : Cache → ℕ → Bool
held k = look (λ b. b.busy) (λ s. false) k

-- Is the sector's buffer dirty, and so kept in the cache?
unfoldable pub dirty : Cache → ℕ → Bool
dirty k = look (λ b. b.dirty) (λ s. false) k

-- The number of buffers that `bget` may recycle.
unfoldable pub room : Cache → ℕ
room k = count (λ i. is_free (k.buf i)) k.order

-- What holding a sector's buffer takes from the free ones: a dirty one is not among them.
unfoldable pub cost : Cache → ℕ → ℕ
unfolding dirty
cost k s = if dirty k s then 0 else 1

-- Buffer `i` holds sector `s`, for the caller.
abbrev pub Owns : Cache → ℕ → ℕ → Type 0
Owns k i s = (slot k s ≡ some i) × ((k.buf i).busy ≡ true)

module _ {ℓ} {X : Type ℓ} (f : Buf → X) (d : ℕ → X) (k : Cache) (s : ℕ) where
  pub look-some : (i : ℕ) → slot k s ≡ some i → look f d k s ≡ f (k.buf i)
  look-some i e = ap (pick (λ j. f (k.buf j)) (d s)) e

  pub look-none : slot k s ≡ none → look f d k s ≡ d s
  look-none e = ap (pick (λ j. f (k.buf j)) (d s)) e

pub cost-le_one : (k : Cache) (s : ℕ) → cost k s ≤ 1
unfolding cost
cost-le_one k s = ground arith

pub cost-clean : (k : Cache) (s : ℕ) → dirty k s ≡ false → cost k s ≡ 1
unfolding cost
cost-clean k s e = rw e

pub cost-dirty : (k : Cache) (s : ℕ) → dirty k s ≡ true → cost k s ≡ 0
unfolding cost
cost-dirty k s e = rw e

pub cost-same : (k k' : Cache) (s : ℕ) → dirty k' ≡ dirty k → cost k' s ≡ cost k s
unfolding cost
cost-same k k' s e = ap (λ f. if f s then 0 else 1) e

pub Owns-held : (k : Cache) (i s : ℕ) → Owns k i s → held k s ≡ true
unfolding held
Owns-held k i s own = look-some (λ b. b.busy) (λ t. false) k s i own.0 ∙ own.1
