-- ===== src/Fs/Contents/Buffers.antt =====
-- `readi` over the buffer cache of bio.c.
use model_lib.Base.{
  ℕ, ◌+◌, ◌≤◌, ◌<◌, ◌≡◌, ◌≢◌, ◌^◌, ◌/◌, refl, sym, ap, ◌∙◌, false, Option, none, some, arith,
}
use mathlib.Core.Path.{subst}
use model_lib.Base.Outcome.{
  Outcome, ok, asleep, ◌>>=◌, Returns, returns, Returns-mono, Returns-value,
}
use model_lib.Bio.{Block, Cache, bread, brelse, peek}
use model_lib.Bio.Inv.{IsValid, slot, view, held, room, cost, cost-le_one}
use model_lib.Bio.Bread.{bread_lem}
use model_lib.Bio.Release.{bytes_own}
use model_lib.Bio.Store.{Same, peek_lem}
use model_lib.Fs.Inode.{Inode}
use model_lib.Fs.Contents.{t_dev, readi}
use model_lib.Fs.Contents.Services.{ContentServices, BlockReads}
use model_lib.Fs.Contents.Reading.{IsMapped, with_bytes, clipped, readi-reads}

-- brelse(bp) for the buffer that holds the block.
abbrev pub release : Option ℕ → Cache → Outcome Cache
release (some i) k = brelse i k
release none k = asleep

-- `bread` and `brelse` of bio.c, and any other services.
abbrev pub buffered : ContentServices Cache → ContentServices Cache
buffered cs = record cs {
  bread = λ dev t k. bread dev t k >>= λ (i, k'). ok ((k'.buf i).bytes, k');
  brelse = λ dev t k. release (slot k t) k;
}

-- A cache from which blocks of its disk can be read: no buffer is held, and one is free.
pub record IsReady (k : Cache) : Type 0 where
  pub valid : IsValid k
  pub idle : (t : ℕ) → held k t ≡ false
  pub spare : 1 ≤ room k

unpaired :
    {A : Type 0} (P : Cache → Type 0) (a : A) (m : Outcome Cache)
    → Returns (λ (r : A × Cache). P r.1) (m >>= λ k. ok (a, k))
    → Returns P m
unpaired P a (ok k) (returns r p) = returns k p
unpaired P a (Outcome.panic m) h = elim h [ ]
unpaired P a asleep h = elim h [ ]

Same-Same : (k k' k'' : Cache) → Same k k' → Same k' k'' → Same k k''
Same-Same k k' k'' a b = record {
  valid = b.valid;
  view_same = b.view_same ∙ a.view_same;
  held_same = b.held_same ∙ a.held_same;
  dirty_same = b.dirty_same ∙ a.dirty_same;
  disk_same = b.disk_same ∙ a.disk_same;
  room_le = omega (arith, a.room_le, b.room_le);
}

module _ (cs : ContentServices Cache) (k₀ : Cache) (ready : IsReady k₀) where
  -- The cache with a buffer of the block lent out.
  pub Lent : ℕ → Cache → Type 0
  Lent t k = (i : ℕ) × (slot k t ≡ some i) × Returns (Same k₀) (brelse i k)

  pub lends :
      (k : Cache) (t : ℕ)
      → Same k₀ k
      → t < k₀.disk.size
      → Returns (λ r. (r.0 ≡ view k₀ t) × Lent t r.1) ((buffered cs).bread 1 t k)
  unfolding Lent peek
  lends k t same lt =
      let small : t < k.disk.size = omega (arith, lt, ap (λ d. d.size) same.disk_same) in
      let idle : held k t ≡ false = ap (λ f. f t) same.held_same ∙ ready.idle t in
      let free : cost k t ≤ room k = omega (arith, cost-le_one k t, ready.spare, same.room_le) in
      let ((i, k₁), e, rd) = Returns-value (bread_lem k same.valid t small idle free) in
      let peeked =
        subst
          (λ (m : Outcome (ℕ × Cache)).
            Returns (λ (r : Block × Cache). (r.0 ≡ view k t) × Same k r.1)
              (m >>= λ (i, k₁). brelse i k₁ >>= λ k₂. ok ((k₁.buf i).bytes, k₂)))
          e (peek_lem k t same.valid small idle free) in
      let back : Returns (Same k₀) (brelse i k₁) =
        unpaired (Same k₀) (k₁.buf i).bytes (brelse i k₁)
          (Returns-mono peeked λ r p. Same-Same k₀ k r.1 same p.1) in
      subst
        (λ (m : Outcome (ℕ × Cache)).
          Returns (λ (r : Block × Cache). (r.0 ≡ view k₀ t) × Lent t r.1)
            (m >>= λ (i, k'). ok ((k'.buf i).bytes, k')))
        (sym e)
        (returns _ (
          bytes_own k₁ rd.valid i t rd.owns
              ∙ ap (λ f. f t) rd.view_same
              ∙ ap (λ f. f t) same.view_same,
          (i, rd.owns.0, back),
        ))

  pub takes_back : (k : Cache) (t : ℕ) → Lent t k → Returns (Same k₀) ((buffered cs).brelse 1 t k)
  unfolding Lent
  takes_back k t (i, at, back) = subst (λ o. Returns (Same k₀) (release o k)) (sym at) back

  abbrev pub block_reads : (dev : ℕ) → dev ≡ 1 → BlockReads (buffered cs) dev k₀.disk.size (view k₀)
  block_reads dev e = record {
    Idle = Same k₀;
    Has = Lent;
    reads = λ {s} t same lt.
        subst (λ d. Returns (λ r. (r.0 ≡ view k₀ t) × Lent t r.1) ((buffered cs).bread d t s))
          (sym e) (lends s t same lt);
    releases = λ {t} {s} lent. takes_back s t lent;
  }

  pub unchanged : Same k₀ k₀
  unchanged = record {
    valid = ready.valid;
    view_same = refl;
    held_same = refl;
    dirty_same = refl;
    disk_same = refl;
    room_le = omega arith;
  }

  -- `readi` over the buffer cache of bio.c, with any other services. No buffer is held, one is free, and the inode is
  -- no device; its blocks below its size are all there, on the disk. For an offset up to the size and a sum of
  -- offset and `n` below 2^32, `readi` returns the number of bytes from the offset to the end of the file, at
  -- most `n`. At `dst` are then these bytes of the blocks that the direct, indirect and double indirect addresses
  -- lead to, as the cache and the disk have them, and no other byte there has changed. The inode is as before,
  -- and so are the disk and the contents, claims and dirty marks of the cache.
  pub readi_lem :
      (ip : Inode) (dst : ℕ → ℕ) (off n : ℕ)
      → ip.dev ≡ 1
      → ip.copy.type ≢ t_dev
      → off ≤ ip.copy.size
      → off + n < 2 ^ 32
      → ((o : ℕ) → o < ip.copy.size → IsMapped k₀.disk.size ip.copy (view k₀) (o / 512))
      → Returns
          (λ q.
            (q.0 ≡ (
              some (clipped ip off n),
              with_bytes ip.copy (view k₀) off 0 (clipped ip off n) dst,
            ))
            × ((q.1.0 ≡ ip) × Same k₀ q.1.1))
          (readi (buffered cs) ip dst off n k₀)
  readi_lem ip dst off n dev file le no_wrap mapped =
      readi-reads ip k₀.disk.size (view k₀) (block_reads ip.dev dev) dst off n k₀ unchanged file le
        no_wrap mapped
