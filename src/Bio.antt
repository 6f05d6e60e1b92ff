-- ===== src/Bio.antt =====
-- The buffer cache of bio.c over the memory disk of memide.c. `bcache.lock` is held throughout the
-- critical part of each function, so each is one step. A buffer is named by its index in
-- `bcache.buf`, and the list through prev/next by the indices in it from `head.next` on. A block's
-- bytes are a function of the offset. `history` is not in the source: it records each write to the
-- disk, the last one first, so that a crash can be placed between any two of them.
pub mod Init
pub mod Inv
pub mod Store
pub mod Slots
pub mod Bread
pub mod Release
mod Tests
use model_lib.Base.{
  ℕ, zero, suc, ◌<◌, Bool, true, false, not, ◌&&◌, ◌||◌, List, [], ◌∷◌, Option, none, some, ltb,
  ◌==◌, if◌then◌else◌,
}
use model_lib.Base.Outcome.{
  Outcome, ok, panic, asleep, ◌>>=◌, ◌>>◌, check, bget_no_buffers, bwrite_not_busy, brelse_not_busy,
  iderw_not_busy, iderw_nothing_to_do, iderw_not_disk_1, iderw_out_of_range,
}
use model_lib.Base.Family.{update, find, find_last, erase}

-- The bytes of a block by their offset, of which those below BSIZE are in use.
abbrev pub Block : Type 0
Block = ℕ → ℕ

abbrev pub nbuf : ℕ
nbuf = 10

-- The device number -1 of a buffer that holds nothing.
abbrev pub no_dev : ℕ
no_dev = 0xffff_ffff

-- `struct buf`, its flags one by one: B_BUSY, B_VALID, B_DIRTY.
pub record Buf : Type 0 where
  pub dev : ℕ
  pub sector : ℕ
  pub busy : Bool
  pub valid : Bool
  pub dirty : Bool
  pub bytes : Block

-- `memdisk` and `disksize`, with the history of writes.
pub record Disk : Type 0 where
  pub blocks : ℕ → Block
  pub size : ℕ
  pub history : List (ℕ × Block)

-- `bcache`, with the disk under it.
pub record Cache : Type 0 where
  pub buf : ℕ → Buf
  pub order : List ℕ
  pub disk : Disk

abbrev pub set_buf : ℕ → Buf → Cache → Cache
set_buf i b k = record k { buf = update k.buf i b }

abbrev count_down : ℕ → List ℕ
count_down zero = []
count_down (suc n) = n ∷ count_down n

-- `binit`: each buffer is put at the head of the list.
unfoldable pub binit : Disk → Cache
binit d = record {
  buf = λ i. record {
    dev = no_dev;
    sector = 0;
    busy = false;
    valid = false;
    dirty = false;
    bytes = λ o. 0;
  };
  order = count_down nbuf;
  disk = d;
}

-- The memory disk's transfer of buffer `b`: a write if it is dirty, and else a read.
unfoldable pub write_out : Buf → Disk → Disk
write_out b d = record d {
  blocks = update d.blocks b.sector b.bytes;
  history = (b.sector, b.bytes) ∷ d.history;
}

unfoldable pub transfer : ℕ → Cache → Cache
unfolding write_out
transfer i k =
    let b = k.buf i in
    if b.dirty
    then record k {
      buf = update k.buf i (record b { dirty = false; valid = true });
      disk = write_out b k.disk;
    }
    else set_buf i (record b { bytes = k.disk.blocks b.sector; valid = true }) k

unfoldable pub iderw : ℕ → Cache → Outcome Cache
unfolding transfer
iderw i k = do
  check (k.buf i).busy iderw_not_busy
  check (not ((k.buf i).valid && not (k.buf i).dirty)) iderw_nothing_to_do
  check ((k.buf i).dev == 1) iderw_not_disk_1
  check (ltb (k.buf i).sector k.disk.size) iderw_out_of_range
  ok (transfer i k)

-- b->dev == dev && b->sector == sector
abbrev pub matches : (ℕ → Buf) → ℕ → ℕ → ℕ → Bool
matches buf dev sector i = (buf i).dev == dev && (buf i).sector == sector

-- (b->flags & B_BUSY) == 0 && (b->flags & B_DIRTY) == 0
abbrev pub is_free : Buf → Bool
is_free b = not b.busy && not b.dirty

-- The recycled buffer, `b->flags = B_BUSY`; its bytes stay as they are.
abbrev pub recycled : ℕ → ℕ → Buf → Buf
recycled dev sector b = record b {
  dev = dev;
  sector = sector;
  busy = true;
  valid = false;
  dirty = false;
}

unfoldable pub bget : ℕ → ℕ → Cache → Outcome (ℕ × Cache)
bget dev sector k = elim (find (matches k.buf dev sector) k.order) [
  | some i ↦
      if (k.buf i).busy then asleep else ok (i, set_buf i (record (k.buf i) { busy = true }) k)
  | none ↦ elim (find_last (λ i. is_free (k.buf i)) k.order) [
    | some i ↦ ok (i, set_buf i (recycled dev sector (k.buf i)) k)
    | none ↦ panic bget_no_buffers
  ]
]

unfoldable pub bread : ℕ → ℕ → Cache → Outcome (ℕ × Cache)
unfolding bget iderw
bread dev sector k = do
  (i, k₁) ← bget dev sector k
  if (k₁.buf i).valid then ok (i, k₁) else (do k₂ ← iderw i k₁; ok (i, k₂))

unfoldable pub bwrite : ℕ → Cache → Outcome Cache
unfolding iderw
bwrite i k = do
  check (k.buf i).busy bwrite_not_busy
  iderw i (set_buf i (record (k.buf i) { dirty = true }) k)

unfoldable pub brelse : ℕ → Cache → Outcome Cache
brelse i k = do
  check (k.buf i).busy brelse_not_busy
  ok (record k {
    buf = update k.buf i (record (k.buf i) { busy = false });
    order = i ∷ erase i k.order;
  })

-- What a caller does with a buffer that it holds: it stores into `b->data`, or sets B_DIRTY.
unfoldable pub set_bytes : ℕ → Block → Cache → Cache
set_bytes i v k = set_buf i (record (k.buf i) { bytes = v }) k

unfoldable pub set_dirty : ℕ → Cache → Cache
set_dirty i k = set_buf i (record (k.buf i) { dirty = true }) k

-- The usual round of a caller: `bp = bread(dev, s)`, the bytes changed by `g`, `bwrite(bp)` and
-- `brelse(bp)`.
unfoldable pub rewrite : ℕ → ℕ → (Block → Block) → Cache → Outcome Cache
rewrite dev s g k = do
  (i, k₁) ← bread dev s k
  k₂ ← bwrite i (set_bytes i (g (k₁.buf i).bytes) k₁)
  brelse i k₂

-- The round of a caller that only reads: `bread`, a look at the bytes, `brelse`.
unfoldable pub peek : ℕ → ℕ → Cache → Outcome (Block × Cache)
peek dev s k = do (i, k₁) ← bread dev s k; k₂ ← brelse i k₁; ok ((k₁.buf i).bytes, k₂)
