-- ===== src/Fs.antt =====
-- fs.c over the blocks that log.c and bio.c keep. What it uses of them is the record of Fs.Store; the log
-- gives it in Log.Visit.
pub mod Store
pub mod Bitmap
pub mod Alloc
pub mod Undo
pub mod Dinode
pub mod Inode
pub mod Contents
mod Tests
use model_lib.Base.{
  ℕ, zero, suc, ◌+◌, ◌-◌, ◌*◌, ◌/◌, ◌%◌, ◌^◌, Bool, not, Option, none, some, ◌==◌, leb,
  if◌then◌else◌,
}
use model_lib.Base.Outcome.{
  Outcome, ok, panic, ◌>>=◌, ◌>>◌, check, balloc_out_of_blocks, bfree_free_block,
}
use model_lib.Base.Family.{update}
use model_lib.Base.Search.{search_from}
use model_lib.Base.Words.{word_at}
use model_lib.Bio.{Block}
use model_lib.Log.{Superblock}
use model_lib.Fs.Store.{BlockStore}

-- Bits in a block.
abbrev pub bpb : ℕ
bpb = 4096

-- Inodes in a block.
abbrev pub ipb : ℕ
ipb = 4

abbrev pub bblock : ℕ → ℕ → ℕ
bblock b ninodes = b / bpb + ninodes / ipb + 3

-- Bit `k` of `x`: x & (1 << k), x | (1 << k) and x & ~(1 << k).
pub bit : ℕ → ℕ → Bool
bit x zero = x % 2 == 1
bit x (suc k) = bit (x / 2) k

pub or_bit : ℕ → ℕ → ℕ
or_bit x zero = x / 2 * 2 + 1
or_bit x (suc k) = or_bit (x / 2) k * 2 + x % 2

pub and_not : ℕ → ℕ → ℕ
and_not x zero = x / 2 * 2
and_not x (suc k) = and_not (x / 2) k * 2 + x % 2

-- bp->data[bi/8] & m, for m = 1 << (bi % 8)
pub has_bit : Block → ℕ → Bool
unfolding bit
has_bit b bi = bit (b (bi / 8)) (bi % 8)

-- bp->data[bi/8] |= m
pub set_bit : ℕ → Block → Block
unfolding or_bit
set_bit bi b = update b (bi / 8) (or_bit (b (bi / 8)) (bi % 8))

-- bp->data[bi/8] &= ~m
pub clear_bit : ℕ → Block → Block
unfolding and_not
clear_bit bi b = update b (bi / 8) (and_not (b (bi / 8)) (bi % 8))

-- The rounds of the inner loop of `balloc`, whose bounds are BPB and the end of the disk.
pub bits_from : ℕ → ℕ → ℕ
bits_from b size = if leb (b + bpb) size then bpb else size - b

-- The inner loop of `balloc`: the first free bit.
pub scan : ℕ → ℕ → Block → Option ℕ
unfolding has_bit bits_from
scan b size block = search_from (λ bi. not (has_bit block bi)) (bits_from b size) 0

abbrev pub marked : Option ℕ → Block → Option Block
marked none block = none
marked (some bi) block = some (set_bit bi block)

module _ {S : Type 0} (bs : BlockStore S) where
  pub readsb : ℕ → S → Outcome (Superblock × S)
  readsb dev s = do
    (b, s') ← bs.visit dev 1 (λ b. none) s
    ok (
      record {
        size = word_at b 0;
        nblocks = word_at b 1;
        ninodes = word_at b 2;
        nlog = word_at b 3;
      },
      s',
    )

  pub bzero : ℕ → ℕ → S → Outcome S
  bzero dev bno s = do (b, s') ← bs.visit dev bno (λ b. some (λ o. 0)) s; ok s'

  -- The end of a round of the outer loop of `balloc`: a block is found, or the loop goes on.
  pub take_block : ℕ → ℕ → (S → Outcome (ℕ × S)) → Option ℕ → S → Outcome (ℕ × S)
  unfolding bzero
  take_block dev b next (some bi) s = do s' ← bzero dev (b + bi) s; ok (b + bi, s')
  take_block dev b next none s = next s

  -- The outer loop of `balloc`, with the rounds that are left.
  pub balloc_from : ℕ → ℕ → ℕ → Superblock → S → Outcome (ℕ × S)
  unfolding scan set_bit take_block
  balloc_from zero b dev sb s = panic balloc_out_of_blocks
  balloc_from (suc r) b dev sb s = do
    (block, s₁) ← bs.visit dev (bblock b sb.ninodes) (λ d. marked (scan b sb.size d) d) s
    take_block dev b (balloc_from r (b + bpb) dev sb) (scan b sb.size block) s₁

  pub balloc : ℕ → S → Outcome (ℕ × S)
  unfolding readsb balloc_from
  balloc dev s = do (sb, s₁) ← readsb dev s; balloc_from ((sb.size + bpb - 1) / bpb) 0 dev sb s₁

  pub bfree : ℕ → ℕ → S → Outcome S
  unfolding readsb clear_bit
  bfree dev b s = do
    (sb, s₁) ← readsb dev s
    (block, s₂) ←
        bs.visit dev (bblock b sb.ninodes)
          (λ d. if has_bit d (b % bpb) then some (clear_bit (b % bpb) d) else none) s₁
    check (has_bit block (b % bpb)) bfree_free_block
    ok s₂
