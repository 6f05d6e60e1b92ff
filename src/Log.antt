-- ===== src/Log.antt =====
-- The redo log of log.c over the buffer cache. `log.lock` is held throughout the critical part of
-- `begin_trans` and `commit_trans`, which are one step each.
pub mod Header
pub mod Recoverable
pub mod Install
pub mod Loop
pub mod Recovery
pub mod Open
pub mod Write
pub mod Transaction
pub mod Crash
pub mod Visit
mod Tests
use model_lib.Base.{
  ℕ, zero, suc, ◌+◌, ◌-◌, ◌*◌, ◌%◌, ◌^◌, Bool, true, false, not, ◌&&◌, ◌||◌, List, [], ◌∷◌, ltb,
  leb, ◌==◌, if◌then◌else◌,
}
use model_lib.Base.Outcome.{
  Outcome, ok, panic, asleep, ◌>>=◌, ◌>>◌, check, log_too_big, log_outside_trans,
}
use model_lib.Base.Family.{update}
use model_lib.Base.Words.{word_at, set_word}
use model_lib.Bio.{Block, Cache, bread, bwrite, brelse, set_bytes, set_dirty, rewrite, peek}

abbrev pub logsize : ℕ
logsize = 10

abbrev pub rootdev : ℕ
rootdev = 1

-- `struct superblock`
pub record Superblock : Type 0 where
  pub size : ℕ
  pub nblocks : ℕ
  pub ninodes : ℕ
  pub nlog : ℕ

-- `struct log` with its `struct logheader` (`n` and `sector`), without its lock.
pub record Log : Type 0 where
  pub start : ℕ
  pub size : ℕ
  pub busy : Bool
  pub dev : ℕ
  pub n : ℕ
  pub sector : ℕ → ℕ

-- How often a loop `for (i = 0; i < n; i++)` over an `int` runs: not at all if it is negative.
abbrev pub rounds : ℕ → ℕ
rounds n = if ltb n (2 ^ 31) then n else 0

-- `readsb` (fs.c): the four words of block 1.
unfoldable pub readsb : ℕ → Cache → Outcome (Superblock × Cache)
readsb dev k = do
  (b, k') ← peek dev 1 k
  ok (
    record { size = word_at b 0; nblocks = word_at b 1; ninodes = word_at b 2; nlog = word_at b 3 },
    k',
  )

-- One round of `install_trans`, from log block `a` to its home `t`.
unfoldable pub install_one : ℕ → ℕ → ℕ → Cache → Outcome Cache
install_one dev a t k = do
  (lbuf, k₁) ← bread dev a k
  (dbuf, k₂) ← bread dev t k₁
  k₃ ← bwrite dbuf (set_bytes dbuf (k₂.buf lbuf).bytes k₂)
  k₄ ← brelse lbuf k₃
  brelse dbuf k₄

-- The loop of `install_trans`, with the rounds that are left.
pub install_from : ℕ → ℕ → Log → Cache → Outcome Cache
unfolding install_one
install_from zero tail l k = ok k
install_from (suc r) tail l k = do
  k' ← install_one l.dev (l.start + tail + 1) (l.sector tail) k
  install_from r (tail + 1) l k'

pub install_trans : Log → Cache → Outcome Cache
unfolding install_from
install_trans l k = install_from (rounds l.n) 0 l k

-- lh->sector[0..r) of a header block, laid over `old`.
pub read_sectors : ℕ → Block → (ℕ → ℕ) → ℕ → ℕ
read_sectors zero b old = old
read_sectors (suc r) b old = update (read_sectors r b old) r (word_at b (r + 1))

pub read_head : Log → Cache → Outcome (Log × Cache)
unfolding read_sectors
read_head l k = do
  (b, k') ← peek l.dev l.start k
  let n = word_at b 0
  ok (record l { n = n; sector = read_sectors (rounds n) b l.sector }, k')

-- hb->sector[0..r) = log.lh.sector[0..r)
write_sectors : ℕ → (ℕ → ℕ) → Block → Block
write_sectors zero sector b = b
write_sectors (suc r) sector b = set_word (r + 1) (sector r) (write_sectors r sector b)

-- The header block with the header of `l` laid over it.
pub head_block : Log → Block → Block
unfolding write_sectors
head_block l b = write_sectors (rounds l.n) l.sector (set_word 0 l.n b)

pub write_head : Log → Cache → Outcome Cache
unfolding head_block
write_head l k = rewrite l.dev l.start (head_block l) k

pub recover_from_log : Log → Cache → Outcome (Log × Cache)
unfolding read_head install_trans write_head
recover_from_log l k = do
  (l₁, k₁) ← read_head l k
  k₂ ← install_trans l₁ k₁
  let l₂ = record l₁ { n = 0 }
  k₃ ← write_head l₂ k₂
  ok (l₂, k₃)

-- `initlog`, on the zeroed `log` of the kernel's data. Its check of the header's size is constant:
-- `struct logheader` is 44 bytes.
pub initlog : Cache → Outcome (Log × Cache)
unfolding recover_from_log
initlog k = do
  (sb, k₁) ← readsb rootdev k
  recover_from_log
      (record {
        start = (sb.size + 2 ^ 32 - sb.nlog) % 2 ^ 32;
        size = sb.nlog;
        busy = false;
        dev = rootdev;
        n = 0;
        sector = λ i. 0;
      })
      k₁

pub begin_trans : Log → Outcome Log
begin_trans l = if l.busy then asleep else ok (record l { busy = true })

pub commit_trans : Log → Cache → Outcome (Log × Cache)
unfolding write_head install_trans
commit_trans l k =
    if ltb 0 (rounds l.n)
    then (do
      k₁ ← write_head l k
      k₂ ← install_trans l k₁
      let l' = record l { n = 0 }
      k₃ ← write_head l' k₂
      ok (record l' { busy = false }, k₃))
    else ok (record l { busy = false }, k)

-- The search of `log_write`: the first `i` below `n` with `sector[i] == s`, and else `n`. The first
-- argument is the rounds left, from `i` on.
pub find_sector : ℕ → ℕ → (ℕ → ℕ) → ℕ → ℕ
find_sector zero i sector s = i
find_sector (suc r) i sector s =
    let rest = find_sector r (i + 1) sector s in if sector i == s then i else rest

-- The copy of the buffer `b` to the log block `s`.
pub append_log : ℕ → ℕ → ℕ → Cache → Outcome Cache
append_log dev s b k = do
  (lbuf, k₁) ← bread dev s k
  k₂ ← bwrite lbuf (set_bytes lbuf (k₁.buf b).bytes k₁)
  brelse lbuf k₂

-- `log_write` of the buffer `b`.
pub log_write : ℕ → Log → Cache → Outcome (Log × Cache)
unfolding find_sector append_log
log_write b l k = do
  check (not (leb logsize (rounds l.n) || leb (l.size - 1) (rounds l.n))) log_too_big
  check l.busy log_outside_trans
  let i = find_sector (rounds l.n) 0 l.sector (k.buf b).sector
  let l₁ = record l { sector = update l.sector i (k.buf b).sector }
  k₁ ← append_log (k.buf b).dev (l.start + i + 1) b k
  ok (record l₁ { n = if i == l.n then l.n + 1 else l.n }, set_dirty b k₁)

-- The typical use of `log_write`: `bp = bread(dev, s)`, the bytes changed by `g`, `log_write(bp)` and
-- `brelse(bp)`.
pub update_block : ℕ → ℕ → (Block → Block) → Log → Cache → Outcome (Log × Cache)
unfolding log_write
update_block dev s g l k = do
  (i, k₁) ← bread dev s k
  (l', k₂) ← log_write i l (set_bytes i (g (k₁.buf i).bytes) k₁)
  k₃ ← brelse i k₂
  ok (l', k₃)

-- A system call that writes the file system: `begin_trans`, its block updates, `commit_trans`.
update_blocks : List (ℕ × (Block → Block)) → Log → Cache → Outcome (Log × Cache)
unfolding update_block
update_blocks [] l k = ok (l, k)
update_blocks ((s, g) ∷ us) l k = do (l', k') ← update_block rootdev s g l k; update_blocks us l' k'

pub transaction : List (ℕ × (Block → Block)) → Log → Cache → Outcome (Log × Cache)
unfolding begin_trans update_blocks commit_trans
transaction us l k = do l₁ ← begin_trans l; (l₂, k₂) ← update_blocks us l₁ k; commit_trans l₂ k₂
