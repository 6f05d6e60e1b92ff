-- ===== src/Log/Header.antt =====
-- The header block: what `write_head` puts in is what `read_head` takes out.
use model_lib.Base.{ℕ, zero, suc, ◌+◌, ◌^◌, ◌<◌, ◌≡◌, refl, ◌∙◌, arith, dec_lt, lt→ltb}
use model_lib.Base.Words.{word_at, set_word, word_at-set_word_self, word_at-set_word_ne}
use model_lib.Bio.{Block}
use model_lib.Log.{Log, rounds, read_sectors, write_sectors, head_block}

-- The header of a log: small counts and sectors that are `int`s.
pub record IsHeader (l : Log) : Type 0 where
  pub small : l.n < 2 ^ 31
  pub words : (i : ℕ) → i < l.n → l.sector i < 2 ^ 32

pub rounds-small : (n : ℕ) → n < 2 ^ 31 → rounds n ≡ n
rounds-small n h = rw (lt→ltb n (2 ^ 31) h)

-- Reading: word i + 1 of the block is sector i.
pub read_sectors_lem :
    (r : ℕ) (b : Block) (old : ℕ → ℕ) (i : ℕ) → i < r → read_sectors r b old i ≡ word_at b (i + 1)
unfolding read_sectors
read_sectors_lem zero b old i h = elim h [ ]
read_sectors_lem (suc r) b old i h = ground (arith, read_sectors_lem r b old i)

-- Writing changes no word but 1 to r.
write_sectors_above :
    (r : ℕ) (sector : ℕ → ℕ) (b : Block) (j : ℕ)
    → r < j
    → word_at (write_sectors r sector b) j ≡ word_at b j
unfolding write_sectors
write_sectors_above zero sector b j h = refl
write_sectors_above (suc r) sector b j h =
    word_at-set_word_ne (r + 1) j (sector r) (write_sectors r sector b) (omega arith)
    ∙ write_sectors_above r sector b j (omega arith)

write_sectors_zero :
    (r : ℕ) (sector : ℕ → ℕ) (b : Block) → word_at (write_sectors r sector b) 0 ≡ word_at b 0
unfolding write_sectors
write_sectors_zero zero sector b = refl
write_sectors_zero (suc r) sector b =
    word_at-set_word_ne (r + 1) 0 (sector r) (write_sectors r sector b) (omega arith)
    ∙ write_sectors_zero r sector b

write_sectors_lem :
    (r : ℕ) (sector : ℕ → ℕ) (b : Block) (i : ℕ)
    → i < r
    → sector i < 2 ^ 32
    → word_at (write_sectors r sector b) (i + 1) ≡ sector i
unfolding write_sectors
write_sectors_lem zero sector b i h w = elim h [ ]
write_sectors_lem (suc r) sector b i h w = elim (dec_lt i r) [
  | yes lt ↦
      word_at-set_word_ne (r + 1) (i + 1) (sector r) (write_sectors r sector b) (omega arith)
      ∙ write_sectors_lem r sector b i lt w
  | no last ↦
      let e : i ≡ r = omega arith in
      rw e (word_at-set_word_self (r + 1) (sector r) (write_sectors r sector b) (rw e at w))
]

module _ (l : Log) (b : Block) (h : IsHeader l) where
  -- The count of the header that is written.
  pub head_block-n : word_at (head_block l b) 0 ≡ l.n
  unfolding head_block
  head_block-n =
      write_sectors_zero (rounds l.n) l.sector (set_word 0 l.n b)
      ∙ word_at-set_word_self 0 l.n b (omega (arith, h.small))

  -- The sectors of the header that is written.
  pub head_block-sector : (i : ℕ) → i < l.n → word_at (head_block l b) (i + 1) ≡ l.sector i
  unfolding head_block
  head_block-sector i lt =
      rw (rounds-small l.n h.small)
        (write_sectors_lem l.n l.sector (set_word 0 l.n b) i lt (h.words i lt))
