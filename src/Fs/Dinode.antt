-- ===== src/Fs/Dinode.antt =====
-- The on-disk inode, fs.h, as bytes of a block. A `short` is a 16-bit word in two's complement.
pub mod Fields
use model_lib.Base.{ℕ, zero, suc, ◌+◌, ◌*◌, ◌/◌, ◌%◌, ◌==◌, if◌then◌else◌}
use model_lib.Base.Family.{update}
use model_lib.Base.Words.{word_at, set_word}
use model_lib.Bio.{Block}

-- NDIRECT + 1
abbrev pub naddrs : ℕ
naddrs = 13

abbrev pub passlen : ℕ
passlen = 10

-- `struct dinode`, and the part of `struct inode` that is a copy of it.
pub record Dinode : Type 0 where
  pub type : ℕ
  pub major : ℕ
  pub minor : ℕ
  pub nlink : ℕ
  pub size : ℕ
  pub addrs : ℕ → ℕ
  pub indirect2 : ℕ
  pub password : ℕ → ℕ

-- a[i] for `short *a`, and a[i] = w.
unfoldable pub half_at : Block → ℕ → ℕ
half_at b i = b (2 * i) + 256 * b (2 * i + 1)

unfoldable pub set_half : ℕ → ℕ → Block → Block
set_half i w b o = if o / 2 == i then (if o % 2 == 0 then w % 256 else w / 256 % 256) else b o

-- memmove of the first `n` words, and of the first `n` chars.
unfoldable pub set_words : ℕ → ℕ → (ℕ → ℕ) → Block → Block
set_words zero i from b = b
set_words (suc n) i from b = set_word (i + n) (from n) (set_words n i from b)

unfoldable pub set_chars : ℕ → ℕ → (ℕ → ℕ) → Block → Block
set_chars zero i from b = b
set_chars (suc n) i from b = update (set_chars n i from b) (i + n) (from n)

-- The assignments of `iupdate` to the inode `j` of a block, one after the other.
abbrev pub with_type : ℕ → Dinode → Block → Block
with_type j d b = set_half (64 * j) d.type b

abbrev pub with_major : ℕ → Dinode → Block → Block
with_major j d b = set_half (64 * j + 1) d.major (with_type j d b)

abbrev pub with_minor : ℕ → Dinode → Block → Block
with_minor j d b = set_half (64 * j + 2) d.minor (with_major j d b)

abbrev pub with_nlink : ℕ → Dinode → Block → Block
with_nlink j d b = set_half (64 * j + 3) d.nlink (with_minor j d b)

abbrev pub with_size : ℕ → Dinode → Block → Block
with_size j d b = set_word (32 * j + 2) d.size (with_nlink j d b)

abbrev pub with_addrs : ℕ → Dinode → Block → Block
with_addrs j d b = set_words naddrs (32 * j + 3) d.addrs (with_size j d b)

abbrev pub with_indirect2 : ℕ → Dinode → Block → Block
with_indirect2 j d b = set_word (32 * j + 16) d.indirect2 (with_addrs j d b)

pub write_dinode : ℕ → Dinode → Block → Block
unfolding set_half set_words set_chars
write_dinode j d b = set_chars passlen (128 * j + 68) d.password (with_indirect2 j d b)

-- The assignments of `ilock` from the inode `j` of a block.
unfoldable pub read_dinode : ℕ → Block → Dinode
unfolding half_at
read_dinode j b = record {
  type = half_at b (64 * j);
  major = half_at b (64 * j + 1);
  minor = half_at b (64 * j + 2);
  nlink = half_at b (64 * j + 3);
  size = word_at b (32 * j + 2);
  addrs = λ i. word_at b (32 * j + 3 + i);
  indirect2 = word_at b (32 * j + 16);
  password = λ i. b (128 * j + 68 + i);
}
