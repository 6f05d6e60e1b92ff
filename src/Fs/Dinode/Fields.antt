-- ===== src/Fs/Dinode/Fields.antt =====
-- Reading an inode back from the bytes.
use model_lib.Base.{
  ℕ, zero, suc, ◌+◌, ◌*◌, ◌/◌, ◌%◌, ◌^◌, ◌≤◌, ◌<◌, ◌≡◌, ◌≢◌, ◌⊎◌, refl, sym, ap, ◌∙◌, inl, inr,
  ◌==◌, Bool-cases, arith,
}
use model_lib.Base.Family.{update, update_self, update_ne}
use model_lib.Base.Words.{word_at, set_word, word_at-set_word_self, word_at-set_word_ne}
use model_lib.Bio.{Block}
use model_lib.Fs.Dinode.{
  naddrs, passlen, Dinode, half_at, set_half, set_words, set_chars, with_type, with_major,
  with_minor, with_nlink, with_size, with_addrs, with_indirect2, write_dinode, read_dinode,
}

-- What each store leaves alone.
set_half-frame : (i w : ℕ) (b : Block) (o : ℕ) → o / 2 ≢ i → set_half i w b o ≡ b o
unfolding set_half
set_half-frame i w b o ne = ground arith

set_word-frame : (i w : ℕ) (b : Block) (o : ℕ) → o / 4 ≢ i → set_word i w b o ≡ b o
unfolding set_word
set_word-frame i w b o ne = ground arith

set_words-frame :
    (n i : ℕ) (from : ℕ → ℕ) (b : Block) (o : ℕ)
    → (o / 4 < i) ⊎ (i + n ≤ o / 4)
    → set_words n i from b o ≡ b o
unfolding set_words
set_words-frame zero i from b o out = refl
set_words-frame (suc n) i from b o out =
    set_word-frame (i + n) (from n) (set_words n i from b) o (omega arith)
    ∙ set_words-frame n i from b o (omega arith)

set_chars-frame :
    (n i : ℕ) (from : ℕ → ℕ) (b : Block) (o : ℕ)
    → (o < i) ⊎ (i + n ≤ o)
    → set_chars n i from b o ≡ b o
unfolding set_chars
set_chars-frame zero i from b o out = refl
set_chars-frame (suc n) i from b o out =
    update_ne (set_chars n i from b) (i + n) o (from n) (omega arith)
    ∙ set_chars-frame n i from b o (omega arith)

-- What each store writes.
half_at-set_half : (i w : ℕ) (b : Block) → w < 2 ^ 16 → half_at (set_half i w b) i ≡ w
unfolding half_at set_half
half_at-set_half i w b small =
    let place : 2 * i / 2 ≡ i = omega arith in
    let next : (2 * i + 1) / 2 ≡ i = omega arith in
    let even : 2 * i % 2 ≡ 0 = omega arith in
    let odd : (2 * i + 1) % 2 ≡ 1 = omega arith in
    let sum : w % 256 + 256 * (w / 256 % 256) ≡ w = omega arith in ground arith

word_at-set_words :
    (n i : ℕ) (from : ℕ → ℕ) (b : Block) (x : ℕ)
    → x < n
    → from x < 2 ^ 32
    → word_at (set_words n i from b) (i + x) ≡ from x
unfolding set_words
word_at-set_words zero i from b x lt small = absurd (omega arith)
word_at-set_words (suc n) i from b x lt small = elim (Bool-cases (x == n)) [
  | inl q ↦
      let e : x ≡ n = ground arith in
      ap (λ y. word_at (set_word (i + n) (from n) (set_words n i from b)) (i + y)) e
      ∙ word_at-set_word_self (i + n) (from n) (set_words n i from b) (omega (arith, ap from e))
      ∙ ap from (sym e)
  | inr q ↦
      word_at-set_word_ne (i + n) (i + x) (from n) (set_words n i from b) (ground arith)
      ∙ word_at-set_words n i from b x (ground arith) small
]

set_chars_at :
    (n i : ℕ) (from : ℕ → ℕ) (b : Block) (x : ℕ) → x < n → set_chars n i from b (i + x) ≡ from x
unfolding set_chars
set_chars_at zero i from b x lt = absurd (omega arith)
set_chars_at (suc n) i from b x lt = elim (Bool-cases (x == n)) [
  | inl q ↦
      (let e : x ≡ n = ground arith in
        ap (λ y. update (set_chars n i from b) (i + n) (from n) (i + y)) e
        ∙ update_self (set_chars n i from b) (i + n) (from n)
        ∙ ap from (sym e))
  | inr q ↦
      update_ne (set_chars n i from b) (i + n) (i + x) (from n) (ground arith)
      ∙ set_chars_at n i from b x (ground arith)
]

-- Blocks with the same bytes of a word or a half have that in common.
half_at-ext :
    (b b' : Block) (i : ℕ) → ((o : ℕ) → o / 2 ≡ i → b o ≡ b' o) → half_at b i ≡ half_at b' i
unfolding half_at
half_at-ext b b' i same = omega (arith, same (2 * i) (omega arith), same (2 * i + 1) (omega arith))

word_at-ext :
    (b b' : Block) (i : ℕ) → ((o : ℕ) → o / 4 ≡ i → b o ≡ b' o) → word_at b i ≡ word_at b' i
unfolding word_at
word_at-ext b b' i same = omega (
  arith,
  same (4 * i) (omega arith),
  same (4 * i + 1) (omega arith),
  same (4 * i + 2) (omega arith),
  same (4 * i + 3) (omega arith),
)

-- The stores go upwards, so that the later ones leave the fields before them alone.
module _ (j : ℕ) (d : Dinode) (b : Block) where
  last : Block
  last = write_dinode j d b

  tail_7 : (o : ℕ) → o < 128 * j + 68 → last o ≡ with_indirect2 j d b o
  unfolding last write_dinode
  tail_7 o lt = set_chars-frame passlen (128 * j + 68) d.password (with_indirect2 j d b) o (inl lt)

  tail_6 : (o : ℕ) → o < 128 * j + 64 → last o ≡ with_addrs j d b o
  tail_6 o lt =
      tail_7 o (omega arith)
      ∙ set_word-frame (32 * j + 16) d.indirect2 (with_addrs j d b) o (omega arith)

  tail_5 : (o : ℕ) → o < 128 * j + 12 → last o ≡ with_size j d b o
  tail_5 o lt =
      tail_6 o (omega arith)
      ∙ set_words-frame naddrs (32 * j + 3) d.addrs (with_size j d b) o (inl (omega arith))

  tail_4 : (o : ℕ) → o < 128 * j + 8 → last o ≡ with_nlink j d b o
  tail_4 o lt =
      tail_5 o (omega arith) ∙ set_word-frame (32 * j + 2) d.size (with_nlink j d b) o (omega arith)

  tail_3 : (o : ℕ) → o < 128 * j + 6 → last o ≡ with_minor j d b o
  tail_3 o lt =
      tail_4 o (omega arith)
      ∙ set_half-frame (64 * j + 3) d.nlink (with_minor j d b) o (omega arith)

  tail_2 : (o : ℕ) → o < 128 * j + 4 → last o ≡ with_major j d b o
  tail_2 o lt =
      tail_3 o (omega arith)
      ∙ set_half-frame (64 * j + 2) d.minor (with_major j d b) o (omega arith)

  tail_1 : (o : ℕ) → o < 128 * j + 2 → last o ≡ with_type j d b o
  tail_1 o lt =
      tail_2 o (omega arith) ∙ set_half-frame (64 * j + 1) d.major (with_type j d b) o (omega arith)

  outside : (o : ℕ) → o / 128 ≢ j → last o ≡ b o
  unfolding last write_dinode
  outside o ne =
      set_chars-frame passlen (128 * j + 68) d.password (with_indirect2 j d b) o (omega arith)
      ∙ set_word-frame (32 * j + 16) d.indirect2 (with_addrs j d b) o (omega arith)
      ∙ set_words-frame naddrs (32 * j + 3) d.addrs (with_size j d b) o (omega arith)
      ∙ set_word-frame (32 * j + 2) d.size (with_nlink j d b) o (omega arith)
      ∙ set_half-frame (64 * j + 3) d.nlink (with_minor j d b) o (omega arith)
      ∙ set_half-frame (64 * j + 2) d.minor (with_major j d b) o (omega arith)
      ∙ set_half-frame (64 * j + 1) d.major (with_type j d b) o (omega arith)
      ∙ set_half-frame (64 * j) d.type b o (omega arith)

-- The fields are in the range of their types.
pub record InRange (d : Dinode) : Type 0 where
  pub type : d.type < 2 ^ 16
  pub major : d.major < 2 ^ 16
  pub minor : d.minor < 2 ^ 16
  pub nlink : d.nlink < 2 ^ 16
  pub size : d.size < 2 ^ 32
  pub addrs : (i : ℕ) → i < naddrs → d.addrs i < 2 ^ 32
  pub indirect2 : d.indirect2 < 2 ^ 32

-- The same inode: the arrays agree in their bounds.
pub record SameInode (d d' : Dinode) : Type 0 where
  pub type : d.type ≡ d'.type
  pub major : d.major ≡ d'.major
  pub minor : d.minor ≡ d'.minor
  pub nlink : d.nlink ≡ d'.nlink
  pub size : d.size ≡ d'.size
  pub addrs : (i : ℕ) → i < naddrs → d.addrs i ≡ d'.addrs i
  pub indirect2 : d.indirect2 ≡ d'.indirect2
  pub password : (i : ℕ) → i < passlen → d.password i ≡ d'.password i

pub read-write_dinode :
    (j : ℕ) (d : Dinode) (b : Block) → InRange d → SameInode (read_dinode j (write_dinode j d b)) d
unfolding last read_dinode write_dinode
read-write_dinode j d b r = record {
  type =
      half_at-ext (last j d b) (with_type j d b) (64 * j) (λ o e. tail_1 j d b o (omega arith))
      ∙ half_at-set_half (64 * j) d.type b r.type;
  major =
      half_at-ext (last j d b) (with_major j d b) (64 * j + 1) (λ o e. tail_2 j d b o (omega arith))
      ∙ half_at-set_half (64 * j + 1) d.major (with_type j d b) r.major;
  minor =
      half_at-ext (last j d b) (with_minor j d b) (64 * j + 2) (λ o e. tail_3 j d b o (omega arith))
      ∙ half_at-set_half (64 * j + 2) d.minor (with_major j d b) r.minor;
  nlink =
      half_at-ext (last j d b) (with_nlink j d b) (64 * j + 3) (λ o e. tail_4 j d b o (omega arith))
      ∙ half_at-set_half (64 * j + 3) d.nlink (with_minor j d b) r.nlink;
  size =
      word_at-ext (last j d b) (with_size j d b) (32 * j + 2) (λ o e. tail_5 j d b o (omega arith))
      ∙ word_at-set_word_self (32 * j + 2) d.size (with_nlink j d b) r.size;
  addrs = λ i lt.
      word_at-ext (last j d b) (with_addrs j d b) (32 * j + 3 + i)
        (λ o e. tail_6 j d b o (omega arith))
      ∙ word_at-set_words naddrs (32 * j + 3) d.addrs (with_size j d b) i lt (r.addrs i lt);
  indirect2 =
      word_at-ext (last j d b) (with_indirect2 j d b) (32 * j + 16)
        (λ o e. tail_7 j d b o (omega arith))
      ∙ word_at-set_word_self (32 * j + 16) d.indirect2 (with_addrs j d b) r.indirect2;
  password = λ i lt. set_chars_at passlen (128 * j + 68) d.password (with_indirect2 j d b) i lt;
}

-- The other inodes of the block are as before.
pub read-write_other :
    (i j : ℕ) (d : Dinode) (b : Block)
    → i ≢ j
    → SameInode (read_dinode i (write_dinode j d b)) (read_dinode i b)
unfolding last read_dinode
read-write_other i j d b ne = record {
  type = half_at-ext (last j d b) b (64 * i) (λ o e. outside j d b o (omega arith));
  major = half_at-ext (last j d b) b (64 * i + 1) (λ o e. outside j d b o (omega arith));
  minor = half_at-ext (last j d b) b (64 * i + 2) (λ o e. outside j d b o (omega arith));
  nlink = half_at-ext (last j d b) b (64 * i + 3) (λ o e. outside j d b o (omega arith));
  size = word_at-ext (last j d b) b (32 * i + 2) (λ o e. outside j d b o (omega arith));
  addrs =
      λ x lt. word_at-ext (last j d b) b (32 * i + 3 + x) (λ o e. outside j d b o (omega arith));
  indirect2 = word_at-ext (last j d b) b (32 * i + 16) (λ o e. outside j d b o (omega arith));
  password = λ x lt. outside j d b (128 * i + 68 + x) (omega arith);
}
