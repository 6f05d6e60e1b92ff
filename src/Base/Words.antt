-- ===== src/Base/Words.antt =====
-- Little-endian `uint`s in a block of bytes, as a cast to `uint *` reads and writes them.
use Prim.Native.Nat.{ℕ, ◌+◌, ◌*◌, ◌/◌, ◌%◌, ◌^◌, ◌<◌}
use mathlib.Core.Path.{◌≡◌, refl, sym, ap, ◌∙◌}
use mathlib.Core.Logic.{◌≢◌}
use native.Mathlib.Omega.{arith}
use model_lib.Base.Tests.{◌==◌, ==_iff, if◌then◌else◌}

-- Byte `c` of a word.
abbrev byte_of : ℕ → ℕ → ℕ
byte_of w c =
    if c == 0
    then w % 256
    else (if c == 1
        then w / 256 % 256
        else (if c == 2 then w / 65536 % 256 else w / 16777216 % 256))

-- a[i] for `uint *a`
unfoldable pub word_at : (ℕ → ℕ) → ℕ → ℕ
word_at b i = b (4 * i) + 256 * b (4 * i + 1) + 65536 * b (4 * i + 2) + 16777216 * b (4 * i + 3)

-- a[i] = w
unfoldable pub set_word : ℕ → ℕ → (ℕ → ℕ) → ℕ → ℕ
set_word i w b o = if o / 4 == i then byte_of w (o % 4) else b o

-- The four bytes of the word that is set.
set_word_byte : (i w : ℕ) (b : ℕ → ℕ) (c : ℕ) → c < 4 → set_word i w b (4 * i + c) ≡ byte_of w c
unfolding set_word
set_word_byte i w b c h =
    let word : (4 * i + c) / 4 ≡ i = omega arith in
    let byte : (4 * i + c) % 4 ≡ c = omega arith in rw (word, byte, (==_iff i i).1 refl)

byte_sum :
    (w : ℕ)
    → w < 2 ^ 32
    → w % 256 + 256 * (w / 256 % 256) + 65536 * (w / 65536 % 256) + 16777216 * (w / 16777216 % 256)
      ≡ w
byte_sum w h = omega arith

pub word_at-set_word_self : (i w : ℕ) (b : ℕ → ℕ) → w < 2 ^ 32 → word_at (set_word i w b) i ≡ w
unfolding word_at
word_at-set_word_self i w b h =
    let b₀ : set_word i w b (4 * i) ≡ w % 256 =
      (let e : 4 * i ≡ 4 * i + 0 = omega arith in
        ap (set_word i w b) e ∙ set_word_byte i w b 0 (omega arith)) in
    rw
      (
        b₀,
        set_word_byte i w b 1 (omega arith),
        set_word_byte i w b 2 (omega arith),
        set_word_byte i w b 3 (omega arith),
      )
      (byte_sum w h)

set_word_other :
    (i j w : ℕ) (b : ℕ → ℕ) (c : ℕ) → i ≢ j → c < 4 → set_word i w b (4 * j + c) ≡ b (4 * j + c)
unfolding set_word
set_word_other i j w b c ne h = ground arith

pub word_at-set_word_ne : (i j w : ℕ) (b : ℕ → ℕ) → i ≢ j → word_at (set_word i w b) j ≡ word_at b j
unfolding word_at
word_at-set_word_ne i j w b ne =
    let b₀ : set_word i w b (4 * j) ≡ b (4 * j) =
      (let e : 4 * j ≡ 4 * j + 0 = omega arith in
        ap (set_word i w b) e ∙ set_word_other i j w b 0 ne (omega arith) ∙ ap b (sym e)) in
    rw (
      b₀,
      set_word_other i j w b 1 ne (omega arith),
      set_word_other i j w b 2 ne (omega arith),
      set_word_other i j w b 3 ne (omega arith),
    )
