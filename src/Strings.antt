-- ===== src/Strings.antt =====
-- string.c. A block of memory that a pointer leads to is a function of the offset; `memmove`, whose two
-- blocks may overlap, works on one memory at addresses. `memset` is left out: it is written in the
-- machine's string instructions.
pub mod Move
pub mod Copy
pub mod Compare
mod Tests
use model_lib.Base.{
  ℕ, zero, suc, ◌+◌, Bool, true, not, ◌&&◌, Option, none, some, ◌==◌, ltb, if◌then◌else◌,
}
use model_lib.Base.Family.{update}

-- The loop from the end: `n` bytes are left.
pub copy_down : ℕ → ℕ → ℕ → (ℕ → ℕ) → ℕ → ℕ
copy_down zero d s mem = mem
copy_down (suc n) d s mem = copy_down n d s (update mem (d + n) (mem (s + n)))

-- The loop from the start.
pub copy_up : ℕ → ℕ → ℕ → (ℕ → ℕ) → ℕ → ℕ
copy_up zero d s mem = mem
copy_up (suc n) d s mem = copy_up n (d + 1) (s + 1) (update mem d (mem s))

pub memmove : ℕ → ℕ → ℕ → (ℕ → ℕ) → ℕ → ℕ
unfolding copy_down copy_up
memmove dst src n mem =
    if ltb src dst && ltb dst (src + n) then copy_down n dst src mem else copy_up n dst src mem

-- The bytes whose difference `memcmp` returns, and none if it returns 0.
pub memcmp : ℕ → ℕ → (ℕ → ℕ) → (ℕ → ℕ) → Option (ℕ × ℕ)
memcmp zero i s1 s2 = none
memcmp (suc n) i s1 s2 =
    let rest = memcmp n (i + 1) s1 s2 in if not (s1 i == s2 i) then some (s1 i, s2 i) else rest

-- The bytes whose difference `strncmp` returns, and none if it returns 0 as `n` has run out. The second
-- argument counts the bytes that are done.
pub strncmp_from : ℕ → ℕ → (ℕ → ℕ) → (ℕ → ℕ) → Option (ℕ × ℕ)
strncmp_from zero i p q = none
strncmp_from (suc n) i p q =
    let rest = strncmp_from n (i + 1) p q in
    if not (p i == 0) && p i == q i then rest else some (p i, q i)

unfoldable pub strncmp : (ℕ → ℕ) → (ℕ → ℕ) → ℕ → Option (ℕ × ℕ)
unfolding strncmp_from
strncmp p q n = strncmp_from n 0 p q

-- Does `memcmp` or `strncmp` return 0?
abbrev pub is_zero : Option (ℕ × ℕ) → Bool
is_zero none = true
is_zero (some (a, b)) = a == b

-- `while(n-- > 0) *s++ = 0` from offset `i` on.
pub zero_out : ℕ → ℕ → (ℕ → ℕ) → ℕ → ℕ
zero_out zero i s = s
zero_out (suc n) i s = zero_out n (i + 1) (update s i 0)

-- Both loops of `strncpy`, from offset `i` on.
pub strncpy_from : ℕ → ℕ → (ℕ → ℕ) → (ℕ → ℕ) → ℕ → ℕ
unfolding zero_out
strncpy_from zero i s t = s
strncpy_from (suc n) i s t =
    let s' = update s i (t i) in
    let rest = strncpy_from n (i + 1) s' t in if t i == 0 then zero_out n (i + 1) s' else rest

unfoldable pub strncpy : (ℕ → ℕ) → (ℕ → ℕ) → ℕ → ℕ → ℕ
unfolding strncpy_from
strncpy s t n = strncpy_from n 0 s t

-- The loop of `safestrcpy`, for which `--n` leaves `n`, with the NUL that follows it. When the loop ends at
-- a NUL, `*s = 0` writes one more after it.
pub safestrcpy_from : ℕ → ℕ → (ℕ → ℕ) → (ℕ → ℕ) → ℕ → ℕ
safestrcpy_from zero i s t = update s i 0
safestrcpy_from (suc n) i s t =
    let s' = update s i (t i) in
    let rest = safestrcpy_from n (i + 1) s' t in if t i == 0 then update s' (i + 1) 0 else rest

unfoldable pub safestrcpy : (ℕ → ℕ) → (ℕ → ℕ) → ℕ → ℕ → ℕ
unfolding safestrcpy_from
safestrcpy s t zero = s
safestrcpy s t (suc n) = safestrcpy_from n 0 s t

-- The loop of `strlen` for at most `fuel` bytes.
pub strlen_from : ℕ → ℕ → (ℕ → ℕ) → Option ℕ
strlen_from zero n s = none
strlen_from (suc fuel) n s =
    let rest = strlen_from fuel (n + 1) s in if not (s n == 0) then rest else some n

pub strlen : ℕ → (ℕ → ℕ) → Option ℕ
unfolding strlen_from
strlen fuel s = strlen_from fuel 0 s
