-- ===== src/Strings/Tests.antt =====
-- string.c at concrete inputs.
use model_lib.Base.{
  ℕ, ◌+◌, ◌-◌, ◌≤◌, ◌<◌, ◌≡◌, ◌≢◌, ◌↔◌, refl, true, ◌&&◌, some, ltb, leb, ◌==◌, if◌then◌else◌,
  arith,
}
use model_lib.Strings.{memmove, strncmp, is_zero, safestrcpy, strlen}
use model_lib.Strings.Move.{memmove_lem}
use model_lib.Strings.Copy.{Copied, safestrcpy_lem}
use model_lib.Strings.Compare.{strncmp_lem, strlen_lem}

-- Byte `i` is `10 + i`.
abbrev counting : ℕ → ℕ
counting a = 10 + a

-- The string "sh".
abbrev sh : ℕ → ℕ
sh i = if i == 0 then 115 else if i == 1 then 104 else 0

overlap : memmove 2 0 3 counting 4 ≡ 12
unfolding memmove
overlap = refl

memmove_lem_example :
    memmove 2 0 3 counting 4
    ≡ (if leb 2 4 && ltb 4 (2 + 3) then counting (0 + (4 - 2)) else counting 4)
memmove_lem_example = memmove_lem 2 0 3 counting 4

first_five :
    (k : ℕ) × Copied 0 k counting (safestrcpy sh counting 5)
    × (k < 5)
    × (safestrcpy sh counting 5 k ≡ 0)
    × (k + 1 < 5 → counting k ≡ 0)
    × ((x : ℕ) → 5 ≤ x → safestrcpy sh counting 5 x ≡ sh x)
first_five = safestrcpy_lem sh counting 5 (omega arith)

two_compared :
    (is_zero (strncmp sh counting 4) ≡ true)
    ↔ ((x : ℕ) → x < 4 → ((j : ℕ) → j < x → sh j ≢ 0) → sh x ≡ counting x)
two_compared = strncmp_lem sh counting 4

one_measured : strlen 10 sh ≡ some 2
one_measured = strlen_lem 10 2 sh (omega arith) refl (λ j lt. ground arith)
