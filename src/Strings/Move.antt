-- ===== src/Strings/Move.antt =====
-- `memmove` against a copy in one step.
use model_lib.Base.{
  ℕ, zero, suc, ◌+◌, ◌-◌, ◌≤◌, ◌<◌, ◌≡◌, ◌⊎◌, ap, inl, inr, ◌&&◌, ◌==◌, ltb, leb, if◌then◌else◌,
  Bool-cases, arith,
}
use model_lib.Base.Family.{update}
use model_lib.Strings.{copy_down, copy_up, memmove}

-- The memory after all `n` bytes from `s` on are copied to `d` at once.
abbrev pub moved : ℕ → ℕ → ℕ → (ℕ → ℕ) → ℕ → ℕ
moved d s n mem a = if leb d a && ltb a (d + n) then mem (s + (a - d)) else mem a

copy_down_lem :
    (n d s : ℕ) (mem : ℕ → ℕ) (a : ℕ) → s < d → copy_down n d s mem a ≡ moved d s n mem a
unfolding copy_down
copy_down_lem zero d s mem a lt = ground arith
copy_down_lem (suc n) d s mem a lt = elim (Bool-cases (a == d + n)) [
  | inl q ↦
      let e : s + (a - d) ≡ s + n = ground arith in
      ground (arith, copy_down_lem n d s (update mem (d + n) (mem (s + n))) a lt, ap mem e)
  | inr q ↦ ground (arith, copy_down_lem n d s (update mem (d + n) (mem (s + n))) a lt)
]

copy_up_lem :
    (n d s : ℕ) (mem : ℕ → ℕ) (a : ℕ)
    → (d ≤ s) ⊎ (s + n ≤ d)
    → copy_up n d s mem a ≡ moved d s n mem a
unfolding copy_up
copy_up_lem zero d s mem a apart = ground arith
copy_up_lem (suc n) d s mem a apart =
    let later : (d + 1 ≤ s + 1) ⊎ (s + 1 + n ≤ d + 1) = elim apart [
      | inl h ↦ inl (omega arith)
      | inr h ↦ inr (omega arith)
    ] in
    elim (Bool-cases (a == d)) [
      | inl q ↦
          let e : s + (a - d) ≡ s = ground arith in
          ground (arith, copy_up_lem n (d + 1) (s + 1) (update mem d (mem s)) a later, ap mem e)
      | inr q ↦ elim (Bool-cases (ltb d a)) [
        | inl lt ↦
            let e : s + 1 + (a - (d + 1)) ≡ s + (a - d) = ground arith in
            ground (arith, copy_up_lem n (d + 1) (s + 1) (update mem d (mem s)) a later, ap mem e)
        | inr ge ↦ ground (arith, copy_up_lem n (d + 1) (s + 1) (update mem d (mem s)) a later)
      ]
    ]

-- After `memmove` the `n` bytes from `dst` on are those that were from `src` on before, also
-- where the two blocks overlap, and all other bytes are as before.
pub memmove_lem :
    (dst src n : ℕ) (mem : ℕ → ℕ) (a : ℕ)
    → memmove dst src n mem a
      ≡ (if leb dst a && ltb a (dst + n) then mem (src + (a - dst)) else mem a)
unfolding memmove
memmove_lem dst src n mem a = elim (Bool-cases (ltb src dst && ltb dst (src + n))) [
  | inl q ↦ rw q (copy_down_lem n dst src mem a (ground arith))
  | inr q ↦ rw q (copy_up_lem n dst src mem a (ground arith))
]
