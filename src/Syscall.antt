-- ===== src/Syscall.antt =====
-- syscall.c: the arguments of a system call, which the process has on its stack. An `int` is its 32-bit
-- word. A null return is none.
pub mod Args
use model_lib.Base.{
  ℕ, zero, suc, ◌+◌, ◌-◌, ◌*◌, ◌/◌, ◌%◌, ◌^◌, Bool, ◌||◌, Option, none, some, ◌==◌, ltb, leb,
  if◌then◌else◌,
}
use model_lib.Base.Search.{search_from}

-- What the functions read of a process: its size, its stack pointer at the trap and its bytes.
pub record User : Type 0 where
  pub sz : ℕ
  pub esp : ℕ
  pub mem : ℕ → ℕ

-- *(int*)(addr)
unfoldable pub int_at : (ℕ → ℕ) → ℕ → ℕ
int_at mem a = mem a + 256 * mem (a + 1) + 65536 * mem (a + 2) + 16777216 * mem (a + 3)

unfoldable pub fetchint : User → ℕ → Option ℕ
unfolding int_at
fetchint u addr =
    if leb u.sz addr || ltb u.sz ((addr + 4) % 2 ^ 32) then none else some (int_at u.mem addr)

abbrev pub found_string : ℕ → Option ℕ → Option (ℕ × ℕ)
found_string addr none = none
found_string addr (some s) = some (addr, s - addr)

-- *pp, and the length that is returned.
unfoldable pub fetchstr : User → ℕ → Option (ℕ × ℕ)
fetchstr u addr =
    if leb u.sz addr
    then none
    else found_string addr (search_from (λ s. u.mem s == 0) (u.sz - addr) addr)

unfoldable pub argint : ℕ → User → Option ℕ
unfolding fetchint
argint n u = fetchint u ((u.esp + 4 + 4 * n) % 2 ^ 32)

abbrev pub checked_ptr : ℕ → User → Option ℕ → Option ℕ
checked_ptr size u none = none
checked_ptr size u (some i) = if leb u.sz i || ltb u.sz ((i + size) % 2 ^ 32) then none else some i

pub argptr : ℕ → ℕ → User → Option ℕ
unfolding argint
argptr n size u = checked_ptr size u (argint n u)

abbrev pub string_at : User → Option ℕ → Option (ℕ × ℕ)
string_at u none = none
string_at u (some addr) = fetchstr u addr

unfoldable pub argstr : ℕ → User → Option (ℕ × ℕ)
unfolding argint fetchstr
argstr n u = string_at u (argint n u)
