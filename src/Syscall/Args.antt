-- ===== src/Syscall/Args.antt =====
-- Which memory the checks of syscall.c let a system call use.
use model_lib.Base.{
  ℕ, ◌+◌, ◌-◌, ◌^◌, ◌%◌, ◌≤◌, ◌<◌, ◌≡◌, ◌≢◌, ◌⊎◌, ◌↔◌, refl, sym, ap, inl, inr, Bool, false, ◌||◌,
  Option, none, some, Option-cases, ◌==◌, ltb, leb, Bool-cases, arith,
}
use mathlib.Core.Path.{subst}
use model_lib.Base.Search.{search_from, search_from-some, search_from-none, search_from-first}
use model_lib.Kalloc.{kernbase}
use model_lib.Syscall.{User, fetchstr, argint, checked_ptr, argptr}

-- The block of `size` bytes that begins at `p` lies in the memory of the process.
abbrev pub InMemory : User → ℕ → ℕ → Type 0
InMemory u p size = (p < u.sz) × (p + size ≤ u.sz)

some-injective : (a b : ℕ) → ◌≡◌ {A = Option ℕ} (some a) (some b) → a ≡ b
some-injective a b e = ap (λ (o : Option ℕ). elim o [ some x ↦ x | none ↦ a ]) e

refused : (u : User) (i m : ℕ) → Bool
refused u i m = leb u.sz i || ltb u.sz (m % 2 ^ 32)

refused_iff :
    (u : User) (i m : ℕ) → m < 2 ^ 32 → (refused u i m ≡ false) ↔ ((i < u.sz) × (m ≤ u.sz))
unfolding refused
refused_iff u i m lt = (let e : m % 2 ^ 32 ≡ m = omega arith in rw e (ground arith))

below : (u : User) (i m : ℕ) → refused u i m ≡ false → i < u.sz
unfolding refused
below u i m f = ground arith

checked_ptr-some :
    (u : User) (size p : ℕ) (o : Option ℕ)
    → checked_ptr size u o ≡ some p
    → (o ≡ some p) × (refused u p (p + size) ≡ false)
unfolding refused
checked_ptr-some u size p none e = cc
checked_ptr-some u size p (some i) e = elim (Bool-cases (refused u i (i + size))) [
  | inl t ↦ absurd (ground arith)
  | inr f ↦
      let i_eq : i ≡ p = ground arith in
      (ap some i_eq, subst (λ j. refused u j (j + size) ≡ false) i_eq f)
]

accepted :
    (u : User) (size p : ℕ) → refused u p (p + size) ≡ false → checked_ptr size u (some p) ≡ some p
unfolding refused
accepted u size p f = cc f

refused-at : (u : User) (i m w : ℕ) → m % 2 ^ 32 ≡ w → i < u.sz → w ≤ u.sz → refused u i m ≡ false
unfolding refused
refused-at u i m w e lt le = rw e (ground arith)

-- For a process below KERNBASE and a size that is not negative as an int, `argptr` returns a pointer exactly if it
-- is the argument and its block lies in the memory of the process.
pub argptr_lem :
    (u : User) (n size p : ℕ)
    → u.sz ≤ kernbase
    → size < 2 ^ 31
    → (argptr n size u ≡ some p) ↔ ((argint n u ≡ some p) × InMemory u p size)
unfolding argptr
argptr_lem u n size p sz_le size_lt = (
  λ e.
      let (arg, f) = checked_ptr-some u size p (argint n u) e in
      let lt : p < u.sz = below u p (p + size) f in
      (arg, (refused_iff u p (p + size) (omega arith)).0 f),
  λ (arg, (lt, le)).
      subst (λ o. checked_ptr size u o ≡ some p) (sym arg)
        (accepted u size p ((refused_iff u p (p + size) (omega arith)).1 (lt, le))),
)

-- The size -k, as an unsigned number, wraps around: `argptr` accepts each pointer into the memory of the
-- process that is not below k, and checks nothing of the block behind it.
pub argptr-negative :
    (u : User) (n k p : ℕ)
    → u.sz ≤ kernbase
    → 0 < k
    → k ≤ p
    → p < u.sz
    → argint n u ≡ some p
    → argptr n (2 ^ 32 - k) u ≡ some p
unfolding argptr
argptr-negative u n k p sz_le pos le lt e =
    let wraps : (p + (2 ^ 32 - k)) % 2 ^ 32 ≡ p - k = omega arith in
    subst (λ o. checked_ptr (2 ^ 32 - k) u o ≡ some p) (sym e)
      (accepted u (2 ^ 32 - k) p (wrapped wraps))
  where
    wrapped : (p + (2 ^ 32 - k)) % 2 ^ 32 ≡ p - k → refused u p (p + (2 ^ 32 - k)) ≡ false
    wrapped w = refused-at u p (p + (2 ^ 32 - k)) (p - k) w (omega arith) (omega arith)

-- What `fetchstr` returns is a pointer to a string of `len` bytes that ends, NUL included, inside the memory of the
-- process.
abbrev pub IsString : User → ℕ → ℕ × ℕ → Type 0
IsString u addr (p, len) =
    (p ≡ addr) × (p + len < u.sz) × (u.mem (p + len) ≡ 0) × ((j : ℕ) → j < len → u.mem (p + j) ≢ 0)

-- `fetchstr` returns the string at the address if it ends inside the memory of the process, and -1 exactly
-- if no NUL stands between the address and the end of that memory.
pub fetchstr_lem :
    (u : User) (addr : ℕ)
    → ((r : ℕ × ℕ) × (fetchstr u addr ≡ some r) × IsString u addr r)
      ⊎ ((fetchstr u addr ≡ none) × ((j : ℕ) → addr ≤ j → j < u.sz → u.mem j ≢ 0))
unfolding fetchstr
fetchstr_lem u addr = elim (Bool-cases (leb u.sz addr)) [
  | inl t ↦ inr (cc t, λ j le lt. absurd (ground arith))
  | inr f ↦ elim (Option-cases (search_from (λ s. u.mem s == 0) (u.sz - addr) addr)) [
    | inl e ↦ inr (
      cc (f, e),
      λ j le lt z.
          let miss : u.mem j == 0 ≡ false =
            search_from-none (λ s. u.mem s == 0) (u.sz - addr) addr j e le (ground arith) in
          ground arith,
    )
    | inr (s, e) ↦
        let (z, le, lt) = search_from-some (λ s. u.mem s == 0) (u.sz - addr) addr {j = s} e in
        let there : addr + (s - addr) ≡ s = omega arith in
        inl (
          (addr, s - addr),
          cc (f, e),
          (
            refl,
            ground arith,
            rw there (ground arith),
            λ j j_lt z'.
                let miss : u.mem (addr + j) == 0 ≡ false =
                  search_from-first (λ s. u.mem s == 0) (u.sz - addr) addr (addr + j) {j = s} e
                    (omega arith) (omega arith) in
                ground arith,
          ),
        )
  ]
]
