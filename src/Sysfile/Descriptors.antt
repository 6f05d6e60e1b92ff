-- ===== src/Sysfile/Descriptors.antt =====
-- The descriptors of a process and the references to files that they are.
use model_lib.Base.{
  ℕ, zero, suc, ◌+◌, ◌≤◌, ◌<◌, ◌≡◌, refl, ap, ◌∙◌, inl, inr, true, Option, none, some, Option-cases,
  List, [], ◌∷◌, ◌++◌, ◌==◌, ltb, if◌then◌else◌, Bool-cases, arith,
}
use mathlib.Core.Path.{subst}
use model_lib.Base.Outcome.{Returns, returns, Returns-bind, Yields, yields, Yields-bind}
use model_lib.Base.Family.{update, has, erase, count, count-move, count-pos}
use model_lib.Base.Search.{search_from, search_from-some}
use model_lib.Proc.{nofile}
use model_lib.Syscall.{User, argint}
use model_lib.File.{Ftable}
use model_lib.File.Services.{FileServices}
use model_lib.File.Holders.{IsCounted, held, filedup-Counted, fileclose-IsCounted}
use model_lib.Sysfile.{
  Ofile, is_null, file_of, argfd, taken, fdalloc, dup_on, dup_file, sys_dup, close_file, sys_close,
}

-- The files of the first `n` descriptors.
unfoldable pub files : ℕ → Ofile → List ℕ
files zero ofile = []
files (suc n) ofile = elim (ofile n) [ some f ↦ f ∷ files n ofile | none ↦ files n ofile ]

-- The references to files: those of the descriptors, and those of other processes.
abbrev pub references : Ofile → List ℕ → List ℕ
references ofile others = files nofile ofile ++ others

one_if : ℕ → ℕ → ℕ
one_if f i = if f == i then 1 else 0

one_of : Option ℕ → ℕ → ℕ
one_of none i = 0
one_of (some f) i = one_if f i

held-files :
    (n : ℕ) (ofile : Ofile) (others : List ℕ) (i : ℕ)
    → held (files (suc n) ofile ++ others) i ≡ one_of (ofile n) i + held (files n ofile ++ others) i
unfolding files count one_of one_if
held-files n ofile others i = by_file (ofile n)
  where
    by_file :
        (o : Option ℕ)
        → held
            (elim o as (λ _. List ℕ) [ some f ↦ f ∷ files n ofile | none ↦ files n ofile ]
              ++ others)
            i
          ≡ one_of o i + held (files n ofile ++ others) i
    by_file none = omega arith
    by_file (some f) = refl

files-above :
    (n fd : ℕ) (ofile : Ofile) (o : Option ℕ) → n ≤ fd → files n (update ofile fd o) ≡ files n ofile
unfolding files
files-above zero fd ofile o le = refl
files-above (suc n) fd ofile o le =
    let below : files n (update ofile fd o) ≡ files n ofile =
      files-above n fd ofile o (omega arith) in
    let kept : update ofile fd o n ≡ ofile n = ground arith in
    ap
      (λ r. elim r as (λ _. List ℕ) [
        | some f ↦ f ∷ files n (update ofile fd o)
        | none ↦ files n (update ofile fd o)
      ])
      kept
    ∙ ap (λ fs. elim (ofile n) as (λ _. List ℕ) [ some f ↦ f ∷ fs | none ↦ fs ]) below

-- A change of one descriptor.
held-update :
    (n fd : ℕ) (ofile : Ofile) (o : Option ℕ) (others : List ℕ) (i : ℕ)
    → fd < n
    → one_of (ofile fd) i + held (files n (update ofile fd o) ++ others) i
      ≡ one_of o i + held (files n ofile ++ others) i
held-update zero fd ofile o others i lt = absurd (omega arith)
held-update (suc n) fd ofile o others i lt =
    let new = held-files n (update ofile fd o) others i in
    let old = held-files n ofile others i in
    elim (Bool-cases (n == fd)) [
      | inl q ↦
          let fd_eq : n ≡ fd = ground arith in
          let set : update ofile fd o n ≡ o = ground arith in
          let rest : held (files n (update ofile fd o) ++ others) i
              ≡ held (files n ofile ++ others) i =
            ap (λ fs. held (fs ++ others) i) (files-above n fd ofile o (omega (arith, fd_eq))) in
          let set_i = ap (λ r. one_of r i) set in
          let here : one_of (ofile n) i ≡ one_of (ofile fd) i =
            ap (λ m. one_of (ofile m) i) fd_eq in
          omega (arith, new, old, rest, set_i, here)
      | inr q ↦
          let kept : update ofile fd o n ≡ ofile n = ground arith in
          let kept_i = ap (λ r. one_of r i) kept in
          omega (arith, new, old, kept_i, held-update n fd ofile o others i (ground arith))
    ]

IsCounted-same :
    (h h' : List ℕ) (t : Ftable) → ((i : ℕ) → held h i ≡ held h' i) → IsCounted h t → IsCounted h' t
IsCounted-same h h' t same v = record {
  counted = λ i. v.counted i ∙ same i;
  closed = λ i z. v.closed i z;
}

held-files-pos :
    (n fd f : ℕ) (ofile : Ofile) (others : List ℕ)
    → fd < n
    → ofile fd ≡ some f
    → 0 < held (files n ofile ++ others) f
unfolding one_of one_if
held-files-pos zero fd f ofile others lt e = absurd (omega arith)
held-files-pos (suc n) fd f ofile others lt e =
    let step = held-files n ofile others f in
    elim (Bool-cases (n == fd)) [
      | inl q ↦
          let fd_eq : n ≡ fd = ground arith in
          let here : one_of (ofile n) f ≡ one_if f f =
            ap (λ m. one_of (ofile m) f) fd_eq ∙ ap (λ r. one_of r f) e in
          let self : one_if f f ≡ 1 = ground arith in omega (arith, step, here, self)
      | inr q ↦ omega (arith, step, held-files-pos n fd f ofile others (ground arith) e)
    ]

held-has : (h : List ℕ) (f : ℕ) → 0 < held h f → has h f ≡ true
held-has h f pos =
    let (i, q, m) = count-pos (λ j. j == f) h pos in
    let i_eq : i ≡ f = ground arith in subst (λ j. has h j ≡ true) i_eq m

-- The descriptor that `argfd` gives is one of an open file.
file_of-some :
    (ofile : Ofile) (o : Option ℕ) (fd f : ℕ)
    → file_of ofile o ≡ some (fd, f)
    → (fd < nofile) × (ofile fd ≡ some f)
file_of-some ofile none fd f e = cc e
file_of-some ofile (some x) fd f e = elim (Bool-cases (ltb x nofile)) [
  | inl q ↦ elim (Option-cases (ofile x)) [
    | inl n ↦ cc (e, q, n)
    | inr (g, n) ↦
        let x_eq : x ≡ fd = cc (e, q, n) in
        let g_eq : g ≡ f = cc (e, q, n) in
        (ground arith, subst (λ y. ofile y ≡ some f) x_eq (n ∙ ap some g_eq))
  ]
  | inr q ↦ cc (e, q)
]

held-cons : (h : List ℕ) (f i : ℕ) → held (f ∷ h) i ≡ one_of (some f) i + held h i
unfolding count one_of one_if
held-cons h f i = refl

one_of-none : (i : ℕ) → one_of none i ≡ 0
unfolding one_of
one_of-none i = refl

held-closed :
    (fd f : ℕ) (ofile : Ofile) (others : List ℕ) (i : ℕ)
    → fd < nofile
    → ofile fd ≡ some f
    → has (references ofile others) f ≡ true
    → held (erase f (references ofile others)) i ≡ held (references (update ofile fd none) others) i
held-closed fd f ofile others i lt open_at here =
    let moved = count-move (λ j. j == i) f (references ofile others) here in
    let change = held-update nofile fd ofile none others i lt in
    omega (
      arith,
      moved,
      change,
      held-cons (erase f (references ofile others)) f i,
      one_of-none i,
      ap (λ r. one_of r i) open_at,
    )

fdalloc-IsCounted :
    (o : Option ℕ) (f : ℕ) (ofile : Ofile) (others : List ℕ) (t : Ftable)
    → IsCounted (references ofile others) t
    → has (references ofile others) f ≡ true
    → ((fd : ℕ) → o ≡ some fd → (fd < nofile) × (ofile fd ≡ none))
    → Returns (λ r. IsCounted (references r.1.0 others) r.1.1) (dup_on (taken o f ofile) f t)
fdalloc-IsCounted none f ofile others t v m free = returns _ v
fdalloc-IsCounted (some fd) f ofile others t v m free =
    let (lt, e) = free fd refl in
    Returns-bind _ (filedup-Counted (references ofile others) t f v m) λ t' v'. returns _ (
      IsCounted-same (f ∷ references ofile others) (references (update ofile fd (some f)) others) t'
        (λ i.
          let change = held-update nofile fd ofile (some f) others i lt in
          omega (
            arith,
            change,
            ap (λ r. one_of r i) e ∙ one_of-none i,
            held-cons (references ofile others) f i,
          ))
        v')

null_at : (o : Option ℕ) → is_null o ≡ true → o ≡ none
null_at none z = refl
null_at (some f) z = cc z

-- `sys_dup` keeps the counts of files the numbers of references to them, and returns.
pub sys_dup-IsCounted :
    (u : User) (ofile : Ofile) (others : List ℕ) (t : Ftable)
    → IsCounted (references ofile others) t
    → Returns (λ r. IsCounted (references r.1.0 others) r.1.1) (sys_dup u ofile t)
unfolding sys_dup fdalloc argfd
sys_dup-IsCounted u ofile others t v = by_arg (file_of ofile (argint 0 u)) refl
  where
    by_arg :
        (r : Option (ℕ × ℕ))
        → file_of ofile (argint 0 u) ≡ r
        → Returns (λ r. IsCounted (references r.1.0 others) r.1.1) (dup_file r ofile t)
    by_arg none e = returns _ v
    by_arg (some (fd, f)) e =
        let (lt, open_at) = file_of-some ofile (argint 0 u) fd f e in
        fdalloc-IsCounted (search_from (λ x. is_null (ofile x)) nofile 0) f ofile others t v
          (held-has (references ofile others) f
            (held-files-pos nofile fd f ofile others lt open_at))
          (λ x ex.
            let (z, _, x_lt) = search_from-some (λ y. is_null (ofile y)) nofile 0 {j = x} ex in
            (omega arith, null_at (ofile x) z))

module _ {S : Type 0} (os : FileServices S) where
  -- `sys_close` keeps the counts of files the numbers of references to them, where it returns.
  pub sys_close-IsCounted :
      (u : User) (ofile : Ofile) (others : List ℕ) (t : Ftable) (s : S)
      → IsCounted (references ofile others) t
      → Yields (λ r. IsCounted (references r.1.0 others) r.1.1.0) (sys_close os u ofile t s)
  unfolding sys_close argfd
  sys_close-IsCounted u ofile others t s v = by_arg (file_of ofile (argint 0 u)) refl
    where
      by_arg :
          (r : Option (ℕ × ℕ))
          → file_of ofile (argint 0 u) ≡ r
          → Yields (λ r. IsCounted (references r.1.0 others) r.1.1.0) (close_file os r ofile t s)
      by_arg none e = yields _ v
      by_arg (some (fd, f)) e =
          let (lt, open_at) = file_of-some ofile (argint 0 u) fd f e in
          let here : has (references ofile others) f ≡ true =
            held-has (references ofile others) f
              (held-files-pos nofile fd f ofile others lt open_at) in
          Yields-bind _ (fileclose-IsCounted os (references ofile others) t f s v here)
            λ (t', s') v'. yields _ (
              IsCounted-same (erase f (references ofile others))
                (references (update ofile fd none) others) t'
                (λ i. held-closed fd f ofile others i lt open_at here) v')

  -- While the counts of files are the numbers of references to them, `sys_dup` returns and keeps them so, and so does
  -- `sys_close` where it returns.
  pub descriptors-IsCounted :
      (u : User) (ofile : Ofile) (others : List ℕ) (t : Ftable) (s : S)
      → IsCounted (references ofile others) t
      → Returns (λ r. IsCounted (references r.1.0 others) r.1.1) (sys_dup u ofile t)
        × Yields (λ r. IsCounted (references r.1.0 others) r.1.1.0) (sys_close os u ofile t s)
  descriptors-IsCounted u ofile others t s v =
      (sys_dup-IsCounted u ofile others t v, sys_close-IsCounted u ofile others t s v)
