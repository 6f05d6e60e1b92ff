-- ===== src/File/Passwords.antt =====
-- The passwords of files, file.c 158-269. A return value is true for 0 and false for -1. Pathnames are
-- looked up by the record `Paths`; its `ilock` is the whole call, up to its return.
use model_lib.Base.{
  ℕ, ◌+◌, ◌<◌, ◌≡◌, ◌≢◌, ◌↔◌, refl, false≢true, sym, ◌∙◌, inl, inr, Bool, true, false, not, ◌&&◌,
  ◌||◌, ltb, Option, none, some, ◌==◌, if◌then◌else◌, Bool-cases, arith,
}
use mathlib.Core.Path.{subst}
use model_lib.Base.Outcome.{Outcome, ok, ◌>>=◌}
use model_lib.Base.Family.{update}
use model_lib.Strings.{safestrcpy, strncmp, is_zero}
use model_lib.Strings.Copy.{Copied, safestrcpy_lem}
use model_lib.Strings.Compare.{strncmp_lem}
use model_lib.Unlocked.{Pids, unlock_inode}
use model_lib.Fs.Dinode.{passlen, Dinode}
use model_lib.Fs.Inode.{Icache, iunlock}

pub record Paths (S : Type 0) : Type 0 where
  pub filereadlinki : (pathname : ℕ → ℕ) → Icache × S → Outcome (Option (ℕ → ℕ) × (Icache × S))
  pub namei : (path : ℕ → ℕ) → Icache × S → Outcome (Option ℕ × (Icache × S))
  pub ilock : (ip : ℕ) → Icache × S → Outcome (Icache × S)
  pub is_inode_open : (ip : ℕ) → Icache × S → Bool

-- ip->password[0] != '\0'
abbrev pub has_password : Dinode → Bool
has_password d = not (d.password 0 == 0)

-- strncmp(ip->password, password, PASSLEN) == 0
pub is_password : Dinode → (ℕ → ℕ) → Bool
is_password d password = is_zero (strncmp d.password password passlen)

-- safestrcpy(ip->password, password, PASSLEN)
pub set_password : (ℕ → ℕ) → Dinode → Dinode
set_password password d = record d { password = safestrcpy d.password password passlen }

-- ip->password[0] = '\0'
pub remove_password : Dinode → Dinode
remove_password d = record d { password = update d.password 0 0 }

abbrev change : ℕ → (Dinode → Dinode) → Icache → Icache
change i f c = update c i (record (c i) { copy = f (c i).copy })

-- T_FILE
abbrev pub t_file : ℕ
t_file = 2

module _ {S : Type 0} (ps : Paths S) where
  -- Both lookups; none where one of them fails.
  pub name_on : Option (ℕ → ℕ) → Icache × S → Outcome (Option ℕ × (Icache × S))
  name_on none k = ok (none, k)
  name_on (some final_path) k = ps.namei final_path k

  pub find : (ℕ → ℕ) → Icache × S → Outcome (Option ℕ × (Icache × S))
  unfolding name_on
  find pathname k = do (o, k₁) ← ps.filereadlinki pathname k; name_on o k₁

  pub protect : (ℕ → ℕ) → Option ℕ → Icache × S → Outcome (Bool × (Icache × S))
  unfolding set_password
  protect password none k = ok (false, k)
  protect password (some i) k = do
    (c, s) ← ps.ilock i k
    let may =
        (c i).copy.type == t_file
        && not (has_password (c i).copy)
        && not (ps.is_inode_open i (c, s))
    c' ← iunlock i (if may then change i (set_password password) c else c)
    ok (may, (c', s))

  pub filefprot : (pathname password : ℕ → ℕ) → Icache × S → Outcome (Bool × (Icache × S))
  unfolding find protect
  filefprot pathname password k = do (o, k₁) ← find pathname k; protect password o k₁

  pub unprotect : (ℕ → ℕ) → Option ℕ → Icache × S → Outcome (Bool × (Icache × S))
  unfolding is_password remove_password
  unprotect password none k = ok (false, k)
  unprotect password (some i) k = do
    (c, s) ← ps.ilock i k
    let d = (c i).copy
    c' ←
        iunlock i
          (if has_password d && is_password d password then change i remove_password c else c)
    ok (not (has_password d) || is_password d password, (c', s))

  pub filefunprot : (pathname password : ℕ → ℕ) → Icache × S → Outcome (Bool × (Icache × S))
  unfolding find unprotect
  filefunprot pathname password k = do (o, k₁) ← find pathname k; unprotect password o k₁

  -- For the process `pid`.
  pub unlock : ℕ → (ℕ → ℕ) → Option ℕ → Pids → Icache × S → Outcome (Bool × (Pids × (Icache × S)))
  unfolding is_password
  unlock pid password none t k = ok (false, (t, k))
  unlock pid password (some i) t k = do
    (c, s) ← ps.ilock i k
    let may = has_password (c i).copy && is_password (c i).copy password
    t' ← (if may then unlock_inode (c i).inum pid t else ok t)
    c' ← iunlock i c
    ok (may, (t', (c', s)))

  pub filefunlock :
      ℕ → (pathname password : ℕ → ℕ) → Pids → Icache × S → Outcome (Bool × (Pids × (Icache × S)))
  unfolding find unlock
  filefunlock pid pathname password t k = do (o, k₁) ← find pathname k; unlock pid password o t k₁

-- The copy ends where the source does, if the source ends early enough.
copy-ends :
    (k m n : ℕ) (t r : ℕ → ℕ)
    → Copied 0 k t r
    → k < n
    → (k + 1 < n → t k ≡ 0)
    → m < n
    → t m ≡ 0
    → t k ≡ 0
copy-ends k m n t r c lt stop m_lt z = elim (Bool-cases (ltb (k + 1) n)) [
  | inl q ↦ stop (ground arith)
  | inr q ↦ elim (Bool-cases (ltb m k)) [
    | inl early ↦ absurd ((c.same m (omega arith) (ground arith)).1 z)
    | inr late ↦ (let e : m ≡ k = ground arith in subst (λ x. t x ≡ 0) e z)
  ]
]

copy-same :
    (k x : ℕ) (t r : ℕ → ℕ)
    → Copied 0 k t r
    → r k ≡ 0
    → t k ≡ 0
    → ((j : ℕ) → j < x → r j ≢ 0)
    → r x ≡ t x
copy-same k x t r c ends stops before = elim (Bool-cases (ltb x k)) [
  | inl q ↦ (c.same x (omega arith) (ground arith)).0
  | inr q ↦ elim (Bool-cases (x == k)) [
    | inl here ↦ (let e : k ≡ x = ground arith in subst (λ y. r y ≡ t y) e (ends ∙ sym stops))
    | inr past ↦ absurd (before k (ground arith) ends)
  ]
]

-- A password compares as equal with what is stored of it exactly when it has fewer than PASSLEN characters: a
-- longer one is cut off when it is stored, but compared in full.
pub is_password-set_password :
    (d : Dinode) (password : ℕ → ℕ)
    → (is_password (set_password password d) password ≡ true)
      ↔ ((k : ℕ) × (k < passlen) × (password k ≡ 0))
unfolding is_password set_password
is_password-set_password d password =
    let stored : ℕ → ℕ = safestrcpy d.password password passlen in
    let (k, c, lt, ends, stop, _) = safestrcpy_lem d.password password passlen (omega arith) in
    let (sound, complete) = strncmp_lem stored password passlen in
    (
      λ h. (
        k,
        lt,
        sym (
              sound h k lt (λ j j_lt e.
                let (same, nonzero) = c.same j (omega arith) j_lt in nonzero (sym same ∙ e)))
            ∙ ends,
      ),
      λ (m, m_lt, z). complete λ x x_lt before.
          copy-same k x password stored c ends
            (copy-ends k m passlen password stored c lt stop m_lt z) before,
    )

-- The test on which `filefunlock` unlocks an inode and `filefunprot` takes its password away, of the password that
-- `filefprot` has stored before: it passes exactly when this password is not empty and has fewer than PASSLEN
-- characters. A longer one is cut off when it is stored, but compared in full.
pub accepts-set_password :
    (d : Dinode) (password : ℕ → ℕ)
    → (has_password (set_password password d) && is_password (set_password password d) password
        ≡ true)
      ↔ ((password 0 ≢ 0) × ((k : ℕ) × (k < passlen) × (password k ≡ 0)))
unfolding set_password
accepts-set_password d password =
    let stored : ℕ → ℕ = safestrcpy d.password password passlen in
    let (k, c, lt, ends, stop, _) = safestrcpy_lem d.password password passlen (omega arith) in
    let (sound, complete) = is_password-set_password d password in
    (
      λ h. elim (Bool-cases (k == 0)) [
        | inl z ↦
            let k_eq : k ≡ 0 = ground arith in
            let empty : stored 0 ≡ 0 = subst (λ x. stored x ≡ 0) k_eq ends in
            absurd (ground (arith, h, empty))
        | inr nz ↦
            let (same, nonzero) = c.same 0 (omega arith) (ground arith) in
            (nonzero, sound (both h).1)
      ],
      λ (nonzero, short). elim (Bool-cases (k == 0)) [
        | inl z ↦
            let k_eq : k ≡ 0 = ground arith in
            absurd (nonzero (subst (λ x. password x ≡ 0) k_eq (stop (omega (arith, k_eq)))))
        | inr nz ↦
            let (same, _) = c.same 0 (omega arith) (ground arith) in
            let there : has_password (set_password password d) ≡ true =
              ground (arith, same, nonzero) in
            cc (there, complete short)
      ],
    )
  where
    both : {a b : Bool} → (a && b) ≡ true → (a ≡ true) × (b ≡ true)
    both {a = true} e = (refl, e)
    both {a = false} e = absurd (false≢true e)
