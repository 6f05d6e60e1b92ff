-- ===== src/Dirs/Entries.antt =====
-- The entries in the contents of a directory, and an entry that is filled in.
use model_lib.Base.{
  ℕ, ◌+◌, ◌-◌, ◌*◌, ◌^◌, ◌≤◌, ◌<◌, ◌≡◌, ◌≢◌, ◌⊎◌, refl, sym, ap, ◌∙◌, inl, inr, Bool, true, not,
  ◌&&◌, Option, none, some, ◌==◌, ltb, leb, if◌then◌else◌, Bool-cases, arith,
}
use model_lib.Base.Search.{search_from, search_from-none, search_from-at}
use model_lib.Strings.{strncpy, is_zero}
use model_lib.Strings.Copy.{strncpy_lem}
use model_lib.Strings.Compare.{strncmp-ext, strncmp_lem}
use model_lib.Dirs.{same_name, dirent_inum, dirent_name, filled}

-- The entry `k` of the directory whose contents are `v`.
abbrev pub entry : (ℕ → ℕ) → ℕ → ℕ → ℕ
entry v k i = v (16 * k + i)

abbrev pub inum_at : (ℕ → ℕ) → ℕ → ℕ
inum_at v k = dirent_inum (entry v k)

-- Is the entry in use, with this name?
abbrev pub matches : (ℕ → ℕ) → (ℕ → ℕ) → Bool
matches name de = not (dirent_inum de == 0) && same_name name (dirent_name de)

-- The first of `n` entries with the name.
abbrev pub find_entry : (ℕ → ℕ) → (ℕ → ℕ) → ℕ → Option ℕ
find_entry name v n = search_from (λ k. matches name (entry v k)) n 0

-- The contents with `de` as the entry `k`.
abbrev pub with_entry : (ℕ → ℕ) → ℕ → (ℕ → ℕ) → ℕ → ℕ
with_entry v k de o = if leb (16 * k) o && ltb o (16 * k + 16) then de (o - 16 * k) else v o

same_name-ext : (p q r : ℕ → ℕ) → ((x : ℕ) → x < 14 → q x ≡ r x) → same_name p q ≡ same_name p r
unfolding same_name
same_name-ext p q r same = ap is_zero (strncmp-ext 14 p q r same)

-- The test reads no byte behind the entry.
pub matches-ext :
    (name de de' : ℕ → ℕ) → ((x : ℕ) → x < 16 → de x ≡ de' x) → matches name de ≡ matches name de'
matches-ext name de de' same = cc (
  same 0 (omega arith),
  same 1 (omega arith),
  same_name-ext name (dirent_name de) (dirent_name de') (λ x lt. same (2 + x) (omega arith)),
)

strncpy-same_name : (s name : ℕ → ℕ) → same_name name (strncpy s name 14) ≡ true
unfolding same_name
strncpy-same_name s name = (strncmp_lem name (strncpy s name 14) 14).1 λ x lt before.
    let (k, c, le, stop, zeros, rest) = strncpy_lem s name 14 in
    elim (Bool-cases (ltb x k)) [
      | inl q ↦ sym (c.same x (omega arith) (ground arith)).0
      | inr q ↦ elim (Bool-cases (x == k)) [
        | inl e ↦
            let xk : x ≡ k = ground arith in
            ap name xk ∙ stop (ground arith) ∙ sym (zeros x (ground arith) lt)
        | inr ne ↦ absurd (before k (ground arith) (stop (ground arith)))
      ]
    ]

filled-dirent_inum :
    (name : ℕ → ℕ) (inum : ℕ) (de : ℕ → ℕ)
    → inum < 2 ^ 16
    → dirent_inum (filled name inum de) ≡ inum
unfolding filled
filled-dirent_inum name inum de lt = omega arith

filled-matches :
    (name : ℕ → ℕ) (inum : ℕ) (de : ℕ → ℕ)
    → 0 < inum
    → inum < 2 ^ 16
    → matches name (filled name inum de) ≡ true
unfolding filled
filled-matches name inum de pos lt =
    let number : dirent_inum (filled name inum de) ≡ inum = filled-dirent_inum name inum de lt in
    let named : same_name name (dirent_name (filled name inum de)) ≡ true =
      same_name-ext name (dirent_name (filled name inum de)) (strncpy (dirent_name de) name 14)
        (λ x lt'. ground arith)
      ∙ strncpy-same_name (dirent_name de) name in
    ground (arith, number, named)

-- From `n` entries in `v` to `n'` entries in `v'`, the entry `k` becomes `inum` under the name. It is the first
-- that was free, or a new one at the end, and the first with the name; no other byte changes.
pub record Linked (name : ℕ → ℕ) (inum n : ℕ) (v : ℕ → ℕ) (n' : ℕ) (v' : ℕ → ℕ) (k : ℕ)
    : Type 0 where
  pub is_within : k ≤ n
  pub entries : n' ≡ (if k == n then n + 1 else n)
  pub was_free : k < n → inum_at v k ≡ 0
  pub none_before : (i : ℕ) → i < k → inum_at v i ≢ 0
  pub number : inum_at v' k ≡ inum
  pub is_found : find_entry name v' n' ≡ some k
  pub same : (o : ℕ) → (o < 16 * k) ⊎ (16 * k + 16 ≤ o) → v' o ≡ v o

with_entry-at :
    (v : ℕ → ℕ) (k : ℕ) (de : ℕ → ℕ) (x : ℕ) → x < 16 → entry (with_entry v k de) k x ≡ de x
with_entry-at v k de x lt =
    let here : 16 * k + x - 16 * k ≡ x = omega arith in ground (arith, ap de here)

with_entry-other :
    (v : ℕ → ℕ) (k : ℕ) (de : ℕ → ℕ) (o : ℕ)
    → (o < 16 * k) ⊎ (16 * k + 16 ≤ o)
    → with_entry v k de o ≡ v o
with_entry-other v k de o (inl lt) = ground arith
with_entry-other v k de o (inr le) = ground arith

pub with_entry-Linked :
    (name : ℕ → ℕ) (inum n : ℕ) (v de : ℕ → ℕ) (k : ℕ)
    → 0 < inum
    → inum < 2 ^ 16
    → find_entry name v n ≡ none
    → k ≤ n
    → (k < n → inum_at v k ≡ 0)
    → ((i : ℕ) → i < k → inum_at v i ≢ 0)
    → Linked name inum n v (if k == n then n + 1 else n) (with_entry v k (filled name inum de)) k
with_entry-Linked name inum n v de k pos lt missing le free used =
    let v' = with_entry v k (filled name inum de) in
    let here = with_entry-at v k (filled name inum de) in
    record {
      is_within = le;
      entries = refl;
      was_free = free;
      none_before = used;
      number = cc (here 0 (omega arith), here 1 (omega arith), filled-dirent_inum name inum de lt);
      is_found =
          search_from-at (λ j. matches name (entry v' j)) (if k == n then n + 1 else n) 0 k
            (omega arith) (ground arith)
            (λ i ge i_lt.
              matches-ext name (entry v' i) (entry v i) (λ x x_lt.
                with_entry-other v k (filled name inum de) (16 * i + x) (inl (omega arith)))
              ∙ search_from-none (λ j. matches name (entry v j)) n 0 i missing (omega arith)
                  (omega arith))
            (matches-ext name (entry v' k) (filled name inum de) here
              ∙ filled-matches name inum de pos lt);
      same = with_entry-other v k (filled name inum de);
    }
