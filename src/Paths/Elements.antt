-- ===== src/Paths/Elements.antt =====
-- The elements of a path, and how `skipelem` goes through them.
use model_lib.Base.{
  ℕ, zero, suc, ◌+◌, ◌≤◌, ◌<◌, ◌≡◌, ◌⊎◌, refl, sym, ap, ◌∙◌, inl, inr, Bool, false, none, some,
  List, [], ◌∷◌, ◌==◌, leb, if◌then◌else◌, Bool-cases, arith, length, get_or, take,
}
use mathlib.Core.Path.{subst}
use model_lib.Base.Family.{has}
use model_lib.Paths.{slash, dirsiz, skip_slashes, before, pass, set_name, skip_on, skipelem}

-- The pieces of a path between its slashes, empty ones too.
abbrev to_first : ℕ → List (List ℕ) → List (List ℕ)
to_first c [] = (c ∷ []) ∷ []
to_first c (p ∷ ps) = (c ∷ p) ∷ ps

pub pieces : List ℕ → List (List ℕ)
pieces [] = [] ∷ []
pieces (c ∷ cs) = let rest = pieces cs in if c == slash then [] ∷ rest else to_first c rest

abbrev pub keep_piece : List ℕ → List (List ℕ) → List (List ℕ)
keep_piece [] ps = ps
keep_piece (c ∷ cs) ps = (c ∷ cs) ∷ ps

pub drop_empty : List (List ℕ) → List (List ℕ)
drop_empty [] = []
drop_empty (p ∷ ps) = keep_piece p (drop_empty ps)

-- The elements of a path.
unfoldable pub elements : List ℕ → List (List ℕ)
unfolding pieces drop_empty
elements path = drop_empty (pieces path)

-- What is left of the pieces behind the first one.
behind : List ℕ → List (List ℕ)
behind [] = []
behind (c ∷ cs) = pieces cs

pieces-pass : (path : List ℕ) → pieces path ≡ (pass path).0 ∷ behind (pass path).1
unfolding pieces pass behind
pieces-pass [] = refl
pieces-pass (c ∷ cs) = ground (arith, pieces-pass cs)

drop_empty-behind : (path : List ℕ) → drop_empty (behind (pass path).1) ≡ elements (pass path).1
unfolding elements pass behind
drop_empty-behind [] = refl
drop_empty-behind (c ∷ cs) = ground (arith, drop_empty-behind cs)

elements-skip_slashes : (path : List ℕ) → elements (skip_slashes path) ≡ elements path
unfolding elements skip_slashes
elements-skip_slashes [] = refl
elements-skip_slashes (c ∷ cs) = ground (arith, elements-skip_slashes cs)

-- The first `n` bytes of a name from offset `i` on, up to its NUL.
pub name_bytes : ℕ → ℕ → (ℕ → ℕ) → List ℕ
name_bytes zero i name = []
name_bytes (suc n) i name =
    let rest = name_bytes n (i + 1) name in if name i == 0 then [] else name i ∷ rest

-- A name that has the bytes `s` from offset `i` on, and then a NUL if there is room.
name_bytes-take :
    (n i : ℕ) (name : ℕ → ℕ) (s : List ℕ)
    → has s 0 ≡ false
    → ((j : ℕ) → j < length s → j < n → name (i + j) ≡ get_or s j 0)
    → (length s < n → name (i + length s) ≡ 0)
    → name_bytes n i name ≡ take n s
unfolding name_bytes has
name_bytes-take zero i name s no_nul same ends = refl
name_bytes-take (suc n) i name [] no_nul same ends =
    let here : name i ≡ 0 = ap name (plus_zero i) ∙ ends (omega arith) in ground (arith, here)
  where
    plus_zero : (i : ℕ) → i ≡ i + 0
    plus_zero i = omega arith
name_bytes-take (suc n) i name (c ∷ cs) no_nul same ends =
    let here : name i ≡ c = ap name (plus_zero i) ∙ same 0 (omega arith) (omega arith) in
    let rest : name_bytes n (i + 1) name ≡ take n cs =
      name_bytes-take n (i + 1) name cs (ground arith)
        (λ j lt lt'. ap name (plus_suc i j) ∙ same (suc j) (omega arith) (omega arith))
        (λ lt. ap name (plus_suc i (length cs)) ∙ ends (omega arith)) in
    ground (arith, here, rest)
  where
    plus_zero : (i : ℕ) → i ≡ i + 0
    plus_zero i = omega arith

    plus_suc : (i j : ℕ) → i + 1 + j ≡ i + suc j
    plus_suc i j = omega arith

name_bytes-set_name :
    (s : List ℕ) (name : ℕ → ℕ)
    → has s 0 ≡ false
    → name_bytes dirsiz 0 (set_name s name) ≡ take dirsiz s
unfolding set_name
name_bytes-set_name s name no_nul = elim (Bool-cases (leb dirsiz (length s))) [
  | inl q ↦
      name_bytes-take dirsiz 0 (set_name s name) s no_nul
        (λ j lt lt'. ap (set_name s name) (zero_plus j) ∙ ground arith)
        (λ lt. absurd (ground arith))
  | inr q ↦
      name_bytes-take dirsiz 0 (set_name s name) s no_nul
        (λ j lt lt'. ap (set_name s name) (zero_plus j) ∙ ground arith)
        (λ lt. ap (set_name s name) (zero_plus (length s)) ∙ ground arith)
]
  where
    zero_plus : (j : ℕ) → 0 + j ≡ j
    zero_plus j = omega arith

no_nul-skip_slashes : (path : List ℕ) → has path 0 ≡ false → has (skip_slashes path) 0 ≡ false
unfolding has skip_slashes
no_nul-skip_slashes [] h = refl
no_nul-skip_slashes (c ∷ cs) h = ground (arith, no_nul-skip_slashes cs)

no_nul-pass :
    (path : List ℕ)
    → has path 0 ≡ false
    → (has (pass path).0 0 ≡ false) × (has (pass path).1 0 ≡ false)
unfolding has pass
no_nul-pass [] h = (refl, refl)
no_nul-pass (c ∷ cs) h = ground (arith, no_nul-pass cs)

-- Behind its leading slashes a path is at its end or at another byte.
pub starts_with_slash : List ℕ → Bool
starts_with_slash [] = false
starts_with_slash (c ∷ cs) = c == slash

pass-cons :
    (c : ℕ) (cs : List ℕ) → starts_with_slash (c ∷ cs) ≡ false → pass (c ∷ cs) ≡ before c (pass cs)
unfolding pass starts_with_slash
pass-cons c cs h = ground (arith, h)

length-skip_slashes : (path : List ℕ) → length (skip_slashes path) ≤ length path
unfolding skip_slashes
length-skip_slashes [] = omega arith
length-skip_slashes (c ∷ cs) = ground (arith, length-skip_slashes cs)

length-pass : (path : List ℕ) → length (pass path).1 ≤ length path
unfolding pass
length-pass [] = omega arith
length-pass (c ∷ cs) = ground (arith, length-pass cs)

starts-skip_slashes : (path : List ℕ) → starts_with_slash (skip_slashes path) ≡ false
unfolding skip_slashes starts_with_slash
starts-skip_slashes [] = refl
starts-skip_slashes (c ∷ cs) = ground (arith, starts-skip_slashes cs)

-- An element: not empty, it is the first, and the path behind it is shorter.
element :
    (c : ℕ) (cs : List ℕ)
    → starts_with_slash (c ∷ cs) ≡ false
    → (elements (c ∷ cs) ≡ (pass (c ∷ cs)).0 ∷ elements (pass (c ∷ cs)).1)
      × (length (pass (c ∷ cs)).1 < length (c ∷ cs))
unfolding elements
element c cs h =
    let p : pass (c ∷ cs) ≡ before c (pass cs) = pass-cons c cs h in
    let first : elements (c ∷ cs) ≡ keep_piece (pass (c ∷ cs)).0 (elements (pass (c ∷ cs)).1) =
      ap drop_empty (pieces-pass (c ∷ cs))
      ∙ ap (keep_piece (pass (c ∷ cs)).0) (drop_empty-behind (c ∷ cs)) in
    (
      first
          ∙ subst (λ (r : List ℕ × List ℕ). keep_piece r.0 (elements r.1) ≡ r.0 ∷ elements r.1)
              (sym p) refl,
      subst (λ (r : List ℕ × List ℕ). length r.1 < length (c ∷ cs)) (sym p)
          (omega (arith, length-pass cs)),
    )

-- How `skipelem` leaves a path: with the path behind its first element `e`, and the element in `name`.
pub record Skipped (path : List ℕ) (r : List ℕ × (ℕ → ℕ)) : Type 0 where
  pub e : List ℕ
  pub elements_at : elements path ≡ e ∷ elements r.0
  pub name_at : name_bytes dirsiz 0 r.1 ≡ take dirsiz e
  pub shorter : length r.0 < length path
  pub no_nul : has r.0 0 ≡ false
  pub no_slash : starts_with_slash r.0 ≡ false

-- Behind leading slashes.
skip_on-Skipped :
    (path : List ℕ) (name : ℕ → ℕ)
    → has path 0 ≡ false
    → starts_with_slash path ≡ false
    → ((skip_on path name ≡ none) × (elements path ≡ []))
      ⊎ ((r : List ℕ × (ℕ → ℕ)) × (skip_on path name ≡ some r) × Skipped path r)
unfolding elements
skip_on-Skipped [] name no_nul no_slash = inl (refl, refl)
skip_on-Skipped (c ∷ cs) name no_nul no_slash =
    let (s, rest) = pass (c ∷ cs) in
    let (first, short) = element c cs no_slash in
    let (nul_s, nul_rest) = no_nul-pass (c ∷ cs) no_nul in
    inr (
      (skip_slashes rest, set_name s name),
      refl,
      record {
        e = s;
        elements_at = first ∙ ap (λ es. s ∷ es) (sym (elements-skip_slashes rest));
        name_at = name_bytes-set_name s name nul_s;
        shorter = omega (arith, length-skip_slashes rest, short);
        no_nul = no_nul-skip_slashes rest nul_rest;
        no_slash = starts-skip_slashes rest;
      },
    )

-- `skipelem` returns 0 exactly for a path without elements. Otherwise the path that it returns has the other
-- elements, is shorter and does not begin with a slash, and `name` holds the first element, cut off to DIRSIZ
-- bytes.
pub skipelem_lem :
    (path : List ℕ) (name : ℕ → ℕ)
    → has path 0 ≡ false
    → ((skipelem path name ≡ none) × (elements path ≡ []))
      ⊎ ((r : List ℕ × (ℕ → ℕ)) × (skipelem path name ≡ some r) × Skipped path r)
unfolding skipelem
skipelem_lem path name no_nul =
    let same = elements-skip_slashes path in
    let short = length-skip_slashes path in
    elim (skip_on-Skipped (skip_slashes path) name (no_nul-skip_slashes path no_nul)
      (starts-skip_slashes path)) [
        | inl (e, none_left) ↦ inl (e, sym same ∙ none_left)
        | inr (r, e, k) ↦ inr (
          r,
          e,
          record {
            e = k.e;
            elements_at = sym same ∙ k.elements_at;
            name_at = k.name_at;
            shorter = omega (arith, k.shorter, short);
            no_nul = k.no_nul;
            no_slash = k.no_slash;
          },
        )
      ]
