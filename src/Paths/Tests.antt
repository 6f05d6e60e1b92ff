-- ===== src/Paths/Tests.antt =====
-- Paths in a tree with the directory /a, node 5, and the file /a/b, node 6. The state keeps the references of the caller.
use model_lib.Base.{
  ℕ, ◌≡◌, ◌⊎◌, refl, Bool, true, false, ◌&&◌, ◌||◌, Option, none, some, List, [], ◌∷◌, ◌==◌,
  if◌then◌else◌,
}
use model_lib.Base.Outcome.{Outcome, ok, Yields}
use model_lib.Base.Family.{has}
use model_lib.Paths.{skipelem, namex, dirsiz}
use model_lib.Paths.Services.{DirServices}
use model_lib.Paths.Elements.{elements, name_bytes, Skipped, skipelem_lem}
use model_lib.Paths.Settled.{dirs_booked, Settled, namex-settles}
use model_lib.Sysfile.Books.{clean}
use model_lib.Sysfile.Settled.{clean-Says}

abbrev child_of : ℕ → List ℕ → Option ℕ
child_of d [] = none
child_of d (c ∷ []) =
    if d == 0 && c == 97 then some 5 else (if d == 5 && c == 98 then some 6 else none)
child_of d (c ∷ c' ∷ cs) = none

abbrev is_dir : ℕ → Bool
is_dir d = d == 0 || d == 5

abbrev State : Type 0
State = Bool × List (ℕ × ℕ)

abbrev node : List (ℕ × ℕ) → ℕ
node [] = 0
node ((h, d) ∷ refs) = d

abbrev without_first : List (ℕ × ℕ) → List (ℕ × ℕ)
without_first [] = []
without_first (r ∷ refs) = refs

-- The inode `h` of the node `n` behind the first.
abbrev second_as : ℕ → ℕ → List (ℕ × ℕ) → List (ℕ × ℕ)
second_as h n [] = []
second_as h n (r ∷ refs) = r ∷ (h, n) ∷ refs

abbrev looked_up : Option ℕ → State → Outcome (Option ℕ × State)
looked_up none s = ok (none, s)
looked_up (some n) s = ok (some n, (s.0, second_as n n s.1))

abbrev services : DirServices State
services = record {
  iget = λ dev inum s. ok (0, (s.0, (0, 0) ∷ s.1));
  idup = λ ip s. ok (s.0, (ip, node s.1) ∷ s.1);
  ilock = λ ip s. ok (true, s.1);
  iunlock = λ ip s. ok (false, s.1);
  iput = λ ip s. ok (s.0, without_first s.1);
  type_of = λ ip s. if is_dir (node s.1) then 1 else 2;
  dirlookup = λ dp name s. looked_up (child_of (node s.1) (name_bytes dirsiz 0 name)) s;
}

-- "/a//b/"
abbrev path : List ℕ
path = 47 ∷ 97 ∷ 47 ∷ 47 ∷ 98 ∷ 47 ∷ []

abbrev no_name : ℕ → ℕ
no_name i = 0

no_nul : has path 0 ≡ false
unfolding has
no_nul = refl

two_elements : elements path ≡ (97 ∷ []) ∷ (98 ∷ []) ∷ []
unfolding elements
two_elements = refl

skipelem_lem_example :
    ((skipelem path no_name ≡ none) × (elements path ≡ []))
    ⊎ ((r : List ℕ × (ℕ → ℕ)) × (skipelem path no_name ≡ some r) × Skipped path r)
skipelem_lem_example = skipelem_lem path no_name no_nul

namex-settles_example :
    Yields
      (Settled services [])
      (namex (dirs_booked services) 9 path true no_name ((false, (9, 5) ∷ []), clean))
namex-settles_example =
    namex-settles services [] 9 path true no_name (false, (9, 5) ∷ []) clean clean-Says
