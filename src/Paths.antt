-- ===== src/Paths.antt =====
-- fs.c: paths. A path is the list of its bytes without the NUL, and a pointer into it what follows there.
-- `name` is an array of DIRSIZ bytes.
pub mod Services
pub mod Elements
pub mod Settled
mod Tests
use model_lib.Base.{
  ℕ, zero, suc, ◌+◌, Bool, true, false, not, ◌&&◌, Option, none, some, List, [], ◌∷◌, ◌==◌, ltb,
  leb, if◌then◌else◌, length, get_or,
}
use model_lib.Base.Outcome.{Outcome, ok, ◌>>=◌}
use model_lib.Base.Family.{update}
use model_lib.Log.{rootdev}
use model_lib.Paths.Services.{DirServices}

-- '/'
abbrev pub slash : ℕ
slash = 47

abbrev pub dirsiz : ℕ
dirsiz = 14

abbrev pub rootino : ℕ
rootino = 1

abbrev pub t_dir : ℕ
t_dir = 1

-- while(*path == '/') path++;
pub skip_slashes : List ℕ → List ℕ
skip_slashes [] = []
skip_slashes (c ∷ cs) = if c == slash then skip_slashes cs else c ∷ cs

abbrev before : ℕ → List ℕ × List ℕ → List ℕ × List ℕ
before c (s, rest) = (c ∷ s, rest)

-- while(*path != '/' && *path != 0) path++; what is passed, and what is left.
pub pass : List ℕ → List ℕ × List ℕ
pass [] = ([], [])
pass (c ∷ cs) = let after = before c (pass cs) in if c == slash then ([], c ∷ cs) else after

-- memmove(name, s, len)
abbrev pub copied : List ℕ → ℕ → (ℕ → ℕ) → ℕ → ℕ
copied s len name i = if ltb i len then get_or s i 0 else name i

pub set_name : List ℕ → (ℕ → ℕ) → ℕ → ℕ
set_name s name =
    if leb dirsiz (length s)
    then copied s dirsiz name
    else update (copied s (length s) name) (length s) 0

-- `skipelem` behind the leading slashes.
abbrev pub skip_on : List ℕ → (ℕ → ℕ) → Option (List ℕ × (ℕ → ℕ))
skip_on [] name = none
skip_on (c ∷ cs) name = some (skip_slashes (pass (c ∷ cs)).1, set_name (pass (c ∷ cs)).0 name)

pub skipelem : List ℕ → (ℕ → ℕ) → Option (List ℕ × (ℕ → ℕ))
unfolding skip_slashes pass set_name
skipelem path name = skip_on (skip_slashes path) name

abbrev pub is_end : List ℕ → Bool
is_end [] = true
is_end (c ∷ cs) = false

abbrev pub is_absolute : List ℕ → Bool
is_absolute [] = false
is_absolute (c ∷ cs) = c == slash

module _ {S : Type 0} (ds : DirServices S) where
  -- iunlockput(ip); return 0;
  pub leave : ℕ → (ℕ → ℕ) → S → Outcome (Option ℕ × ((ℕ → ℕ) × S))
  leave ip name s = do s₁ ← ds.iunlock ip s; s₂ ← ds.iput ip s₁; ok (none, (name, s₂))

  -- The end of a round, with what `dirlookup` has found.
  pub step_to :
      ℕ
      → (ℕ → ℕ)
      → (ℕ → S → Outcome (Option ℕ × ((ℕ → ℕ) × S)))
      → Option ℕ
      → S
      → Outcome (Option ℕ × ((ℕ → ℕ) × S))
  unfolding leave
  step_to ip name next none s = leave ip name s
  step_to ip name next (some n) s = do s₁ ← ds.iunlock ip s; s₂ ← ds.iput ip s₁; next n s₂

  -- A round of the loop of `namex`, with the rest of the path and the element.
  pub round :
      Bool
      → ℕ
      → List ℕ
      → (ℕ → ℕ)
      → (ℕ → S → Outcome (Option ℕ × ((ℕ → ℕ) × S)))
      → S
      → Outcome (Option ℕ × ((ℕ → ℕ) × S))
  unfolding leave step_to
  round nameiparent ip path name next s = do
    s₁ ← ds.ilock ip s
    if not (ds.type_of ip s₁ == t_dir)
        then leave ip name s₁
        else (if nameiparent && is_end path
            then (do s₂ ← ds.iunlock ip s₁; ok (some ip, (name, s₂)))
            else (do (o, s₂) ← ds.dirlookup ip name s₁; step_to ip name next o s₂))

  -- Behind the loop.
  pub loop_end : Bool → ℕ → (ℕ → ℕ) → S → Outcome (Option ℕ × ((ℕ → ℕ) × S))
  loop_end nameiparent ip name s =
      if nameiparent then (do s₁ ← ds.iput ip s; ok (none, (name, s₁))) else ok (some ip, (name, s))

  abbrev pub round_on :
      Bool
      → ℕ
      → (ℕ → ℕ)
      → (List ℕ → (ℕ → ℕ) → ℕ → S → Outcome (Option ℕ × ((ℕ → ℕ) × S)))
      → Option (List ℕ × (ℕ → ℕ))
      → S
      → Outcome (Option ℕ × ((ℕ → ℕ) × S))
  round_on nameiparent ip name next none s = loop_end nameiparent ip name s
  round_on nameiparent ip name next (some (path, name')) s =
      round nameiparent ip path name' (next path name') s

  -- The loop of `namex` for at most `fuel` rounds.
  pub walk : ℕ → Bool → List ℕ → (ℕ → ℕ) → ℕ → S → Outcome (Option ℕ × ((ℕ → ℕ) × S))
  unfolding round loop_end skipelem
  walk zero nameiparent path name ip s = loop_end nameiparent ip name s
  walk (suc fuel) nameiparent path name ip s =
      round_on nameiparent ip name (walk fuel nameiparent) (skipelem path name) s

  -- For the process whose current directory is `cwd`.
  pub namex : ℕ → List ℕ → Bool → (ℕ → ℕ) → S → Outcome (Option ℕ × ((ℕ → ℕ) × S))
  unfolding walk
  namex cwd path nameiparent name s = do
    (ip, s₁) ←
        (if is_absolute path
          then ds.iget rootdev rootino s
          else (do s' ← ds.idup cwd s; ok (cwd, s')))
    walk (length path) nameiparent path name ip s₁

  pub namei : ℕ → List ℕ → (ℕ → ℕ) → S → Outcome (Option ℕ × ((ℕ → ℕ) × S))
  unfolding namex
  namei cwd path name s = namex cwd path false name s

  pub nameiparent : ℕ → List ℕ → (ℕ → ℕ) → S → Outcome (Option ℕ × ((ℕ → ℕ) × S))
  unfolding namex
  nameiparent cwd path name s = namex cwd path true name s
