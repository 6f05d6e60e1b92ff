-- ===== src/File/Holders.antt =====
-- References to files: the count of a file is the number of holders of it.
use model_lib.Base.{
  not, ℕ, ◌+◌, ◌-◌, ◌≤◌, ◌<◌, ◌≡◌, ◌≢◌, refl, sym, ◌∙◌, inl, inr, true, false, Option, none, some,
  List, ◌∷◌, ◌==◌, ltb, if◌then◌else◌, Bool-cases, arith,
}
use mathlib.Core.Path.{subst}
use model_lib.Base.Outcome.{
  Returns, Yields, Yields-if, Yields-then, Yields-value, check, fileclose_no_ref, filedup_no_ref,
  ok, panic, returns, yields, ◌>>=◌,
}
use model_lib.Base.Family.{
  update, update_self, update_ne, has, erase, count, count-move, count-eq_zero,
}
use model_lib.Base.Search.{search_from, search_from-some, search_from-none}
use model_lib.File.{
  nfile, fd_none, File, Ftable, take_file, filealloc, filedup, fileclose, close_on,
}
use model_lib.File.Services.{FileServices}

-- How many of the references are to the file `i`.
abbrev pub held : List ℕ → ℕ → ℕ
held h i = count (λ j. j == i) h

-- `h` lists the references to files that descriptors hold. A file without references has no type.
pub record IsCounted (h : List ℕ) (t : Ftable) : Type 0 where
  pub counted : (i : ℕ) → (t i).ref ≡ held h i
  pub closed : (i : ℕ) → (t i).ref ≡ 0 → (t i).type ≡ fd_none

pub held-pos : (h : List ℕ) (i : ℕ) → has h i ≡ true → 0 < held h i
held-pos h i m = elim (Bool-cases (ltb 0 (held h i))) [
  | inl lt ↦ ground arith
  | inr ge ↦
      let none_of : i == i ≡ false = count-eq_zero (λ j. j == i) h (ground arith) i m in
      absurd (ground arith)
]

held-erase :
    (h : List ℕ) (i x : ℕ)
    → has h i ≡ true
    → held h x ≡ (if i == x then 1 else 0) + held (erase i h) x
unfolding count
held-erase h i x m = sym (count-move (λ j. j == x) i h m)

-- A file is changed, and so are the references to it.
update-IsCounted :
    (h h' : List ℕ) (t : Ftable) (i : ℕ) (f : File)
    → IsCounted h t
    → f.ref ≡ held h' i
    → (f.ref ≡ 0 → f.type ≡ fd_none)
    → ((x : ℕ) → x ≢ i → held h x ≡ held h' x)
    → IsCounted h' (update t i f)
update-IsCounted h h' t i f v here shut same = record {
  counted = λ x. elim (Bool-cases (x == i)) [
    | inl q ↦
        let x_eq : i ≡ x = ground arith in
        subst (λ y. (update t i f y).ref ≡ held h' y) x_eq (ground arith)
    | inr q ↦
        (let e : held h x ≡ held h' x = same x (ground arith) in ground (arith, v.counted x, e))
  ];
  closed = λ x zero_ref. elim (Bool-cases (x == i)) [
    | inl q ↦ ground arith
    | inr q ↦ ground (arith, v.closed x)
  ];
}

held-cons : (h : List ℕ) (i x : ℕ) → held (i ∷ h) x ≡ (if i == x then 1 else 0) + held h x
unfolding count
held-cons h i x = refl

-- A new reference to `i`, whose count goes up by one.
added :
    (h : List ℕ) (t : Ftable) (i : ℕ) (f : File)
    → IsCounted h t
    → f.ref ≡ (t i).ref + 1
    → IsCounted (i ∷ h) (update t i f)
added h t i f v up =
    update-IsCounted h (i ∷ h) t i f v (ground (arith, held-cons h i i, v.counted i))
      (λ e. absurd (omega arith)) (λ x ne. ground (arith, held-cons h i x))

-- A reference to `i` less.
removed :
    (h : List ℕ) (t : Ftable) (i : ℕ) (f : File)
    → IsCounted h t
    → has h i ≡ true
    → f.ref + 1 ≡ (t i).ref
    → (f.ref ≡ 0 → f.type ≡ fd_none)
    → IsCounted (erase i h) (update t i f)
removed h t i f v m down shut =
    update-IsCounted h (erase i h) t i f v (ground (arith, held-erase h i i m, v.counted i)) shut
      (λ x ne. ground (arith, held-erase h i x m))

-- The table counts the references, with one more to the file that `filealloc` has given.
abbrev Given : List ℕ → Ftable → Option ℕ → Type 0
Given h t (some i) = IsCounted (i ∷ h) t
Given h t none = IsCounted h t

take_file-IsCounted :
    (h : List ℕ) (t : Ftable) (o : Option ℕ)
    → IsCounted h t
    → ((i : ℕ) → o ≡ some i → (t i).ref ≡ 0)
    → Given h (take_file o t).1 (take_file o t).0
unfolding take_file
take_file-IsCounted h t none v free = v
take_file-IsCounted h t (some i) v free =
    added h t i (record (t i) { ref = 1 }) v (omega (arith, free i refl))

-- The file that is found has no references.
free_at : (t : Ftable) (i : ℕ) → search_from (λ j. (t j).ref == 0) nfile 0 ≡ some i → (t i).ref ≡ 0
free_at t i e =
    (let (z, _, _) = search_from-some (λ j. (t j).ref == 0) nfile 0 {j = i} e in ground arith)

pub filedup-IsCounted :
    (h : List ℕ) (t : Ftable) (i : ℕ) → IsCounted h t → Yields (IsCounted (i ∷ h)) (filedup i t)
unfolding filedup
filedup-IsCounted h t i v =
    Yields-then _ _ λ _. yields _ (added h t i (record (t i) { ref = (t i).ref + 1 }) v refl)

-- A holder's `filedup` returns.
pub filedup-Counted :
    (h : List ℕ) (t : Ftable) (i : ℕ)
    → IsCounted h t
    → has h i ≡ true
    → Returns (IsCounted (i ∷ h)) (filedup i t)
unfolding filedup
filedup-Counted h t i v m =
    let some_ref : not (ltb (t i).ref 1) ≡ true = ground (arith, v.counted i, held-pos h i m) in
    subst
      (λ b. Returns (IsCounted (i ∷ h)) (
        (if b then ok tt else panic filedup_no_ref) >>= λ _.
        ok (update t i (record (t i) { ref = (t i).ref + 1 }))))
      (sym some_ref) (returns _ (added h t i (record (t i) { ref = (t i).ref + 1 }) v refl))

module _ {S : Type 0} (os : FileServices S) where
  pub fileclose-IsCounted :
      (h : List ℕ) (t : Ftable) (i : ℕ) (s : S)
      → IsCounted h t
      → has h i ≡ true
      → Yields (λ (r : Ftable × S). IsCounted (erase i h) r.0) (fileclose os i t s)
  unfolding fileclose
  fileclose-IsCounted h t i s v m =
      let one : 1 ≤ (t i).ref = ground (arith, v.counted i, held-pos h i m) in
      Yields-then (check (not (ltb (t i).ref 1)) fileclose_no_ref) _ λ _.
        Yields-if (ltb 0 ((t i).ref - 1)) _ _
          (λ more. yields _ (
            removed h t i (record (t i) { ref = (t i).ref - 1 }) v m (ground arith)
              (λ z. ground arith)))
          (λ last. Yields-then (close_on os (t i).type (t i) s) _ λ s'. yields _ (
            removed h t i (record (t i) { ref = 0; type = fd_none }) v m (ground arith)
              (λ z. refl)))

-- A step of the kernel with the references to files: `filealloc` gives a file or none; a reference
-- that is held is doubled by `filedup` or given up by `fileclose`; the holder of a reference sets up
-- the file.
pub data Step {S : Type 0} (os : FileServices S) : List ℕ → Ftable → List ℕ → Ftable → Type 0 where
  alloc :
      {h : List ℕ} {t : Ftable} {i : ℕ}
      → (filealloc t).0 ≡ some i
      → Step os h t (i ∷ h) (filealloc t).1
  full : {h : List ℕ} {t : Ftable} → (filealloc t).0 ≡ none → Step os h t h (filealloc t).1
  dup :
      {h : List ℕ} {t t' : Ftable} (i : ℕ)
      → has h i ≡ true
      → filedup i t ≡ ok t'
      → Step os h t (i ∷ h) t'
  close :
      {h : List ℕ} {t t' : Ftable} (i : ℕ) (s s' : S)
      → has h i ≡ true
      → fileclose os i t s ≡ ok (t', s')
      → Step os h t (erase i h) t'
  fill :
      {h : List ℕ} {t : Ftable} (i : ℕ) (f : File)
      → has h i ≡ true
      → f.ref ≡ (t i).ref
      → Step os h t h (update t i f)

filealloc-IsCounted :
    (h : List ℕ) (t : Ftable) → IsCounted h t → Given h (filealloc t).1 (filealloc t).0
unfolding filealloc
filealloc-IsCounted h t v =
    take_file-IsCounted h t (search_from (λ i. (t i).ref == 0) nfile 0) v (λ i. free_at t i)

-- In each step the count of every file stays the number of references to it that are held, and a file
-- without references stays without a type.
pub Step-IsCounted :
    {S : Type 0} (os : FileServices S) (h h' : List ℕ) (t t' : Ftable)
    → Step os h t h' t'
    → IsCounted h t
    → IsCounted h' t'
Step-IsCounted os h _ t _ (alloc {i} e) v =
    subst (Given h (filealloc t).1) e (filealloc-IsCounted h t v)
Step-IsCounted os h _ t _ (full e) v = subst (Given h (filealloc t).1) e (filealloc-IsCounted h t v)
Step-IsCounted os h _ t _ (dup i m e) v = Yields-value (filedup-IsCounted h t i v) e
Step-IsCounted os h _ t _ (close i s s' m e) v = Yields-value (fileclose-IsCounted os h t i s v m) e
Step-IsCounted os h _ t _ (fill i f m e) v =
    update-IsCounted h h t i f v (e ∙ v.counted i)
      (λ z. absurd (ground (arith, v.counted i, held-pos h i m))) (λ x ne. refl)

-- What `filealloc` has to find: a file that no one holds, where there is one.
abbrev pub Found : List ℕ → Ftable → Option ℕ × Ftable → Type 0
Found h t (some i, t') =
    (i < nfile)
    × (held h i ≡ 0)
    × (t' i ≡ record (t i) { ref = 1 })
    × ((j : ℕ) → j ≢ i → t' j ≡ t j)
Found h t (none, t') = (t' ≡ t) × ((i : ℕ) → i < nfile → 0 < held h i)

take_file-Found :
    (h : List ℕ) (t : Ftable) (o : Option ℕ)
    → IsCounted h t
    → search_from (λ i. (t i).ref == 0) nfile 0 ≡ o
    → Found h t (take_file o t)
unfolding take_file
take_file-Found h t none v e = (
  refl,
  λ i lt.
      let busy : (t i).ref == 0 ≡ false =
        search_from-none (λ j. (t j).ref == 0) nfile 0 i e (omega arith) (omega arith) in
      ground (arith, v.counted i),
)
take_file-Found h t (some i) v e =
    let (z, _, lt) = search_from-some (λ j. (t j).ref == 0) nfile 0 {j = i} e in
    (
      omega arith,
      sym (v.counted i) ∙ free_at t i e,
      update_self t i (record (t i) { ref = 1 }),
      λ j ne. update_ne t i j (record (t i) { ref = 1 }) ne,
    )

-- While the counts are the numbers of references that are held, `filealloc` returns a file of the table that no
-- one holds, with one reference, and leaves all others as they are; only when every file of the table is held
-- does it return a null pointer, and it changes nothing then.
pub filealloc_lem : (h : List ℕ) (t : Ftable) → IsCounted h t → Found h t (filealloc t)
unfolding filealloc
filealloc_lem h t v = take_file-Found h t (search_from (λ i. (t i).ref == 0) nfile 0) v refl
