-- ===== src/Dirs/Contents.antt =====
-- `dirlookup` and `dirlink` against the entries of the directory.
use model_lib.Base.{
  ℕ, zero, suc, ◌+◌, ◌*◌, ◌^◌, ◌≤◌, ◌<◌, ◌≡◌, ◌≢◌, refl, sym, ap, ◌∙◌, inl, inr, Bool, true, false,
  Option, none, some, ◌==◌, if◌then◌else◌, Bool-cases, arith,
}
use mathlib.Core.Path.{subst}
use model_lib.Base.Outcome.{
  Returns, returns, Returns-bind, Returns-if, Returns-check, Returns-mono, Outcome, ok, ◌>>=◌,
  after-bind, after-check, after-if, bind-bind, ◌>>◌, check, dirlookup_not_dir, dirlookup_read,
  dirlink_read, dirlink_write,
}
use model_lib.Base.Search.{search_from, search_from-here, search_from-next}
use model_lib.Dirs.{
  same_name, dirent_inum, dirent_name, filled, is_count, rounds, lookup_from, dirlookup, free_from,
  link_new, dirlink,
}
use model_lib.Dirs.Services.{EntryServices}
use model_lib.Dirs.Entries.{
  entry, inum_at, matches, find_entry, with_entry, matches-ext, Linked, with_entry-Linked,
}

-- A directory `dp` whose `n` entries, in the contents `v`, can be read; Dirs/Buffers fills it with fs.c and bio.c.
pub record EntryReads {S : Type 0} (es : EntryServices S) (dp n : ℕ) (v : ℕ → ℕ) : Type 1 where
  pub Holds : S → Type 0
  pub types : {s : S} → Holds s → (es.inode dp s).copy.type ≡ 1
  pub sizes : {s : S} → Holds s → (es.inode dp s).copy.size ≡ 16 * n
  pub reads :
      {s : S} (k off : ℕ)
      → Holds s
      → off ≡ 16 * k
      → k < n
      → Returns
          (λ r. (r.0.0 ≡ some 16) × ((x : ℕ) → x < 16 → r.0.1 x ≡ entry v k x) × Holds r.1)
          (es.readi dp off 16 s)

inum-ext : (de de' : ℕ → ℕ) → ((x : ℕ) → x < 16 → de x ≡ de' x) → dirent_inum de ≡ dirent_inum de'
inum-ext de de' same = cc (same 0 (omega arith), same 1 (omega arith))

module _ {S : Type 0} {es : EntryServices S} {dp n : ℕ} {v : ℕ → ℕ}
    (st : EntryReads es dp n v) where
  -- A null pointer; or what `iget` makes of the number in the entry, in a state in which the directory is as before.
  abbrev pub LooksUp : Option ℕ → Outcome (Option (ℕ × ℕ) × S) → Type 0
  LooksUp none m = Returns (λ r. (r.0 ≡ none) × st.Holds r.1) m
  LooksUp (some k) m =
      (s : S) × st.Holds s
      × (m ≡ (es.iget (es.inode dp s).dev (inum_at v k) s >>= λ (h, s'). ok (some (h, 16 * k), s')))

  rounds_lem : {s : S} → st.Holds s → rounds es dp s ≡ n
  rounds_lem {s} held = let e = st.sizes held in omega (arith, e)

  lookup_from-LooksUp :
      (name : ℕ → ℕ) (r k off : ℕ) (s : S)
      → st.Holds s
      → off ≡ 16 * k
      → k + r ≡ n
      → LooksUp (search_from (λ j. matches name (entry v j)) r k) (lookup_from es r off dp name s)
  unfolding lookup_from search_from
  lookup_from-LooksUp name zero k off s held at end = returns _ (refl, held)
  lookup_from-LooksUp name (suc r) k off s held at end =
      let Q = LooksUp (search_from (λ j. matches name (entry v j)) (suc r) k) in
      after-bind Q _ (st.reads k off held at (omega arith)) λ ((cnt, de), s₁) (e, same, held₁).
        let test : matches name de ≡ matches name (entry v k) =
          matches-ext name de (entry v k) same in
        let passed : matches name (entry v k) ≡ false
            → LooksUp (search_from (λ j. matches name (entry v j)) (suc r) k)
                (lookup_from es r (off + 16) dp name s₁) =
          λ f.
            subst (λ o. LooksUp o (lookup_from es r (off + 16) dp name s₁))
              (sym (search_from-next (λ j. matches name (entry v j)) r k f))
              (lookup_from-LooksUp name r (k + 1) (off + 16) s₁ held₁ (omega arith)
                (omega arith)) in
        after-check Q (is_count 16 cnt) dirlookup_read _ (ap (is_count 16) e) (
          after-if Q (dirent_inum de == 0) _ _ (λ z. passed (ground (arith, test)))
            (λ nz.
              after-if Q (same_name name (dirent_name de)) _ _
                (λ m.
                  subst (λ o. LooksUp o (gotten s₁ (dirent_inum de) off))
                    (sym
                      (search_from-here (λ j. matches name (entry v j)) r k (ground (arith, test))))
                    (
                      s₁,
                      held₁,
                      ap (λ i. gotten s₁ i off) (inum-ext de (entry v k) same)
                          ∙ ap (gotten s₁ (inum_at v k)) at,
                    ))
                (λ d. passed (ground (arith, test)))))
    where
      gotten : S → ℕ → ℕ → Outcome (Option (ℕ × ℕ) × S)
      gotten s inum off = es.iget (es.inode dp s).dev inum s >>= λ (h, s'). ok (some (h, off), s')

  pub dirlookup-LooksUp :
      (name : ℕ → ℕ) (s : S) → st.Holds s → LooksUp (find_entry name v n) (dirlookup es dp name s)
  unfolding dirlookup
  dirlookup-LooksUp name s held =
      let Q = LooksUp (find_entry name v n) in
      after-check Q _ dirlookup_not_dir _ (ap (λ t. t == 1) (st.types held)) (
        subst (λ r. Q (lookup_from es r 0 dp name s)) (sym (rounds_lem held))
          (lookup_from-LooksUp name n 0 0 s held (omega arith) (omega arith)))

  -- The loop of `dirlink` stops at the first entry that is free, or behind the last.
  abbrev Stops : ℕ → (ℕ × (ℕ → ℕ)) × S → Type 0
  Stops k ((off, de), s) =
      (j : ℕ) × (off ≡ 16 * j)
      × (k ≤ j)
      × (j ≤ n)
      × (j < n → inum_at v j ≡ 0)
      × ((i : ℕ) → k ≤ i → i < j → inum_at v i ≢ 0)
      × st.Holds s

  free_from-Stops :
      (de : ℕ → ℕ) (r k off : ℕ) (s : S)
      → st.Holds s
      → off ≡ 16 * k
      → k + r ≡ n
      → Returns (Stops k) (free_from es r off dp de s)
  unfolding free_from
  free_from-Stops de zero k off s held at end = returns _ (
    k,
    at,
    omega arith,
    omega arith,
    (λ lt. absurd (omega arith)),
    (λ i le lt. absurd (omega arith)),
    held,
  )
  free_from-Stops de (suc r) k off s held at end =
      Returns-bind _ (st.reads k off held at (omega arith)) λ ((cnt, de'), s₁) (e, same, held₁).
        let number = inum-ext de' (entry v k) same in
        Returns-check (is_count 16 cnt) dirlink_read (ap (is_count 16) e) (
          Returns-if (dirent_inum de' == 0) _ _
            (λ z. returns _ (
              k,
              at,
              omega arith,
              omega arith,
              (λ lt. ground (arith, number)),
              (λ i le lt. absurd (omega arith)),
              held₁,
            ))
            (λ nz.
              Returns-mono
                (free_from-Stops de' r (k + 1) (off + 16) s₁ held₁ (omega arith) (omega arith))
                λ ((off', de''), s') (j, at', le, le_n, is_free, used, held'). (
                  j,
                  at',
                  omega arith,
                  le_n,
                  is_free,
                  (λ i ge lt. elim (Bool-cases (i == k)) [
                    | inl q ↦
                        let ik : i ≡ k = ground arith in
                        λ z. absurd (ground (arith, number, ap (inum_at v) ik, z))
                    | inr q ↦ used i (ground arith) lt
                  ]),
                  held',
                )))

  -- With an entry found, its inode is got and put, and the answer is -1. Otherwise there is one write, of the
  -- entry `k`.
  abbrev pub Links : (ℕ → ℕ) → ℕ → Option ℕ → Outcome (Bool × S) → Type 0
  Links name inum (some k) m =
      (s : S) × st.Holds s
      × (m ≡ (
          es.iget (es.inode dp s).dev (inum_at v k) s >>= λ (h, s').
          es.iput h s' >>= λ s''. ok (false, s'')))
  Links name inum none m =
      (k : ℕ) × (de : ℕ → ℕ) × (s : S) × st.Holds s
      × Linked name inum n v (if k == n then n + 1 else n) (with_entry v k (filled name inum de)) k
      × (m ≡ (
          es.writei dp (filled name inum de) (16 * k) 16 s >>= λ (c, s').
          check (is_count 16 c) dirlink_write >> ok (true, s')))

  link_new-Links :
      (name : ℕ → ℕ) (inum : ℕ) (de : ℕ → ℕ) (s : S)
      → st.Holds s
      → 0 < inum
      → inum < 2 ^ 16
      → find_entry name v n ≡ none
      → Links name inum none (link_new es dp name inum de none s)
  unfolding link_new
  link_new-Links name inum de s held pos lt missing =
      after-bind (Links name inum none) _
        (subst (λ r. Returns (Stops 0) (free_from es r 0 dp de s)) (sym (rounds_lem held))
          (free_from-Stops de n 0 0 s held (omega arith) (omega arith)))
        λ ((off, de'), s₁) (k, at_k, ge, le, free, used, held₁). (
          k,
          de',
          s₁,
          held₁,
          with_entry-Linked name inum n v de' k pos lt missing le free (λ i. used i (omega arith)),
          cc at_k,
        )

  dirlink-step :
      (name : ℕ → ℕ) (inum : ℕ) (de : ℕ → ℕ) (found : Option ℕ) (m : Outcome (Option (ℕ × ℕ) × S))
      → 0 < inum
      → inum < 2 ^ 16
      → find_entry name v n ≡ found
      → LooksUp found m
      → Links name inum found (m >>= λ (o, s₁). link_new es dp name inum de o s₁)
  unfolding link_new
  dirlink-step name inum de none m pos lt at looked =
      after-bind (Links name inum none) _ looked λ (o, s₁) (e, held).
        subst (λ o'. Links name inum none (link_new es dp name inum de o' s₁)) (sym e)
          (link_new-Links name inum de s₁ held pos lt at)
  dirlink-step name inum de (some k) m pos lt at (s, held, e) = (
    s,
    held,
    ap (λ m'. m' >>= λ (o, s₁). link_new es dp name inum de o s₁) e
        ∙ bind-bind {A = ℕ × S} {B = Option (ℕ × ℕ) × S}
            (es.iget (es.inode dp s).dev (inum_at v k) s) (λ (h, s'). ok (some (h, 16 * k), s'))
            (λ (o, s₁). link_new es dp name inum de o s₁),
  )

  pub dirlink-Links :
      (name : ℕ → ℕ) (inum : ℕ) (de : ℕ → ℕ) (s : S)
      → st.Holds s
      → 0 < inum
      → inum < 2 ^ 16
      → Links name inum (find_entry name v n) (dirlink es dp name inum de s)
  unfolding dirlink
  dirlink-Links name inum de s held pos lt =
      dirlink-step name inum de (find_entry name v n) (dirlookup es dp name s) pos lt refl
        (dirlookup-LooksUp name s held)
