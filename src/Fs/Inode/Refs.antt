-- ===== src/Fs/Inode/Refs.antt =====
-- References to entries of the inode cache.
use model_lib.Base.{
  ℕ, ◌+◌, ◌<◌, ◌≡◌, ◌≢◌, ◌⊎◌, refl, sym, ap, ◌∙◌, inl, inr, true, false, false≢true, Option, none,
  some, ◌==◌, Bool-cases, arith,
}
use model_lib.Base.Outcome.{Returns, returns}
use model_lib.Base.Family.{update, update_self, update_ne}
use model_lib.Base.Search.{
  search_from, search_from-some, search_from-none, any_below, any_below-elim,
}
use model_lib.Fs.Inode.{ninode, Inode, Icache, is_cached, fresh_inode, iget_from, iget}

-- No inode has two entries.
abbrev pub Unique : Icache → Type 0
Unique c =
    (i j : ℕ)
    → i < ninode
    → j < ninode
    → 0 < (c i).ref
    → 0 < (c j).ref
    → (c i).dev ≡ (c j).dev
    → (c i).inum ≡ (c j).inum
    → i ≡ j

-- One entry, which is for the inode, has one reference more.
pub record Got (dev inum : ℕ) (c : Icache) (r : ℕ × Icache) : Type 0 where
  pub slot : r.0 < ninode
  pub dev_at : (r.1 r.0).dev ≡ dev
  pub inum_at : (r.1 r.0).inum ≡ inum
  pub ref_up : (r.1 r.0).ref ≡ (c r.0).ref + 1
  pub was : ((c r.0).ref ≡ 0) ⊎ (((c r.0).dev ≡ dev) × ((c r.0).inum ≡ inum))
  pub others : (j : ℕ) → j ≢ r.0 → r.1 j ≡ c j
  pub unique : Unique r.1

-- A changed entry that no other entry with references duplicates.
update-Unique :
    (c : Icache) (i : ℕ) (ip : Inode)
    → Unique c
    → ((j : ℕ) → j < ninode → j ≢ i → 0 < (c j).ref → (c j).dev ≡ ip.dev → (c j).inum ≢ ip.inum)
    → Unique (update c i ip)
update-Unique c i ip u alone x y lx ly rx ry ed ei = elim (Bool-cases (x == i)) [
  | inl qx ↦ elim (Bool-cases (y == i)) [
    | inl qy ↦ ground arith
    | inr qy ↦ absurd (alone y ly (ground arith) (ground arith) (ground arith) (ground arith))
  ]
  | inr qx ↦ elim (Bool-cases (y == i)) [
    | inl qy ↦ absurd (alone x lx (ground arith) (ground arith) (ground arith) (ground arith))
    | inr qy ↦ u x y lx ly (ground arith) (ground arith) (ground arith) (ground arith)
  ]
]

-- For an inode that has an entry, or with an entry to spare, `iget` returns an entry for the inode with
-- one reference more than before: the one that it has, or else an empty one. All others are as
-- before, and no inode gets a second entry.
pub iget_lem :
    (dev inum : ℕ) (c : Icache)
    → Unique c
    → any_below (λ i. is_cached dev inum (c i)) ninode ≡ true
      ⊎ any_below (λ i. (c i).ref == 0) ninode ≡ true
    → Returns (Got dev inum c) (iget dev inum c)
unfolding iget iget_from
iget_lem dev inum c u can =
    split (search_from (λ i. is_cached dev inum (c i)) ninode 0)
      (search_from (λ i. (c i).ref == 0) ninode 0) refl refl
  where
    split :
        (found empty : Option ℕ)
        → search_from (λ i. is_cached dev inum (c i)) ninode 0 ≡ found
        → search_from (λ i. (c i).ref == 0) ninode 0 ≡ empty
        → Returns (Got dev inum c) (iget_from dev inum found empty c)
    split (some i) empty ef ee =
        let (hit, _, lt) = search_from-some (λ i. is_cached dev inum (c i)) ninode 0 {j = i} ef in
        let facts : (0 < (c i).ref) × ((c i).dev ≡ dev) × ((c i).inum ≡ inum) = ground arith in
        let ip : Inode = record (c i) { ref = (c i).ref + 1 } in
        returns _ record {
          slot = omega arith;
          dev_at = ap (λ (p : Inode). p.dev) (update_self c i ip) ∙ facts.1;
          inum_at = ap (λ (p : Inode). p.inum) (update_self c i ip) ∙ facts.2;
          ref_up = ap (λ (p : Inode). p.ref) (update_self c i ip);
          was = inr (facts.1, facts.2);
          others = λ j ne. update_ne c i j ip ne;
          unique =
              update-Unique c i ip u
                λ j j_lt ne ref ed ei. ne (u j i j_lt (omega arith) ref facts.0 ed ei);
        }
    split none (some i) ef ee =
        let (hit, _, lt) = search_from-some (λ i. (c i).ref == 0) ninode 0 {j = i} ee in
        let empty : (c i).ref ≡ 0 = ground arith in
        let ip : Inode = fresh_inode dev inum (c i) in
        returns _ record {
          slot = omega arith;
          dev_at = ap (λ (p : Inode). p.dev) (update_self c i ip);
          inum_at = ap (λ (p : Inode). p.inum) (update_self c i ip);
          ref_up = ap (λ (p : Inode). p.ref) (update_self c i ip) ∙ omega (arith, empty);
          was = inl empty;
          others = λ j ne. update_ne c i j ip ne;
          unique = update-Unique c i ip u λ j j_lt ne ref ed ei.
              let miss : is_cached dev inum (c j) ≡ false =
                search_from-none (λ i. is_cached dev inum (c i)) ninode 0 j ef (omega arith)
                  (omega arith) in
              false≢true (sym miss ∙ ground arith);
        }
    split none none ef ee = elim can [
      | inl h ↦
          let (j, lt, t) = any_below-elim (λ i. is_cached dev inum (c i)) ninode h in
          absurd (
            false≢true (
              sym (
                search_from-none (λ i. is_cached dev inum (c i)) ninode 0 j ef (omega arith)
                  (omega arith))
              ∙ t))
      | inr h ↦
          let (j, lt, t) = any_below-elim (λ i. (c i).ref == 0) ninode h in
          absurd (
            false≢true (
              sym (search_from-none (λ i. (c i).ref == 0) ninode 0 j ee (omega arith) (omega arith))
              ∙ t))
    ]
