-- ===== src/Paths/Settled.antt =====
-- What `namex` holds when it returns, by the books of Sysfile/Books kept beside the state of any services.
use model_lib.Base.{
  ℕ, zero, suc, ◌∙◌, Bool, true, false, not, ◌&&◌, Option, none, some, List, [], ◌∷◌, ◌==◌,
  if◌then◌else◌, length,
}
use model_lib.Base.Outcome.{Outcome, ok, ◌>>=◌, Yields, yields, Yields-bind, Yields-then, Yields-if}
use model_lib.Log.{rootdev}
use model_lib.Paths.{
  rootino, t_dir, skipelem, is_end, is_absolute, leave, step_to, round, loop_end, round_on, walk,
  namex,
}
use model_lib.Paths.Services.{DirServices}
use model_lib.Sysfile.Ledger.{with_ref}
use model_lib.Sysfile.Books.{
  Books, take_lock, give_lock, take_ref, give_ref, use_inode, booked, booked_value, Says, held-swap,
  take_lock-Says, give_lock-Says, take_ref-Says, give_ref-Says, use_inode-Says,
}

module _ {S : Type 0} where
  -- The services with books.
  abbrev pub dirs_booked : DirServices S → DirServices (S × Books)
  dirs_booked ds = record {
    iget = λ dev inum. booked_value (ds.iget dev inum) (λ ip. take_ref (some ip));
    idup = λ ip. booked (ds.idup ip) (take_ref (some ip));
    ilock = λ ip. booked (ds.ilock ip) (take_lock ip);
    iunlock = λ ip. booked (ds.iunlock ip) (give_lock ip);
    iput = λ ip. booked (ds.iput ip) (give_ref ip);
    type_of = λ ip (s, b). ds.type_of ip s;
    dirlookup = λ dp name. booked_value (ds.dirlookup dp name) (λ o b. take_ref o (use_inode dp b));
  }

swap_refs :
    {locks refs : List ℕ} {x y : ℕ} {b : Books}
    → Says false locks (x ∷ y ∷ refs) b
    → Says false locks (y ∷ x ∷ refs) b
swap_refs {refs} {x} {y} h = record {
  opened_at = h.opened_at;
  locks_at = h.locks_at;
  refs_at = λ i. h.refs_at i ∙ held-swap x y i refs;
  no_fault = h.no_fault;
}

module _ {S : Type 0} (ds : DirServices S) (refs : List ℕ) where
  -- No lock is held, and no reference but `refs` and one to the inode that is returned.
  abbrev pub Settled : Option ℕ × ((ℕ → ℕ) × (S × Books)) → Type 0
  Settled r = Says false [] (with_ref r.0 refs) r.1.1.1

  unlocks :
      {locks refs : List ℕ} (ip : ℕ) (s : S × Books)
      → Says false (ip ∷ locks) refs s.1
      → Yields (λ (r : S × Books). Says false locks refs r.1) ((dirs_booked ds).iunlock ip s)
  unlocks ip s h = Yields-then (ds.iunlock ip s.0) _ λ s'. yields _ (give_lock-Says ip h)

  puts :
      {locks refs : List ℕ} (ip : ℕ) (s : S × Books)
      → Says false locks (ip ∷ refs) s.1
      → Yields (λ (r : S × Books). Says false locks refs r.1) ((dirs_booked ds).iput ip s)
  puts ip s h = Yields-then (ds.iput ip s.0) _ λ s'. yields _ (give_ref-Says ip h)

  leave-Settled :
      (ip : ℕ) (name : ℕ → ℕ) (s : S × Books)
      → Says false (ip ∷ []) (ip ∷ refs) s.1
      → Yields Settled (leave (dirs_booked ds) ip name s)
  unfolding leave
  leave-Settled ip name s h =
      Yields-bind _ (unlocks ip s h) λ s₁ h₁. Yields-bind _ (puts ip s₁ h₁) λ s₂ h₂. yields _ h₂

  step_to-Settled :
      (ip : ℕ) (name : ℕ → ℕ) (next : ℕ → S × Books → Outcome (Option ℕ × ((ℕ → ℕ) × (S × Books))))
      (o : Option ℕ) (s : S × Books)
      → Says false (ip ∷ []) (with_ref o (ip ∷ refs)) s.1
      → ((n : ℕ) (s' : S × Books) → Says false [] (n ∷ refs) s'.1 → Yields Settled (next n s'))
      → Yields Settled (step_to (dirs_booked ds) ip name next o s)
  unfolding step_to
  step_to-Settled ip name next none s h rest = leave-Settled ip name s h
  step_to-Settled ip name next (some n) s h rest =
      Yields-bind _ (unlocks ip s h)
        λ s₁ h₁. Yields-bind _ (puts ip s₁ (swap_refs h₁)) λ s₂ h₂. rest n s₂ h₂

  round-Settled :
      (nameiparent : Bool) (ip : ℕ) (path : List ℕ) (name : ℕ → ℕ)
      (next : ℕ → S × Books → Outcome (Option ℕ × ((ℕ → ℕ) × (S × Books)))) (s : S × Books)
      → Says false [] (ip ∷ refs) s.1
      → ((n : ℕ) (s' : S × Books) → Says false [] (n ∷ refs) s'.1 → Yields Settled (next n s'))
      → Yields Settled (round (dirs_booked ds) nameiparent ip path name next s)
  unfolding round
  round-Settled nameiparent ip path name next s h rest = Yields-bind _ (locks ip s h) λ s₁ h₁.
      Yields-if (not ((dirs_booked ds).type_of ip s₁ == t_dir)) _ _
        (λ file. leave-Settled ip name s₁ h₁)
        (λ dir.
          Yields-if (nameiparent && is_end path) _ _
            (λ last. Yields-bind _ (unlocks ip s₁ h₁) λ s₂ h₂. yields _ h₂)
            (λ more.
              Yields-bind _ (looks_up ip name s₁ h₁)
                λ (o, s₂) h₂. step_to-Settled ip name next o s₂ h₂ rest))
    where
      locks :
          (ip : ℕ) (s : S × Books)
          → Says false [] (ip ∷ refs) s.1
          → Yields
              (λ (r : S × Books). Says false (ip ∷ []) (ip ∷ refs) r.1)
              ((dirs_booked ds).ilock ip s)
      locks ip s h = Yields-then (ds.ilock ip s.0) _ λ s'. yields _ (take_lock-Says ip h)

      looks_up :
          (ip : ℕ) (name : ℕ → ℕ) (s : S × Books)
          → Says false (ip ∷ []) (ip ∷ refs) s.1
          → Yields
              (λ (r : Option ℕ × (S × Books)).
                Says false (ip ∷ []) (with_ref r.0 (ip ∷ refs)) r.1.1)
              ((dirs_booked ds).dirlookup ip name s)
      looks_up ip name s h =
          Yields-then (ds.dirlookup ip name s.0) _
            λ (o, s'). yields _ (take_ref-Says o (use_inode-Says ip h))

  loop_end-Settled :
      (nameiparent : Bool) (ip : ℕ) (name : ℕ → ℕ) (s : S × Books)
      → Says false [] (ip ∷ refs) s.1
      → Yields Settled (loop_end (dirs_booked ds) nameiparent ip name s)
  unfolding loop_end
  loop_end-Settled nameiparent ip name s h =
      Yields-if nameiparent _ _ (λ e. Yields-bind _ (puts ip s h) λ s₁ h₁. yields _ h₁)
        (λ e. yields _ h)

  round_on-Settled :
      (nameiparent : Bool) (ip : ℕ) (name : ℕ → ℕ)
      (next : List ℕ → (ℕ → ℕ) → ℕ → S × Books → Outcome (Option ℕ × ((ℕ → ℕ) × (S × Books))))
      (o : Option (List ℕ × (ℕ → ℕ))) (s : S × Books)
      → Says false [] (ip ∷ refs) s.1
      → ((path : List ℕ) (name : ℕ → ℕ) (n : ℕ) (s' : S × Books)
          → Says false [] (n ∷ refs) s'.1
          → Yields Settled (next path name n s'))
      → Yields Settled (round_on (dirs_booked ds) nameiparent ip name next o s)
  round_on-Settled nameiparent ip name next none s h rest = loop_end-Settled nameiparent ip name s h
  round_on-Settled nameiparent ip name next (some (path, name')) s h rest =
      round-Settled nameiparent ip path name' (next path name') s h (rest path name')

  walk-Settled :
      (fuel : ℕ) (nameiparent : Bool) (path : List ℕ) (name : ℕ → ℕ) (ip : ℕ) (s : S × Books)
      → Says false [] (ip ∷ refs) s.1
      → Yields Settled (walk (dirs_booked ds) fuel nameiparent path name ip s)
  unfolding walk
  walk-Settled zero nameiparent path name ip s h = loop_end-Settled nameiparent ip name s h
  walk-Settled (suc fuel) nameiparent path name ip s h =
      round_on-Settled nameiparent ip name (walk (dirs_booked ds) fuel nameiparent)
        (skipelem path name) s h (walk-Settled fuel nameiparent)

  -- `namex`, and so `namei` and `nameiparent`, keeps its books for any services, on whose behaviour nothing is
  -- assumed. Where it returns an inode, the caller has one reference to this inode more than before; where it
  -- returns a null pointer, it has those from before. It has no lock, and no call was out of place: it gave
  -- back only what it held, locked only inodes that it had a reference to and looked only into a directory
  -- that it had locked.
  pub namex-settles :
      (cwd : ℕ) (path : List ℕ) (nameiparent : Bool) (name : ℕ → ℕ) (s : S) (b : Books)
      → Says false [] refs b
      → Yields Settled (namex (dirs_booked ds) cwd path nameiparent name (s, b))
  unfolding namex
  namex-settles cwd path nameiparent name s b h =
      Yields-bind _ (starts (is_absolute path))
        λ (ip, s₁) h₁. walk-Settled (length path) nameiparent path name ip s₁ h₁
    where
      starts :
          (absolute : Bool)
          → Yields
              (λ (r : ℕ × (S × Books)). Says false [] (r.0 ∷ refs) r.1.1)
              (if absolute
                then (dirs_booked ds).iget rootdev rootino (s, b)
                else (do s' ← (dirs_booked ds).idup cwd (s, b); ok (cwd, s')))
      starts true =
          Yields-then (ds.iget rootdev rootino s) _ λ (ip, s'). yields _ (take_ref-Says (some ip) h)
      starts false =
          Yields-bind _
            (Yields-then {Q = λ (r : S × Books). Says false [] (cwd ∷ refs) r.1} (ds.idup cwd s) _
              λ s'. yields _ (take_ref-Says (some cwd) h))
            λ s' h'. yields _ h'
