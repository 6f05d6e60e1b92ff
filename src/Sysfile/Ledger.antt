-- ===== src/Sysfile/Ledger.antt =====
-- What a system call on paths holds: an open transaction or none, the inodes that it has locked and its
-- references to inodes.
use model_lib.Base.{ℕ, Bool, true, false, Option, none, some, List, ◌∷◌}
use model_lib.Base.Outcome.{Yields}
use model_lib.Fs.Dinode.{Dinode}
use model_lib.File.Services.{FileServices}
use model_lib.Sysfile.Services.{PathServices}

-- The references with the one that a lookup has given.
abbrev pub with_ref : Option ℕ → List ℕ → List ℕ
with_ref none refs = refs
with_ref (some ip) refs = ip ∷ refs

abbrev pub first : Option (ℕ × (ℕ → ℕ)) → Option ℕ
first none = none
first (some (ip, name)) = some ip

abbrev pub found : Option (ℕ × ℕ) → Option ℕ
found none = none
found (some (ip, off)) = some ip

-- `Holds opened locks refs s`: in the state `s` the call has a transaction open or not, has locked the inodes
-- `locks` and has the references `refs`, each list in the order in which it got them, the last first. The
-- laws say what each service does to these, where it returns; Sysfile/Books fills them for any services.
-- `Wrote ip s`: the last bytes written to an inode went to `ip`.
pub record Ledger {S : Type 0} (os : FileServices S) (ps : PathServices S) : Type 1 where
  pub Holds : Bool → List ℕ → List ℕ → S → Type 0
  pub Wrote : ℕ → S → Type 0
  pub swap_locks :
      {opened : Bool} {a b : ℕ} {locks refs : List ℕ} {s : S}
      → Holds opened (a ∷ b ∷ locks) refs s
      → Holds opened (b ∷ a ∷ locks) refs s
  pub swap_refs :
      {opened : Bool} {a b : ℕ} {locks refs : List ℕ} {s : S}
      → Holds opened locks (a ∷ b ∷ refs) s
      → Holds opened locks (b ∷ a ∷ refs) s
  pub begins :
      {locks refs : List ℕ} {s : S}
      → Holds false locks refs s
      → Yields (Holds true locks refs) (os.begin_trans s)
  pub commits :
      {locks refs : List ℕ} {s : S}
      → Holds true locks refs s
      → Yields (Holds false locks refs) (os.commit_trans s)
  pub takes_lock :
      {opened : Bool} {ip : ℕ} {locks refs : List ℕ} {s : S}
      → Holds opened locks (ip ∷ refs) s
      → Yields (Holds opened (ip ∷ locks) (ip ∷ refs)) (os.ilock ip s)
  pub gives_lock :
      {opened : Bool} {ip : ℕ} {locks refs : List ℕ} {s : S}
      → Holds opened (ip ∷ locks) refs s
      → Yields (Holds opened locks refs) (os.iunlock ip s)
  pub puts :
      {opened : Bool} {ip : ℕ} {locks refs : List ℕ} {s : S}
      → Holds opened locks (ip ∷ refs) s
      → Yields (Holds opened locks refs) (os.iput ip s)
  pub sets :
      {opened : Bool} {ip : ℕ} {locks refs : List ℕ} {s : S} (d : Dinode)
      → Holds opened (ip ∷ locks) refs s
      → Holds opened (ip ∷ locks) refs (ps.set_copy ip d s)
  pub updates :
      {ip : ℕ} {locks refs : List ℕ} {s : S}
      → Holds true (ip ∷ locks) refs s
      → Yields (Holds true (ip ∷ locks) refs) (ps.iupdate ip s)
  pub names :
      {opened : Bool} {locks refs : List ℕ} {s : S} (path : ℕ → ℕ)
      → Holds opened locks refs s
      → Yields (λ r. Holds opened locks (with_ref r.0 refs) r.1) (ps.namei path s)
  pub names_parent :
      {opened : Bool} {locks refs : List ℕ} {s : S} (path : ℕ → ℕ)
      → Holds opened locks refs s
      → Yields (λ r. Holds opened locks (with_ref (first r.0) refs) r.1) (ps.nameiparent path s)
  pub allocates :
      {locks refs : List ℕ} {s : S} (dev type : ℕ)
      → Holds true locks refs s
      → Yields (λ r. Holds true locks (with_ref r.0 refs) r.1) (ps.ialloc dev type s)
  pub looks_up :
      {opened : Bool} {dp : ℕ} {locks refs : List ℕ} {s : S} (name : ℕ → ℕ)
      → Holds opened (dp ∷ locks) refs s
      → Yields
          (λ r. Holds opened (dp ∷ locks) (with_ref (found r.0) refs) r.1)
          (ps.dirlookup dp name s)
  pub links :
      {dp : ℕ} {locks refs : List ℕ} {s : S} (name : ℕ → ℕ) (inum : ℕ)
      → Holds true (dp ∷ locks) refs s
      → Yields (λ r. Holds true (dp ∷ locks) refs r.1) (ps.dirlink dp name inum s)
  pub reads :
      {opened : Bool} {ip : ℕ} {locks refs : List ℕ} {s : S} (off n : ℕ)
      → Holds opened (ip ∷ locks) refs s
      → Yields (λ r. Holds opened (ip ∷ locks) refs r.1) (ps.read_bytes ip off n s)
  pub writes :
      {ip : ℕ} {locks refs : List ℕ} {s : S} (src : ℕ → ℕ) (off n : ℕ)
      → Holds true (ip ∷ locks) refs s
      → Yields
          (λ r. Holds true (ip ∷ locks) refs r.1 × Wrote ip r.1)
          (ps.write_bytes ip src off n s)
  pub unlocks_after :
      {opened : Bool} {ip w : ℕ} {locks refs : List ℕ} {s : S}
      → Holds opened (ip ∷ locks) refs s
      → Wrote w s
      → Yields (λ s'. Holds opened locks refs s' × Wrote w s') (os.iunlock ip s)
  pub commits_after :
      {w : ℕ} {locks refs : List ℕ} {s : S}
      → Holds true locks refs s
      → Wrote w s
      → Yields (λ s'. Holds false locks refs s' × Wrote w s') (os.commit_trans s)
