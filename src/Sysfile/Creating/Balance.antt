-- ===== src/Sysfile/Creating/Balance.antt =====
-- What the system calls that create inodes hold when they return.
use model_lib.Base.{ℕ, Bool, true, false, ◌&&◌, Option, none, some, List, ◌∷◌, ◌==◌}
use model_lib.Base.Outcome.{
  Outcome, ◌>>=◌, Yields, yields, panics, Yields-bind, Yields-then, Yields-if, check,
  create_no_dots, create_no_entry, symlink_short,
}
use model_lib.File.Services.{FileServices}
use model_lib.File.Passwords.{t_file}
use model_lib.Syscall.{User, argint, argstr}
use model_lib.Sysfile.Services.{PathServices}
use model_lib.Sysfile.Ledger.{Ledger, with_ref, first, found}
use model_lib.Dirs.{is_count}
use model_lib.Sysfile.Linking.{more_links, type_of, t_dir, dot, dot_dot}
use model_lib.Sysfile.Linking.Balance.{unlock_put, changes, Balanced}
use model_lib.Sysfile.Creating.{
  t_symlink, is_protected, give_up, create_old, dots, device, create_new, create_on, create_in,
  create, made, mkdir_arg, sys_mkdir, mknod_args, sys_mknod, symlink_on, symlink_path,
}

module _ {S : Type 0} {os : FileServices S} {ps : PathServices S} (ledger : Ledger os ps) where
  -- With a transaction open, a new inode is locked and has a reference; otherwise nothing is held but what was
  -- held before.
  abbrev pub Created : List ℕ → List ℕ → Outcome (Option ℕ × S) → Type 0
  Created locks refs m =
      Yields (λ r. ledger.Holds true (with_ref r.0 locks) (with_ref r.0 refs) r.1) m

  give_up-Created :
      {locks refs : List ℕ} (ip : ℕ) (s : S)
      → ledger.Holds true (ip ∷ locks) (ip ∷ refs) s
      → Created locks refs (give_up os ps ip s)
  give_up-Created ip s h = Yields-bind _ (unlock_put ledger ip s h) λ s₁ h₁. yields _ h₁

  create_old-Created :
      {locks refs : List ℕ} (type ip : ℕ) (s : S)
      → ledger.Holds true (ip ∷ locks) (ip ∷ refs) s
      → Created locks refs (create_old os ps type ip s)
  unfolding create_old
  create_old-Created type ip s h =
      Yields-if (is_protected os ps ip s) _ _ (λ e. give_up-Created ip s h)
        (λ e.
          Yields-if (type == t_file && type_of os ps ip s == t_file) _ _ (λ e'. yields _ h)
            (λ e'. give_up-Created ip s h))

  dots-keeps :
      {locks refs : List ℕ} (type dp ip : ℕ) (s : S)
      → ledger.Holds true (ip ∷ dp ∷ locks) refs s
      → Yields (ledger.Holds true (ip ∷ dp ∷ locks) refs) (dots os ps type dp ip s)
  unfolding dots
  dots-keeps type dp ip s h =
      Yields-if (type == t_dir) _ _
        (λ e. Yields-bind _ (changes ledger dp more_links s (ledger.swap_locks h)) λ s₁ h₁.
          Yields-bind _ (ledger.links dot _ (ledger.swap_locks h₁)) λ (a, s₂) h₂.
            Yields-then (check a create_no_dots) _ λ _.
              Yields-bind _ (ledger.links dot_dot _ h₂)
                λ (b, s₃) h₃. Yields-then (check b create_no_dots) _ λ _. yields _ h₃)
        (λ e. yields _ h)

  create_new-Created :
      {locks : List ℕ} (refs : List ℕ) (type major minor dp : ℕ) (name : ℕ → ℕ) (o : Option ℕ)
      (s : S)
      → ledger.Holds true (dp ∷ locks) (with_ref o (dp ∷ refs)) s
      → Created locks refs (create_new os ps type major minor dp name o s)
  unfolding create_new
  create_new-Created refs type major minor dp name none s h = panics _
  create_new-Created refs type major minor dp name (some ip) s h =
      Yields-bind _ (ledger.takes_lock h) λ s₁ h₁.
        Yields-bind _ (changes ledger ip (device major minor) s₁ h₁) λ s₂ h₂.
          Yields-bind _ (dots-keeps type dp ip s₂ h₂) λ s₃ h₃.
            Yields-bind _ (ledger.links name _ (ledger.swap_locks h₃)) λ (done, s₄) h₄.
              Yields-then (check done create_no_entry) _ λ _.
                Yields-bind _ (unlock_put ledger dp s₄ (ledger.swap_refs h₄)) λ s₅ h₅. yields _ h₅

  create_on-Created :
      {locks : List ℕ} (refs : List ℕ) (type major minor dp : ℕ) (name : ℕ → ℕ) (o : Option (ℕ × ℕ))
      (s : S)
      → ledger.Holds true (dp ∷ locks) (with_ref (found o) (dp ∷ refs)) s
      → Created locks refs (create_on os ps type major minor dp name o s)
  unfolding create_on
  create_on-Created refs type major minor dp name (some (ip, off)) s h =
      Yields-bind _ (unlock_put ledger dp s (ledger.swap_refs h))
        λ s₁ h₁. Yields-bind _ (ledger.takes_lock h₁) λ s₂ h₂. create_old-Created type ip s₂ h₂
  create_on-Created refs type major minor dp name none s h =
      Yields-bind _ (ledger.allocates _ type h)
        λ (o, s₁) h₁. create_new-Created _ type major minor dp name o s₁ h₁

  create_in-Created :
      {locks : List ℕ} (refs : List ℕ) (type major minor : ℕ) (o : Option (ℕ × (ℕ → ℕ))) (s : S)
      → ledger.Holds true locks (with_ref (first o) refs) s
      → Created locks refs (create_in os ps type major minor o s)
  unfolding create_in
  create_in-Created refs type major minor none s h = yields _ h
  create_in-Created refs type major minor (some (dp, name)) s h =
      Yields-bind _ (ledger.takes_lock h) λ s₁ h₁.
        Yields-bind _ (ledger.looks_up name h₁)
          λ (o, s₂) h₂. create_on-Created _ type major minor dp name o s₂ h₂

  -- Where `create`, called in a transaction, returns an inode, the caller has this inode locked and one reference to it
  -- more than before, and nothing else; where it returns a null pointer the caller holds what it held before.
  -- The transaction stays open.
  pub create-Created :
      (locks refs : List ℕ) (path : ℕ → ℕ) (type major minor : ℕ) (s : S)
      → ledger.Holds true locks refs s
      → Created locks refs (create os ps path type major minor s)
  unfolding create
  create-Created locks refs path type major minor s h =
      Yields-bind _ (ledger.names_parent path h)
        λ (o, s₁) h₁. create_in-Created _ type major minor o s₁ h₁

  made-Balanced :
      {locks : List ℕ} (refs : List ℕ) (o : Option ℕ) (s : S)
      → ledger.Holds true (with_ref o locks) (with_ref o refs) s
      → Balanced ledger locks refs (made os ps o s)
  unfolding made
  made-Balanced refs none s h = Yields-bind _ (ledger.commits h) λ s₁ h₁. yields _ h₁
  made-Balanced refs (some ip) s h =
      Yields-bind _ (unlock_put ledger ip s h)
        λ s₁ h₁. Yields-bind _ (ledger.commits h₁) λ s₂ h₂. yields _ h₂

  made_by-Balanced :
      {locks refs : List ℕ} (path : ℕ → ℕ) (type major minor : ℕ) (s : S)
      → ledger.Holds true locks refs s
      → Balanced ledger locks refs
          (create os ps path type major minor s >>= λ (o, s'). made os ps o s')
  made_by-Balanced path type major minor s h =
      Yields-bind _ (create-Created _ _ path type major minor s h)
        λ (o, s₁) h₁. made-Balanced _ o s₁ h₁

  -- `sys_mkdir` and `sys_mknod`, called with no transaction open, give back on every way on which they return all that
  -- they have taken: no transaction is left open, and the locks and the references to inodes are those from
  -- before.
  pub sys_mkdir-Balanced :
      (locks refs : List ℕ) (u : User) (s : S)
      → ledger.Holds false locks refs s
      → Balanced ledger locks refs (sys_mkdir os ps u s)
        × Balanced ledger locks refs (sys_mknod os ps u s)
  unfolding sys_mkdir sys_mknod
  sys_mkdir-Balanced locks refs u s h = (
    Yields-bind _ (ledger.begins h) λ s₁ h₁. mkdir_arg-Balanced (argstr 0 u) s₁ h₁,
    Yields-bind _ (ledger.begins h)
        λ s₁ h₁. mknod_args-Balanced (argstr 0 u) (argint 1 u) (argint 2 u) s₁ h₁,
  )
    where
      mkdir_arg-Balanced :
          (o : Option (ℕ × ℕ)) (s : S)
          → ledger.Holds true locks refs s
          → Yields (λ r. ledger.Holds false locks refs r.1) (mkdir_arg os ps o u s)
      mkdir_arg-Balanced none s h = made-Balanced refs none s h
      mkdir_arg-Balanced (some (path, _)) s h = made_by-Balanced _ _ _ _ s h

      mknod_args-Balanced :
          (o : Option (ℕ × ℕ)) (major minor : Option ℕ) (s : S)
          → ledger.Holds true locks refs s
          → Yields (λ r. ledger.Holds false locks refs r.1) (mknod_args os ps o major minor u s)
      mknod_args-Balanced (some (path, _)) (some major) (some minor) s h =
          made_by-Balanced _ _ _ _ s h
      mknod_args-Balanced (some r) (some major) none s h = made-Balanced refs none s h
      mknod_args-Balanced (some r) none minor s h = made-Balanced refs none s h
      mknod_args-Balanced none major minor s h = made-Balanced refs none s h

  -- What is held after `filesymlink`, by its answer.
  abbrev pub Leaked : List ℕ → List ℕ → Bool × S → Type 0
  Leaked locks refs (true, s) =
      (ip : ℕ) × ledger.Holds false locks (ip ∷ refs) s × ledger.Wrote ip s
  Leaked locks refs (false, s) = ledger.Holds false locks refs s

  symlink_on-Leaked :
      {locks refs : List ℕ} (old : ℕ → ℕ) (len : ℕ) (o : Option ℕ) (s : S)
      → ledger.Holds true (with_ref o locks) (with_ref o refs) s
      → Yields (Leaked locks refs) (symlink_on os ps old len o s)
  unfolding symlink_on
  symlink_on-Leaked old len none s h = Yields-bind _ (ledger.commits h) λ s₁ h₁. yields _ h₁
  symlink_on-Leaked old len (some ip) s h =
      Yields-bind _ (ledger.writes old 0 len h) λ (n, s₁) (h₁, w₁).
        Yields-then (check (is_count len n) symlink_short) _ λ _.
          Yields-bind _ (ledger.unlocks_after h₁ w₁) λ s₂ (h₂, w₂).
            Yields-bind _ (ledger.commits_after h₂ w₂) λ s₃ (h₃, w₃). yields _ (ip, h₃, w₃)

  -- Where `filesymlink`, from the path of the new link on and called with no transaction open, succeeds, the reference to
  -- the new inode is left over; where it fails, nothing is.
  pub symlink_path-leaks :
      (locks refs : List ℕ) (old : ℕ → ℕ) (len : ℕ) (path : Option (ℕ → ℕ)) (s : S)
      → ledger.Holds false locks refs s
      → Yields (Leaked locks refs) (symlink_path os ps old len path s)
  unfolding symlink_path
  symlink_path-leaks locks refs old len none s h = yields _ h
  symlink_path-leaks locks refs old len (some path) s h = Yields-bind _ (ledger.begins h) λ s₁ h₁.
      Yields-bind _ (create-Created _ _ path t_symlink 0 0 s₁ h₁)
        λ (o, s₂) h₂. symlink_on-Leaked old len o s₂ h₂
