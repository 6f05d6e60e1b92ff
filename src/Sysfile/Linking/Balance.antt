-- ===== src/Sysfile/Linking/Balance.antt =====
-- The system calls that link, unlink and create give back what they take.
use model_lib.Base.{
  ℕ, zero, suc, ◌+◌, Bool, true, false, not, ◌||◌, Option, none, some, List, ◌∷◌, ◌==◌, leb, ◌^◌,
}
use model_lib.Base.Outcome.{
  Outcome, ok, ◌>>=◌, Yields, yields, Yields-bind, Yields-then, Yields-if, check, unlink_no_links,
  unlink_short, isdirempty_short,
}
use model_lib.Fs.Dinode.{Dinode}
use model_lib.File.Services.{FileServices}
use model_lib.Syscall.{User, argstr}
use model_lib.Sysfile.Services.{PathServices}
use model_lib.Dirs.{same_name, dirent_inum, is_count}
use model_lib.Sysfile.Linking.{
  fewer_links, more_links, bytes_at, dot, dot_dot, iunlockput, change_inode, link_bad, link_entry,
  link_end, link_parent, link_locked, link_inode, link_args, sys_link, empty_from, isdirempty,
  unlink_bad, may_unlink, unlink_dir, unlink_entry, unlink_found, unlink_parent, unlink_arg,
  sys_unlink, type_of, t_dir,
}
use model_lib.Sysfile.Ledger.{Ledger, with_ref, first, found}

module _ {S : Type 0} {os : FileServices S} {ps : PathServices S} (ledger : Ledger os ps) where
  pub unlock_put :
      {opened : Bool} {locks refs : List ℕ} (ip : ℕ) (s : S)
      → ledger.Holds opened (ip ∷ locks) (ip ∷ refs) s
      → Yields (ledger.Holds opened locks refs) (iunlockput os ps ip s)
  unfolding iunlockput
  unlock_put ip s h = Yields-bind _ (ledger.gives_lock h) λ s₁ h₁. ledger.puts h₁

  pub changes :
      {locks refs : List ℕ} (ip : ℕ) (f : Dinode → Dinode) (s : S)
      → ledger.Holds true (ip ∷ locks) refs s
      → Yields (ledger.Holds true (ip ∷ locks) refs) (change_inode os ps ip f s)
  unfolding change_inode
  changes ip f s h = ledger.updates (ledger.sets _ h)

  -- A call that ends with nothing held but what was held before it.
  abbrev pub Balanced : {A : Type 0} → List ℕ → List ℕ → Outcome (A × S) → Type 0
  Balanced locks refs m = Yields (λ r. ledger.Holds false locks refs r.1) m

  end_trans :
      {locks refs : List ℕ} (answer : Bool) (s : S)
      → ledger.Holds true locks refs s
      → Yields
          (λ (r : Bool × S). ledger.Holds false locks refs r.1)
          (os.commit_trans s >>= λ s'. ok (answer, s'))
  end_trans answer s h = Yields-bind _ (ledger.commits h) λ s' h'. yields _ h'

  link_bad-Balanced :
      {locks refs : List ℕ} (ip : ℕ) (s : S)
      → ledger.Holds true locks (ip ∷ refs) s
      → Balanced locks refs (link_bad os ps ip s)
  unfolding link_bad
  link_bad-Balanced ip s h = Yields-bind _ (ledger.takes_lock h) λ s₁ h₁.
      Yields-bind _ (changes ip fewer_links s₁ h₁)
        λ s₂ h₂. Yields-bind _ (unlock_put ip s₂ h₂) λ s₃ h₃. end_trans false s₃ h₃

  link_entry-keeps :
      {locks refs : List ℕ} (ip dp : ℕ) (name : ℕ → ℕ) (s : S)
      → ledger.Holds true (dp ∷ locks) refs s
      → Yields (λ r. ledger.Holds true (dp ∷ locks) refs r.1) (link_entry os ps ip dp name s)
  unfolding link_entry
  link_entry-keeps ip dp name s h =
      Yields-if ((ps.inode dp s).dev == (ps.inode ip s).dev) _ _ (λ e. ledger.links name _ h)
        (λ e. yields _ h)

  link_end-Balanced :
      {locks refs : List ℕ} (ip : ℕ) (done : Bool) (s : S)
      → ledger.Holds true locks (ip ∷ refs) s
      → Balanced locks refs (link_end os ps ip done s)
  unfolding link_end
  link_end-Balanced ip true s h = Yields-bind _ (ledger.puts h) λ s₁ h₁. end_trans true s₁ h₁
  link_end-Balanced ip false s h = link_bad-Balanced ip s h

  link_parent-Balanced :
      {locks : List ℕ} (refs : List ℕ) (ip : ℕ) (o : Option (ℕ × (ℕ → ℕ))) (s : S)
      → ledger.Holds true locks (with_ref (first o) (ip ∷ refs)) s
      → Balanced locks refs (link_parent os ps ip o s)
  unfolding link_parent
  link_parent-Balanced refs ip none s h = link_bad-Balanced ip s h
  link_parent-Balanced refs ip (some (dp, name)) s h = Yields-bind _ (ledger.takes_lock h) λ s₁ h₁.
      Yields-bind _ (link_entry-keeps ip dp name s₁ h₁) λ (done, s₂) h₂.
        Yields-bind _ (unlock_put dp s₂ h₂) λ s₃ h₃. link_end-Balanced ip done s₃ h₃

  link_locked-Balanced :
      {locks refs : List ℕ} (ip : ℕ) (new : ℕ → ℕ) (s : S)
      → ledger.Holds true (ip ∷ locks) (ip ∷ refs) s
      → Balanced locks refs (link_locked os ps ip new s)
  unfolding link_locked
  link_locked-Balanced ip new s h =
      Yields-if (type_of os ps ip s == t_dir) _ _
        (λ dir. Yields-bind _ (unlock_put ip s h) λ s₁ h₁. end_trans false s₁ h₁)
        (λ other. Yields-bind _ (changes ip more_links s h) λ s₁ h₁.
          Yields-bind _ (ledger.gives_lock h₁) λ s₂ h₂.
            Yields-bind _ (ledger.names_parent new h₂)
              λ (o, s₃) h₃. link_parent-Balanced _ ip o s₃ h₃)

  link_inode-Balanced :
      {locks : List ℕ} (refs : List ℕ) (new : ℕ → ℕ) (o : Option ℕ) (s : S)
      → ledger.Holds false locks (with_ref o refs) s
      → Balanced locks refs (link_inode os ps new o s)
  unfolding link_inode
  link_inode-Balanced refs new none s h = yields _ h
  link_inode-Balanced refs new (some ip) s h =
      Yields-bind _ (ledger.begins h)
        λ s₁ h₁. Yields-bind _ (ledger.takes_lock h₁) λ s₂ h₂. link_locked-Balanced ip new s₂ h₂

  link_args-Balanced :
      {locks refs : List ℕ} (old new : Option (ℕ × ℕ)) (u : User) (s : S)
      → ledger.Holds false locks refs s
      → Balanced locks refs (link_args os ps old new u s)
  link_args-Balanced (some (old, _)) (some (new, _)) u s h =
      Yields-bind _ (ledger.names (bytes_at u old) h)
        λ (o, s₁) h₁. link_inode-Balanced _ (bytes_at u new) o s₁ h₁
  link_args-Balanced (some old) none u s h = yields _ h
  link_args-Balanced none o u s h = yields _ h

  -- `sys_link`, called with no transaction open, gives back on every way on which it returns all that it has
  -- taken: no transaction is left open, and the locks and the references to inodes are those from before it.
  pub sys_link-Balanced :
      (locks refs : List ℕ) (u : User) (s : S)
      → ledger.Holds false locks refs s
      → Balanced locks refs (sys_link os ps u s)
  unfolding sys_link
  sys_link-Balanced locks refs u s h = link_args-Balanced (argstr 0 u) (argstr 1 u) u s h

  empty_from-keeps :
      {opened : Bool} {locks refs : List ℕ} (r off dp : ℕ) (s : S)
      → ledger.Holds opened (dp ∷ locks) refs s
      → Yields (λ q. ledger.Holds opened (dp ∷ locks) refs q.1) (empty_from os ps r off dp s)
  unfolding empty_from
  empty_from-keeps zero off dp s h = yields _ h
  empty_from-keeps (suc r) off dp s h = Yields-bind _ (ledger.reads off 16 h) λ ((n, de), s₁) h₁.
      Yields-then (check (is_count 16 n) isdirempty_short) _ λ _.
        Yields-if (dirent_inum de == 0) _ _ (λ e. empty_from-keeps r (off + 16) dp s₁ h₁)
          (λ e. yields _ h₁)

  may_unlink-keeps :
      {opened : Bool} {locks refs : List ℕ} (ip : ℕ) (s : S)
      → ledger.Holds opened (ip ∷ locks) refs s
      → Yields (λ q. ledger.Holds opened (ip ∷ locks) refs q.1) (may_unlink os ps ip s)
  unfolding may_unlink isdirempty
  may_unlink-keeps ip s h =
      Yields-if (type_of os ps ip s == t_dir) _ _ (λ e. empty_from-keeps _ 32 ip s h)
        (λ e. yields _ h)

  unlink_bad-Balanced :
      {locks refs : List ℕ} (dp : ℕ) (s : S)
      → ledger.Holds true (dp ∷ locks) (dp ∷ refs) s
      → Balanced locks refs (unlink_bad os ps dp s)
  unfolding unlink_bad
  unlink_bad-Balanced dp s h = Yields-bind _ (unlock_put dp s h) λ s₁ h₁. end_trans false s₁ h₁

  unlink_dir-keeps :
      {locks refs : List ℕ} (dp ip : ℕ) (s : S)
      → ledger.Holds true (dp ∷ locks) refs s
      → Yields (ledger.Holds true (dp ∷ locks) refs) (unlink_dir os ps dp ip s)
  unfolding unlink_dir
  unlink_dir-keeps dp ip s h =
      Yields-if (type_of os ps ip s == t_dir) _ _ (λ e. changes dp fewer_links s h)
        (λ e. yields _ h)

  -- Both inodes are locked, the entry's first.
  unlink_entry-Balanced :
      {locks refs : List ℕ} (dp ip off : ℕ) (may : Bool) (s : S)
      → ledger.Holds true (ip ∷ dp ∷ locks) (ip ∷ dp ∷ refs) s
      → Balanced locks refs (unlink_entry os ps dp ip off may s)
  unfolding unlink_entry
  unlink_entry-Balanced dp ip off false s h =
      Yields-bind _ (unlock_put ip s h) λ s₁ h₁. unlink_bad-Balanced dp s₁ h₁
  unlink_entry-Balanced dp ip off true s h =
      Yields-bind _ (ledger.writes (λ i. 0) off 16 (ledger.swap_locks (ledger.swap_refs h)))
        λ (n, s₁) (h₁, _). Yields-then (check (is_count 16 n) unlink_short) _ λ _.
          Yields-bind _ (unlink_dir-keeps dp ip s₁ h₁) λ s₂ h₂.
            Yields-bind _ (unlock_put dp s₂ h₂) λ s₃ h₃.
              Yields-bind _ (changes ip fewer_links s₃ h₃)
                λ s₄ h₄. Yields-bind _ (unlock_put ip s₄ h₄) λ s₅ h₅. end_trans true s₅ h₅

  unlink_found-Balanced :
      {locks : List ℕ} (refs : List ℕ) (dp : ℕ) (o : Option (ℕ × ℕ)) (s : S)
      → ledger.Holds true (dp ∷ locks) (with_ref (found o) (dp ∷ refs)) s
      → Balanced locks refs (unlink_found os ps dp o s)
  unfolding unlink_found
  unlink_found-Balanced refs dp none s h = unlink_bad-Balanced dp s h
  unlink_found-Balanced refs dp (some (ip, off)) s h = Yields-bind _ (ledger.takes_lock h) λ s₁ h₁.
      Yields-then
        (check (not ((ps.inode ip s₁).copy.nlink == 0 || leb (2 ^ 15) (ps.inode ip s₁).copy.nlink))
          unlink_no_links)
        _
        λ _.
          Yields-bind _ (may_unlink-keeps ip s₁ h₁)
            λ (may, s₂) h₂. unlink_entry-Balanced dp ip off may s₂ h₂

  unlink_parent-Balanced :
      {locks : List ℕ} (refs : List ℕ) (o : Option (ℕ × (ℕ → ℕ))) (s : S)
      → ledger.Holds false locks (with_ref (first o) refs) s
      → Balanced locks refs (unlink_parent os ps o s)
  unfolding unlink_parent
  unlink_parent-Balanced refs none s h = yields _ h
  unlink_parent-Balanced refs (some (dp, name)) s h = Yields-bind _ (ledger.begins h) λ s₁ h₁.
      Yields-bind _ (ledger.takes_lock h₁) λ s₂ h₂.
        Yields-if (same_name name dot || same_name name dot_dot) _ _
          (λ e. unlink_bad-Balanced dp s₂ h₂)
          (λ e.
            Yields-bind _ (ledger.looks_up name h₂)
              λ (o, s₃) h₃. unlink_found-Balanced _ dp o s₃ h₃)

  unlink_arg-Balanced :
      {locks refs : List ℕ} (path : Option (ℕ × ℕ)) (u : User) (s : S)
      → ledger.Holds false locks refs s
      → Balanced locks refs (unlink_arg os ps path u s)
  unlink_arg-Balanced none u s h = yields _ h
  unlink_arg-Balanced (some (path, _)) u s h =
      Yields-bind _ (ledger.names_parent (bytes_at u path) h)
        λ (o, s₁) h₁. unlink_parent-Balanced _ o s₁ h₁

  -- `sys_unlink`, called with no transaction open, gives back on every way on which it returns all that it
  -- has taken: no transaction is left open, and the locks and the references to inodes are those from before
  -- it.
  pub sys_unlink-Balanced :
      (locks refs : List ℕ) (u : User) (s : S)
      → ledger.Holds false locks refs s
      → Balanced locks refs (sys_unlink os ps u s)
  unfolding sys_unlink
  sys_unlink-Balanced locks refs u s h = unlink_arg-Balanced (argstr 0 u) u s h
