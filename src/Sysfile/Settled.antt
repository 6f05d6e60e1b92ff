-- ===== src/Sysfile/Settled.antt =====
-- The books after the system calls that link, unlink and create, whatever the services do.
use model_lib.Base.{ℕ, ◌≡◌, refl, Bool, true, false, Option, some, [], ◌∷◌}
use model_lib.Base.Outcome.{Yields, Yields-mono}
use model_lib.Base.Family.{count}
use model_lib.File.Services.{FileServices}
use model_lib.Syscall.{User}
use model_lib.Sysfile.Services.{PathServices}
use model_lib.Sysfile.Ledger.{with_ref}
use model_lib.Sysfile.Books.{
  Books, clean, begin, files_booked, paths_booked, Says, begin-Says, ledger,
}
use model_lib.Sysfile.Linking.{sys_link, sys_unlink}
use model_lib.Sysfile.Linking.Balance.{sys_link-Balanced, sys_unlink-Balanced}
use model_lib.Sysfile.Creating.{create, symlink_path}
use model_lib.Sysfile.Creating.Balance.{Leaked, create-Created, symlink_path-leaks}

pub clean-Says : Says false [] [] clean
unfolding count
clean-Says = record { opened_at = refl; locks_at = λ i. refl; refs_at = λ i. refl; no_fault = refl }

-- The books after `filesymlink`, by its answer.
abbrev pub Left : Bool → Books → Type 0
Left true b = (ip : ℕ) × Says false [] (ip ∷ []) b × (b.written ≡ some ip)
Left false b = Says false [] [] b

module _ {S : Type 0} (os : FileServices S) (ps : PathServices S) where
  -- `sys_link` keeps its books for any services, on whose behaviour nothing is assumed. Called with nothing held, on
  -- every way on which it returns it holds nothing: no transaction, no lock and no reference. No call was out of
  -- place: it gave back only what it held, locked only inodes that it had a reference to, used only locked ones,
  -- changed them only in a transaction and had one transaction at a time.
  pub sys_link-settles :
      (u : User) (s : S)
      → Yields
          (λ (r : Bool × (S × Books)). Says false [] [] r.1.1)
          (sys_link (files_booked os) (paths_booked ps) u (s, clean))
  sys_link-settles u s = sys_link-Balanced (ledger os ps) [] [] u (s, clean) clean-Says

  -- `sys_unlink` likewise, for any services: on every way on which it returns, called with nothing held, it holds no
  -- transaction, lock or reference, and no call was out of place.
  pub sys_unlink-settles :
      (u : User) (s : S)
      → Yields
          (λ (r : Bool × (S × Books)). Says false [] [] r.1.1)
          (sys_unlink (files_booked os) (paths_booked ps) u (s, clean))
  sys_unlink-settles u s = sys_unlink-Balanced (ledger os ps) [] [] u (s, clean) clean-Says

  -- For any services, where `create`, called in a transaction with nothing else held, returns an inode, this inode is
  -- locked and the caller has one reference to it and holds nothing else; where it returns a null pointer, the
  -- caller has no lock and no reference. The transaction stays open, and no call was out of place.
  pub create-settles :
      (path : ℕ → ℕ) (type major minor : ℕ) (s : S)
      → Yields
          (λ (r : Option ℕ × (S × Books)). Says true (with_ref r.0 []) (with_ref r.0 []) r.1.1)
          (create (files_booked os) (paths_booked ps) path type major minor (s, begin clean))
  create-settles path type major minor s =
      create-Created (ledger os ps) [] [] path type major minor (s, begin clean)
        (begin-Says clean-Says)

  -- For any services, where `filesymlink`, from the path of the new link on and called with nothing held, succeeds, one
  -- reference is left over: to the inode that the path of the target was written to, which is the new link.
  -- Where it fails, nothing is held.
  pub symlink_path-leaves :
      (old : ℕ → ℕ) (len : ℕ) (path : Option (ℕ → ℕ)) (s : S)
      → Yields
          (λ r. Left r.0 r.1.1)
          (symlink_path (files_booked os) (paths_booked ps) old len path (s, clean))
  symlink_path-leaves old len path s =
      Yields-mono (symlink_path-leaks (ledger os ps) [] [] old len path (s, clean) clean-Says)
        λ (done, r). by_answer done r
    where
      by_answer :
          (done : Bool) (r : S × Books) → Leaked (ledger os ps) [] [] (done, r) → Left done r.1
      by_answer true r h = h
      by_answer false r h = h
