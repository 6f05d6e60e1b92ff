-- ===== src/Sysfile/Linking.antt =====
-- sysfile.c: hard links made and removed.
pub mod Balance
use model_lib.Base.{
  ℕ, zero, suc, ◌+◌, ◌-◌, ◌*◌, ◌/◌, ◌%◌, ◌^◌, Bool, true, false, not, ◌&&◌, ◌||◌, Option, none,
  some, ◌==◌, leb, if◌then◌else◌,
}
use model_lib.Base.Outcome.{
  Outcome, ok, panic, ◌>>=◌, ◌>>◌, check, unlink_no_links, unlink_short, isdirempty_short,
}
use model_lib.Dirs.{same_name, dirent_inum, is_count}
use model_lib.Fs.Dinode.{Dinode}
use model_lib.Fs.Inode.{Inode}
use model_lib.File.Services.{FileServices}
use model_lib.Syscall.{User, argstr}
use model_lib.Sysfile.Services.{PathServices}

-- T_DIR
abbrev pub t_dir : ℕ
t_dir = 1

-- nlink++ and nlink-- of a `short`.
abbrev pub more_links : Dinode → Dinode
more_links d = record d { nlink = (d.nlink + 1) % 2 ^ 16 }

abbrev pub fewer_links : Dinode → Dinode
fewer_links d = record d { nlink = (d.nlink + 2 ^ 16 - 1) % 2 ^ 16 }

-- The bytes at a pointer into the memory of the process.
abbrev pub bytes_at : User → ℕ → ℕ → ℕ
bytes_at u p i = u.mem (p + i)

abbrev pub dot : ℕ → ℕ
dot i = if i == 0 then 46 else 0

abbrev pub dot_dot : ℕ → ℕ
dot_dot i = if leb i 1 then 46 else 0

module _ {S : Type 0} (os : FileServices S) (ps : PathServices S) where
  pub iunlockput : ℕ → S → Outcome S
  iunlockput ip s = do s₁ ← os.iunlock ip s; os.iput ip s₁

  abbrev pub type_of : ℕ → S → ℕ
  type_of ip s = (ps.inode ip s).copy.type

  -- Change the fields of the inode in memory, and write them to the disk.
  pub change_inode : ℕ → (Dinode → Dinode) → S → Outcome S
  change_inode ip f s = ps.iupdate ip (ps.set_copy ip (f (ps.inode ip s).copy) s)

  -- The label `bad` of `sys_link`.
  pub link_bad : ℕ → S → Outcome (Bool × S)
  unfolding change_inode iunlockput
  link_bad ip s = do
    s₁ ← os.ilock ip s
    s₂ ← change_inode ip fewer_links s₁
    s₃ ← iunlockput ip s₂
    s₄ ← os.commit_trans s₃
    ok (false, s₄)

  -- dp->dev != ip->dev || dirlink(dp, name, ip->inum) < 0, negated
  pub link_entry : ℕ → ℕ → (ℕ → ℕ) → S → Outcome (Bool × S)
  link_entry ip dp name s =
      if (ps.inode dp s).dev == (ps.inode ip s).dev
      then ps.dirlink dp name (ps.inode ip s).inum s
      else ok (false, s)

  pub link_end : ℕ → Bool → S → Outcome (Bool × S)
  unfolding link_bad
  link_end ip true s = do s₁ ← os.iput ip s; s₂ ← os.commit_trans s₁; ok (true, s₂)
  link_end ip false s = link_bad ip s

  pub link_parent : ℕ → Option (ℕ × (ℕ → ℕ)) → S → Outcome (Bool × S)
  unfolding link_bad link_entry link_end iunlockput
  link_parent ip none s = link_bad ip s
  link_parent ip (some (dp, name)) s = do
    s₁ ← os.ilock dp s
    (done, s₂) ← link_entry ip dp name s₁
    s₃ ← iunlockput dp s₂
    link_end ip done s₃

  pub link_locked : ℕ → (ℕ → ℕ) → S → Outcome (Bool × S)
  unfolding change_inode link_parent iunlockput
  link_locked ip new s =
      if type_of ip s == t_dir
      then (do s₁ ← iunlockput ip s; s₂ ← os.commit_trans s₁; ok (false, s₂))
      else (do
        s₁ ← change_inode ip more_links s
        s₂ ← os.iunlock ip s₁
        (o, s₃) ← ps.nameiparent new s₂
        link_parent ip o s₃)

  pub link_inode : (ℕ → ℕ) → Option ℕ → S → Outcome (Bool × S)
  unfolding link_locked
  link_inode new none s = ok (false, s)
  link_inode new (some ip) s = do s₁ ← os.begin_trans s; s₂ ← os.ilock ip s₁; link_locked ip new s₂

  abbrev pub link_args : Option (ℕ × ℕ) → Option (ℕ × ℕ) → User → S → Outcome (Bool × S)
  link_args (some (old, _)) (some (new, _)) u s = do
    (o, s₁) ← ps.namei (bytes_at u old) s
    link_inode (bytes_at u new) o s₁
  link_args (some old) none u s = ok (false, s)
  link_args none o u s = ok (false, s)

  unfoldable pub sys_link : User → S → Outcome (Bool × S)
  unfolding link_inode
  sys_link u s = link_args (argstr 0 u) (argstr 1 u) u s

  -- The loop of `isdirempty` from `off` on, with the rounds that are left. The size of a locked inode stays.
  pub empty_from : ℕ → ℕ → ℕ → S → Outcome (Bool × S)
  empty_from zero off dp s = ok (true, s)
  empty_from (suc r) off dp s = do
    ((n, de), s₁) ← ps.read_bytes dp off 16 s
    check (is_count 16 n) isdirempty_short
    let rest = empty_from r (off + 16) dp s₁
    (if dirent_inum de == 0 then rest else ok (false, s₁))

  pub isdirempty : ℕ → S → Outcome (Bool × S)
  unfolding empty_from
  isdirempty dp s = empty_from (((ps.inode dp s).copy.size - 32 + 15) / 16) 32 dp s

  -- The label `bad` of `sys_unlink`.
  pub unlink_bad : ℕ → S → Outcome (Bool × S)
  unfolding iunlockput
  unlink_bad dp s = do s₁ ← iunlockput dp s; s₂ ← os.commit_trans s₁; ok (false, s₂)

  -- ip->type == T_DIR && !isdirempty(ip), negated
  pub may_unlink : ℕ → S → Outcome (Bool × S)
  unfolding isdirempty
  may_unlink ip s = if type_of ip s == t_dir then isdirempty ip s else ok (true, s)

  pub unlink_dir : ℕ → ℕ → S → Outcome S
  unfolding change_inode
  unlink_dir dp ip s = if type_of ip s == t_dir then change_inode dp fewer_links s else ok s

  -- From the decision that `ip` may go.
  pub unlink_entry : ℕ → ℕ → ℕ → Bool → S → Outcome (Bool × S)
  unfolding unlink_dir change_inode iunlockput unlink_bad
  unlink_entry dp ip off false s = do s₁ ← iunlockput ip s; unlink_bad dp s₁
  unlink_entry dp ip off true s = do
    (n, s₁) ← ps.write_bytes dp (λ i. 0) off 16 s
    check (is_count 16 n) unlink_short
    s₂ ← unlink_dir dp ip s₁
    s₃ ← iunlockput dp s₂
    s₄ ← change_inode ip fewer_links s₃
    s₅ ← iunlockput ip s₄
    s₆ ← os.commit_trans s₅
    ok (true, s₆)

  pub unlink_found : ℕ → Option (ℕ × ℕ) → S → Outcome (Bool × S)
  unfolding unlink_bad may_unlink unlink_entry
  unlink_found dp none s = unlink_bad dp s
  unlink_found dp (some (ip, off)) s = do
    s₁ ← os.ilock ip s
    check (not ((ps.inode ip s₁).copy.nlink == 0 || leb (2 ^ 15) (ps.inode ip s₁).copy.nlink))
        unlink_no_links
    (may, s₂) ← may_unlink ip s₁
    unlink_entry dp ip off may s₂

  pub unlink_parent : Option (ℕ × (ℕ → ℕ)) → S → Outcome (Bool × S)
  unfolding same_name unlink_bad unlink_found
  unlink_parent none s = ok (false, s)
  unlink_parent (some (dp, name)) s = do
    s₁ ← os.begin_trans s
    s₂ ← os.ilock dp s₁
    if same_name name dot || same_name name dot_dot
        then unlink_bad dp s₂
        else (do (o, s₃) ← ps.dirlookup dp name s₂; unlink_found dp o s₃)

  abbrev pub unlink_arg : Option (ℕ × ℕ) → User → S → Outcome (Bool × S)
  unlink_arg none u s = ok (false, s)
  unlink_arg (some (path, _)) u s = do
    (o, s₁) ← ps.nameiparent (bytes_at u path) s
    unlink_parent o s₁

  unfoldable pub sys_unlink : User → S → Outcome (Bool × S)
  unfolding unlink_parent
  sys_unlink u s = unlink_arg (argstr 0 u) u s
