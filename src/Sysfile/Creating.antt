-- ===== src/Sysfile/Creating.antt =====
-- sysfile.c: the system calls that create inodes, and those that open them. An inode is returned locked.
pub mod Balance
use model_lib.Base.{
  ℕ, zero, suc, ◌+◌, ◌-◌, ◌*◌, ◌/◌, ◌%◌, ◌^◌, Bool, true, false, not, ◌&&◌, ◌||◌, Option, none,
  some, ◌==◌, leb, if◌then◌else◌,
}
use model_lib.Base.Outcome.{
  Outcome, ok, panic, ◌>>=◌, ◌>>◌, check, create_no_inode, create_no_dots, create_no_entry,
  symlink_short,
}
use model_lib.Base.Family.{update}
use model_lib.Fs.Dinode.{Dinode}
use model_lib.Fs.Inode.{Inode}
use model_lib.File.{File, Ftable, fd_inode, filealloc, fileclose}
use model_lib.File.Services.{FileServices}
use model_lib.File.Passwords.{t_file, has_password}
use model_lib.Strings.{strlen}
use model_lib.Syscall.{User, argint, argstr}
use model_lib.Sysfile.{Ofile, fdalloc}
use model_lib.Sysfile.Services.{PathServices}
use model_lib.Dirs.{is_count}
use model_lib.Sysfile.Linking.{
  t_dir, more_links, bytes_at, dot, dot_dot, iunlockput, type_of, change_inode,
}

abbrev pub t_dev : ℕ
t_dev = 3

abbrev pub t_symlink : ℕ
t_symlink = 4

abbrev pub maxpath : ℕ
maxpath = 256

-- omode & O_WRONLY, O_RDWR, O_CREATE and O_IGNLINK
abbrev pub o_wronly : ℕ → Bool
o_wronly omode = omode % 2 == 1

abbrev pub o_rdwr : ℕ → Bool
o_rdwr omode = omode / 2 % 2 == 1

abbrev pub o_create : ℕ → Bool
o_create omode = omode / 0x200 % 2 == 1

abbrev pub o_ignlink : ℕ → Bool
o_ignlink omode = omode / 0x1000 % 2 == 1

-- The file that `sys_open` sets up.
abbrev pub opened_file : ℕ → ℕ → File → File
opened_file ip omode f = record f {
  type = fd_inode;
  ip = ip;
  off = 0;
  readable = not (o_wronly omode);
  writable = o_wronly omode || o_rdwr omode;
}

abbrev pub device : ℕ → ℕ → Dinode → Dinode
device major minor d = record d { major = major; minor = minor; nlink = 1 }

module _ {S : Type 0} (os : FileServices S) (ps : PathServices S) where
  -- ip->password[0] != '\0' && !is_inode_unlocked(ip)
  abbrev pub is_protected : ℕ → S → Bool
  is_protected ip s =
      has_password (ps.inode ip s).copy && not (ps.is_inode_unlocked (ps.inode ip s).inum s)

  abbrev pub give_up : ℕ → S → Outcome (Option ℕ × S)
  give_up ip s = do s₁ ← iunlockput os ps ip s; ok (none, s₁)

  -- `create` with the inode that has the name already.
  pub create_old : ℕ → ℕ → S → Outcome (Option ℕ × S)
  create_old type ip s =
      if is_protected ip s
      then give_up ip s
      else (if type == t_file && type_of os ps ip s == t_file
          then ok (some ip, s)
          else give_up ip s)

  pub dots : ℕ → ℕ → ℕ → S → Outcome S
  dots type dp ip s =
      if type == t_dir
      then (do
        s₁ ← change_inode os ps dp more_links s
        (a, s₂) ← ps.dirlink ip dot (ps.inode ip s₁).inum s₁
        check a create_no_dots
        (b, s₃) ← ps.dirlink ip dot_dot (ps.inode dp s₂).inum s₂
        check b create_no_dots
        ok s₃)
      else ok s

  pub create_new : ℕ → ℕ → ℕ → ℕ → (ℕ → ℕ) → Option ℕ → S → Outcome (Option ℕ × S)
  unfolding dots
  create_new type major minor dp name none s = panic create_no_inode
  create_new type major minor dp name (some ip) s = do
    s₁ ← os.ilock ip s
    s₂ ← change_inode os ps ip (device major minor) s₁
    s₃ ← dots type dp ip s₂
    (done, s₄) ← ps.dirlink dp name (ps.inode ip s₃).inum s₃
    check done create_no_entry
    s₅ ← iunlockput os ps dp s₄
    ok (some ip, s₅)

  pub create_on : ℕ → ℕ → ℕ → ℕ → (ℕ → ℕ) → Option (ℕ × ℕ) → S → Outcome (Option ℕ × S)
  unfolding create_old create_new
  create_on type major minor dp name (some (ip, off)) s = do
    s₁ ← iunlockput os ps dp s
    s₂ ← os.ilock ip s₁
    create_old type ip s₂
  create_on type major minor dp name none s = do
    (o, s₁) ← ps.ialloc (ps.inode dp s).dev type s
    create_new type major minor dp name o s₁

  pub create_in : ℕ → ℕ → ℕ → Option (ℕ × (ℕ → ℕ)) → S → Outcome (Option ℕ × S)
  unfolding create_on
  create_in type major minor none s = ok (none, s)
  create_in type major minor (some (dp, name)) s = do
    s₁ ← os.ilock dp s
    (o, s₂) ← ps.dirlookup dp name s₁
    create_on type major minor dp name o s₂

  unfoldable pub create : (ℕ → ℕ) → ℕ → ℕ → ℕ → S → Outcome (Option ℕ × S)
  unfolding create_in
  create path type major minor s = do
    (o, s₁) ← ps.nameiparent path s
    create_in type major minor o s₁

  -- `sys_open` with the path that is left of its symbolic links.
  pub open_created : Option (ℕ → ℕ) → S → Outcome (Option ℕ × S)
  unfolding create
  open_created none s = ok (none, s)
  open_created (some path) s = do
    s₁ ← os.begin_trans s
    (o, s₂) ← create path t_file 0 0 s₁
    s₃ ← os.commit_trans s₂
    ok (o, s₃)

  pub open_found : ℕ → Option ℕ → S → Outcome (Option ℕ × S)
  open_found omode none s = ok (none, s)
  open_found omode (some ip) s = do
    s₁ ← os.ilock ip s
    if is_protected ip s₁
        then give_up ip s₁
        else (if type_of os ps ip s₁ == t_dir && (o_wronly omode || o_rdwr omode)
            then give_up ip s₁
            else ok (some ip, s₁))

  pub open_path : ℕ → Option (ℕ → ℕ) → S → Outcome (Option ℕ × S)
  unfolding open_found
  open_path omode none s = ok (none, s)
  open_path omode (some path) s = do (o, s₁) ← ps.namei path s; open_found omode o s₁

  pub open_inode : (ℕ → ℕ) → ℕ → S → Outcome (Option ℕ × S)
  unfolding open_created open_path
  open_inode path omode s =
      if o_create omode
      then (do (o, s₁) ← ps.filereadlinki path maxpath s; open_created o s₁)
      else (if o_ignlink omode
          then (do (o, s₁) ← ps.filereadlinki path maxpath s; open_path omode o s₁)
          else (do (o, s₁) ← ps.filereadlink path maxpath s; open_path omode o s₁))

  -- From the descriptor that `fdalloc` gives for the file `f`.
  pub open_fd :
      ℕ → ℕ → ℕ → Option ℕ × Ofile → Ftable → S → Outcome (Option ℕ × (Ofile × (Ftable × S)))
  open_fd ip omode f (none, ofile) t s = do
    (t', s₁) ← fileclose os f t s
    s₂ ← iunlockput os ps ip s₁
    ok (none, (ofile, (t', s₂)))
  open_fd ip omode f (some fd, ofile) t s = do
    s₁ ← os.iunlock ip s
    ok (some fd, (ofile, (update t f (opened_file ip omode (t f)), s₁)))

  -- From the file that `filealloc` gives.
  pub open_file :
      ℕ → ℕ → Ofile → Option ℕ × Ftable → S → Outcome (Option ℕ × (Ofile × (Ftable × S)))
  unfolding open_fd
  open_file ip omode ofile (none, t) s = do s₁ ← iunlockput os ps ip s; ok (none, (ofile, (t, s₁)))
  open_file ip omode ofile (some f, t) s = open_fd ip omode f (fdalloc f ofile) t s

  pub open_on : ℕ → Ofile → Ftable → Option ℕ → S → Outcome (Option ℕ × (Ofile × (Ftable × S)))
  unfolding open_file
  open_on omode ofile t none s = ok (none, (ofile, (t, s)))
  open_on omode ofile t (some ip) s = open_file ip omode ofile (filealloc t) s

  abbrev pub open_args :
      Option (ℕ × ℕ)
      → Option ℕ
      → User
      → Ofile
      → Ftable
      → S
      → Outcome (Option ℕ × (Ofile × (Ftable × S)))
  open_args (some (path, _)) (some omode) u ofile t s = do
    (o, s₁) ← open_inode (bytes_at u path) omode s
    open_on omode ofile t o s₁
  open_args (some r) none u ofile t s = ok (none, (ofile, (t, s)))
  open_args none o u ofile t s = ok (none, (ofile, (t, s)))

  pub sys_open : User → Ofile → Ftable → S → Outcome (Option ℕ × (Ofile × (Ftable × S)))
  unfolding open_inode open_on
  sys_open u ofile t s = open_args (argstr 0 u) (argint 1 u) u ofile t s

  -- The end of `sys_mkdir` and `sys_mknod`.
  pub made : Option ℕ → S → Outcome (Bool × S)
  made none s = do s₁ ← os.commit_trans s; ok (false, s₁)
  made (some ip) s = do s₁ ← iunlockput os ps ip s; s₂ ← os.commit_trans s₁; ok (true, s₂)

  abbrev pub mkdir_arg : Option (ℕ × ℕ) → User → S → Outcome (Bool × S)
  mkdir_arg none u s = made none s
  mkdir_arg (some (path, _)) u s = do (o, s₁) ← create (bytes_at u path) t_dir 0 0 s; made o s₁

  pub sys_mkdir : User → S → Outcome (Bool × S)
  unfolding create made
  sys_mkdir u s = do s₁ ← os.begin_trans s; mkdir_arg (argstr 0 u) u s₁

  -- The numbers become `short`s.
  abbrev pub mknod_args : Option (ℕ × ℕ) → Option ℕ → Option ℕ → User → S → Outcome (Bool × S)
  mknod_args (some (path, _)) (some major) (some minor) u s = do
    (o, s₁) ← create (bytes_at u path) t_dev (major % 2 ^ 16) (minor % 2 ^ 16) s
    made o s₁
  mknod_args (some r) (some major) none u s = made none s
  mknod_args (some r) none o u s = made none s
  mknod_args none o o' u s = made none s

  pub sys_mknod : User → S → Outcome (Bool × S)
  unfolding create made
  sys_mknod u s = do s₁ ← os.begin_trans s; mknod_args (argstr 0 u) (argint 1 u) (argint 2 u) u s₁

  -- The new directory of the process `cwd`.
  pub chdir_on : ℕ → Option ℕ → S → Outcome (Option ℕ × S)
  chdir_on cwd none s = ok (none, s)
  chdir_on cwd (some ip) s = do
    s₁ ← os.ilock ip s
    if not (type_of os ps ip s₁ == t_dir)
        then give_up ip s₁
        else (do s₂ ← os.iunlock ip s₁; s₃ ← os.iput cwd s₂; ok (some ip, s₃))

  abbrev pub chdir_path : ℕ → Option (ℕ → ℕ) → S → Outcome (Option ℕ × S)
  chdir_path cwd none s = ok (none, s)
  chdir_path cwd (some path) s = do (o, s₁) ← ps.namei path s; chdir_on cwd o s₁

  abbrev pub chdir_arg : ℕ → Option (ℕ × ℕ) → User → S → Outcome (Option ℕ × S)
  chdir_arg cwd none u s = ok (none, s)
  chdir_arg cwd (some (path, _)) u s = do
    (o, s₁) ← ps.filereadlink (bytes_at u path) maxpath s
    chdir_path cwd o s₁

  -- proc->cwd, if it changes.
  pub sys_chdir : ℕ → User → S → Outcome (Option ℕ × S)
  unfolding chdir_on
  sys_chdir cwd u s = chdir_arg cwd (argstr 0 u) u s

  -- `filesymlink` with the inode that `create` gives; `len` is the length of the old path.
  pub symlink_on : (ℕ → ℕ) → ℕ → Option ℕ → S → Outcome (Bool × S)
  symlink_on oldpath len none s = do s₁ ← os.commit_trans s; ok (false, s₁)
  symlink_on oldpath len (some ip) s = do
    (n, s₁) ← ps.write_bytes ip oldpath 0 len s
    check (is_count len n) symlink_short
    s₂ ← os.iunlock ip s₁
    s₃ ← os.commit_trans s₂
    ok (true, s₃)

  pub symlink_path : (ℕ → ℕ) → ℕ → Option (ℕ → ℕ) → S → Outcome (Bool × S)
  unfolding create symlink_on
  symlink_path oldpath len none s = ok (false, s)
  symlink_path oldpath len (some path) s = do
    s₁ ← os.begin_trans s
    (o, s₂) ← create path t_symlink 0 0 s₁
    symlink_on oldpath len o s₂

  -- `len` is strlen(oldpath), which `argstr` has found.
  pub filesymlink : (oldpath : ℕ → ℕ) → (len : ℕ) → (newpath : ℕ → ℕ) → S → Outcome (Bool × S)
  unfolding symlink_path
  filesymlink oldpath len newpath s =
      if oldpath 0 == 0
      then ok (false, s)
      else (do (o, s₁) ← ps.filereadlinki newpath maxpath s; symlink_path oldpath len o s₁)

  abbrev pub symlink_args : Option (ℕ × ℕ) → Option (ℕ × ℕ) → User → S → Outcome (Bool × S)
  symlink_args (some (old, len)) (some (new, _)) u s =
      filesymlink (bytes_at u old) len (bytes_at u new) s
  symlink_args (some r) none u s = ok (false, s)
  symlink_args none o u s = ok (false, s)

  pub sys_symlink : User → S → Outcome (Bool × S)
  unfolding filesymlink
  sys_symlink u s = symlink_args (argstr 0 u) (argstr 1 u) u s
