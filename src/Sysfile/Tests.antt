-- ===== src/Sysfile/Tests.antt =====
-- System calls of a process on two inodes: the directory 1, and the file 2 with the name "a" in it. The stack
-- of the process is at 100, with the return address and the arguments 200 and 300, where the names "a" and "b"
-- stand.
use model_lib.Base.{
  ℕ, ◌+◌, ◌-◌, ◌^◌, ◌⊎◌, ◌↔◌, ◌≢◌, ◌≤◌, ◌<◌, ◌≡◌, refl, Bool, true, false, Option, none, some, [],
  ◌∷◌, ◌==◌, ltb, if◌then◌else◌, arith,
}
use model_lib.Base.Outcome.{Outcome, ok, panic, asleep, Returns, Yields}
use model_lib.Base.Family.{update, count}
use model_lib.Base.Search.{search_from}
use model_lib.Fs.Dinode.{Dinode}
use model_lib.File.{File, Ftable, fd_none, fd_inode}
use model_lib.File.Services.{FileServices}
use model_lib.File.Holders.{IsCounted}
use model_lib.Syscall.{User, argint, argptr, argstr, fetchstr}
use model_lib.Syscall.Args.{InMemory, IsString, argptr_lem, argptr-negative, fetchstr_lem}
use model_lib.Sysfile.{Ofile, sys_dup, sys_close}
use model_lib.Sysfile.Services.{PathServices}
use model_lib.Sysfile.Ledger.{with_ref}
use model_lib.Sysfile.Books.{Books, clean, begin, files_booked, paths_booked, Says}
use model_lib.Sysfile.Settled.{
  Left, sys_link-settles, sys_unlink-settles, create-settles, symlink_path-leaves,
}
use model_lib.Sysfile.Linking.{sys_link, sys_unlink}
use model_lib.Sysfile.Creating.{create, symlink_path}
use model_lib.Sysfile.Descriptors.{files, references, descriptors-IsCounted}

abbrev user : User
user = record {
  sz = 4096;
  esp = 100;
  mem = λ a.
      if a == 104
      then 200
      else (if a == 108
          then 44
          else (if a == 109 then 1 else (if a == 200 then 97 else (if a == 300 then 98 else 0))));
}

record State : Type 0 where
  opened : Bool
  locks : ℕ → ℕ
  refs : ℕ → ℕ

abbrev with_new_ref : ℕ → State → State
with_new_ref ip s = record s { refs = update s.refs ip (s.refs ip + 1) }

abbrev dinode_of : ℕ → Dinode
dinode_of type = record {
  type = type;
  major = 0;
  minor = 0;
  nlink = 1;
  size = 32;
  addrs = λ i. 0;
  indirect2 = 0;
  password = λ i. 0;
}

abbrev files_services : FileServices State
files_services = record {
  piperead = λ pipe addr n s. ok (none, s);
  pipewrite = λ pipe addr n s. ok (none, s);
  pipeclose = λ pipe writable s. ok s;
  begin_trans = λ s. ok (record s { opened = true });
  commit_trans = λ s. ok (record s { opened = false });
  ilock = λ ip s. ok (record s { locks = update s.locks ip (s.locks ip + 1) });
  iunlock = λ ip s. ok (record s { locks = update s.locks ip (s.locks ip - 1) });
  iput = λ ip s. ok (record s { refs = update s.refs ip (s.refs ip - 1) });
  stati = λ ip st s. ok s;
  readi = λ ip addr off n s. ok (some n, s);
  writei = λ ip addr off n s. ok (some n, s);
}

abbrev looked_up : Bool → State → Outcome (Option (ℕ × ℕ) × State)
looked_up true s = ok (some (2, 32), with_new_ref 2 s)
looked_up false s = ok (none, s)

abbrev path_services : PathServices State
path_services = record {
  namei = λ path s. ok (some 2, with_new_ref 2 s);
  nameiparent = λ path s. ok (some (1, path), with_new_ref 1 s);
  filereadlink = λ pathname bufsiz s. ok (some pathname, s);
  filereadlinki = λ pathname bufsiz s. ok (some pathname, s);
  inode = λ ip s. record {
    dev = 1;
    inum = ip;
    ref = s.refs ip;
    busy = ltb 0 (s.locks ip);
    valid = true;
    copy = dinode_of (if ip == 1 then 1 else 2);
  };
  set_copy = λ ip d s. s;
  iupdate = λ ip s. ok s;
  ialloc = λ dev type s. ok (some 3, with_new_ref 3 s);
  dirlookup = λ dp name s. looked_up (name 0 == 97) s;
  dirlink = λ dp name inum s. ok (true, s);
  read_bytes = λ ip off n s. ok ((some n, λ i. 0), s);
  write_bytes = λ ip src off n s. ok (some n, s);
  is_inode_unlocked = λ inum s. false;
}

abbrev idle : State
idle = record { opened = false; locks = λ i. 0; refs = λ i. 0 }

sys_link-settles_example :
    Yields
      (λ (r : Bool × (State × Books)). Says false [] [] r.1.1)
      (sys_link (files_booked files_services) (paths_booked path_services) user (idle, clean))
sys_link-settles_example = sys_link-settles files_services path_services user idle

sys_unlink-settles_example :
    Yields
      (λ (r : Bool × (State × Books)). Says false [] [] r.1.1)
      (sys_unlink (files_booked files_services) (paths_booked path_services) user (idle, clean))
sys_unlink-settles_example = sys_unlink-settles files_services path_services user idle

-- The calls return.
abbrev answer : Outcome (Bool × State) → Option Bool
answer (ok (b, s)) = some b
answer (panic m) = none
answer asleep = none

link_returns : answer (sys_link files_services path_services user idle) ≡ some true
unfolding sys_link argstr search_from
link_returns = refl

unlink_returns : answer (sys_unlink files_services path_services user idle) ≡ some true
unfolding sys_unlink argstr search_from
unlink_returns = refl

abc : ℕ → ℕ
abc i = if i == 0 then 98 else 0

create-settles_example :
    Yields
      (λ (r : Option ℕ × (State × Books)). Says true (with_ref r.0 []) (with_ref r.0 []) r.1.1)
      (create
        (files_booked files_services)
        (paths_booked path_services)
        abc
        2
        0
        0
        (idle, begin clean))
create-settles_example = create-settles files_services path_services abc 2 0 0 idle

symlink_path-leaves_example :
    Yields
      (λ r. Left r.0 r.1.1)
      (symlink_path
        (files_booked files_services)
        (paths_booked path_services)
        abc
        1
        (some abc)
        (idle, clean))
symlink_path-leaves_example = symlink_path-leaves files_services path_services abc 1 (some abc) idle

-- The file 0, with descriptor 1 of the process for it. Another process has a reference to it.
abbrev shared_file : File
shared_file = record {
  type = fd_inode;
  ref = 2;
  readable = true;
  writable = true;
  pipe = 0;
  ip = 2;
  off = 0;
}

abbrev no_file : File
no_file = record {
  type = fd_none;
  ref = 0;
  readable = false;
  writable = false;
  pipe = 0;
  ip = 0;
  off = 0;
}

abbrev table : Ftable
table i = if i == 0 then shared_file else no_file

abbrev ofile : Ofile
ofile fd = if fd == 1 then some 0 else none

-- Its arguments are 1 and 300.
abbrev fd_user : User
fd_user = record { sz = 4096; esp = 100; mem = λ a. if a == 104 then 1 else 0 }

table-IsCounted : IsCounted (references ofile (0 ∷ [])) table
unfolding files count
table-IsCounted = record { counted = λ i. ground arith; closed = λ i z. ground arith }

descriptors-IsCounted_example :
    Returns
      (λ (r : Option ℕ × (Ofile × Ftable)). IsCounted (references r.1.0 (0 ∷ [])) r.1.1)
      (sys_dup fd_user ofile table)
    × Yields
        (λ (r : Option ℕ × (Ofile × (Ftable × State))).
          IsCounted (references r.1.0 (0 ∷ [])) r.1.1.0)
        (sys_close files_services fd_user ofile table idle)
descriptors-IsCounted_example =
    descriptors-IsCounted files_services fd_user ofile (0 ∷ []) table idle table-IsCounted

argptr_lem_example :
    (argptr 1 1000 user ≡ some 300) ↔ ((argint 1 user ≡ some 300) × InMemory user 300 1000)
argptr_lem_example = argptr_lem user 1 1000 300 (omega arith) (omega arith)

second_arg : argint 1 user ≡ some 300
unfolding argint
second_arg = refl

-- read(fd, p, -1)
argptr-negative_example : argptr 1 (2 ^ 32 - 1) user ≡ some 300
argptr-negative_example =
    argptr-negative user 1 1 300 (omega arith) (omega arith) (omega arith) (omega arith) second_arg

one_fetched :
    ((r : ℕ × ℕ) × (fetchstr user 200 ≡ some r) × IsString user 200 r)
    ⊎ ((fetchstr user 200 ≡ none) × ((j : ℕ) → 200 ≤ j → j < 4096 → user.mem j ≢ 0))
one_fetched = fetchstr_lem user 200
