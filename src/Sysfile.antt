-- ===== src/Sysfile.antt =====
-- sysfile.c: the system calls on files, by their descriptors here and by their paths in Linking and
-- Creating. A return value is none for -1.
pub mod Services
pub mod Linking
pub mod Creating
pub mod Descriptors
pub mod Ledger
pub mod Books
pub mod Settled
mod Tests
use model_lib.Base.{
  ℕ, zero, suc, ◌+◌, ◌^◌, Bool, true, false, Option, none, some, ◌==◌, ltb, if◌then◌else◌,
}
use model_lib.Base.Outcome.{Outcome, ok, ◌>>=◌}
use model_lib.Base.Family.{update}
use model_lib.Base.Search.{search_from}
use model_lib.Proc.{nofile}
use model_lib.Syscall.{User, argint, argptr}
use model_lib.File.{Ftable, filedup, fileclose, filestat, fileread, filewrite}
use model_lib.File.Services.{FileServices}

-- proc->ofile: the file of each descriptor, none for a null pointer.
abbrev pub Ofile : Type 0
Ofile = ℕ → Option ℕ

abbrev pub is_null : Option ℕ → Bool
is_null none = true
is_null (some f) = false

-- The descriptor and its file. A negative `fd` is not below NOFILE as an unsigned number.
abbrev pub file_of : Ofile → Option ℕ → Option (ℕ × ℕ)
file_of ofile none = none
file_of ofile (some fd) =
    if ltb fd nofile then elim (ofile fd) [ some f ↦ some (fd, f) | none ↦ none ] else none

pub argfd : ℕ → User → Ofile → Option (ℕ × ℕ)
argfd n u ofile = file_of ofile (argint n u)

abbrev pub taken : Option ℕ → ℕ → Ofile → Option ℕ × Ofile
taken none f ofile = (none, ofile)
taken (some fd) f ofile = (some fd, update ofile fd (some f))

pub fdalloc : ℕ → Ofile → Option ℕ × Ofile
fdalloc f ofile = taken (search_from (λ fd. is_null (ofile fd)) nofile 0) f ofile

abbrev pub dup_on : Option ℕ × Ofile → ℕ → Ftable → Outcome (Option ℕ × (Ofile × Ftable))
dup_on (none, ofile) f t = ok (none, (ofile, t))
dup_on (some fd, ofile) f t = do t' ← filedup f t; ok (some fd, (ofile, t'))

abbrev pub dup_file : Option (ℕ × ℕ) → Ofile → Ftable → Outcome (Option ℕ × (Ofile × Ftable))
dup_file none ofile t = ok (none, (ofile, t))
dup_file (some (fd, f)) ofile t = dup_on (fdalloc f ofile) f t

pub sys_dup : User → Ofile → Ftable → Outcome (Option ℕ × (Ofile × Ftable))
unfolding argfd fdalloc
sys_dup u ofile t = dup_file (argfd 0 u ofile) ofile t

module _ {S : Type 0} (os : FileServices S) where
  abbrev pub read_args :
      Option (ℕ × ℕ) → Option ℕ → User → Ftable → S → Outcome (Option ℕ × (Ftable × S))
  read_args (some (fd, f)) (some n) u t s = elim (argptr 1 n u) [
    | some p ↦ fileread os f p n t s
    | none ↦ ok (none, (t, s))
  ]
  read_args (some r) none u t s = ok (none, (t, s))
  read_args none o u t s = ok (none, (t, s))

  pub sys_read : User → Ofile → Ftable → S → Outcome (Option ℕ × (Ftable × S))
  unfolding argfd
  sys_read u ofile t s = read_args (argfd 0 u ofile) (argint 2 u) u t s

  abbrev pub write_args :
      Option (ℕ × ℕ) → Option ℕ → User → Ftable → S → Outcome (Option ℕ × (Ftable × S))
  write_args (some (fd, f)) (some n) u t s = elim (argptr 1 n u) [
    | some p ↦ filewrite os f p n t s
    | none ↦ ok (none, (t, s))
  ]
  write_args (some r) none u t s = ok (none, (t, s))
  write_args none o u t s = ok (none, (t, s))

  pub sys_write : User → Ofile → Ftable → S → Outcome (Option ℕ × (Ftable × S))
  unfolding argfd
  sys_write u ofile t s = write_args (argfd 0 u ofile) (argint 2 u) u t s

  abbrev pub close_file :
      Option (ℕ × ℕ) → Ofile → Ftable → S → Outcome (Option ℕ × (Ofile × (Ftable × S)))
  close_file none ofile t s = ok (none, (ofile, (t, s)))
  close_file (some (fd, f)) ofile t s = do
    (t', s') ← fileclose os f t s
    ok (some 0, (update ofile fd none, (t', s')))

  pub sys_close : User → Ofile → Ftable → S → Outcome (Option ℕ × (Ofile × (Ftable × S)))
  unfolding argfd
  sys_close u ofile t s = close_file (argfd 0 u ofile) ofile t s

  -- `struct stat` has 20 bytes.
  abbrev pub stat_args : Option (ℕ × ℕ) → Option ℕ → Ftable → S → Outcome (Option ℕ × S)
  stat_args (some (fd, f)) (some st) t s = filestat os f st t s
  stat_args (some r) none t s = ok (none, s)
  stat_args none o t s = ok (none, s)

  pub sys_fstat : User → Ofile → Ftable → S → Outcome (Option ℕ × S)
  unfolding argfd
  sys_fstat u ofile t s = stat_args (argfd 0 u ofile) (argptr 1 20 u) t s
