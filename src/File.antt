-- ===== src/File.antt =====
-- The file table, file.c. Its lock is held throughout `filealloc` and `filedup` and the part of `fileclose`
-- that changes the table. What the functions use of pipes, inodes and the log is the record of
-- File.Services. The number of bytes
-- to read or write is an `int` as its 32-bit word; from 2^31 on it is negative, and the loop of
-- `filewrite` has no round.
pub mod Services
pub mod Holders
pub mod Rounds
pub mod Whole
pub mod Shadow
pub mod Passwords
mod Tests
use model_lib.Base.{
  ℕ, zero, suc, ◌+◌, ◌-◌, ◌^◌, ◌%◌, Bool, not, Option, none, some, ◌==◌, ltb, if◌then◌else◌,
}
use model_lib.Base.Outcome.{
  Outcome, ok, panic, ◌>>=◌, ◌>>◌, check, filedup_no_ref, fileclose_no_ref, fileread_no_type,
  filewrite_no_type, short_filewrite,
}
use model_lib.Base.Family.{update}
use model_lib.Base.Search.{search_from}
use model_lib.File.Services.{FileServices}

abbrev pub nfile : ℕ
nfile = 100

pub data FileType : Type 0 where
  fd_none fd_pipe fd_inode : FileType

-- `struct file`, its pipe and its inode by their addresses.
pub record File : Type 0 where
  pub type : FileType
  pub ref : ℕ
  pub readable : Bool
  pub writable : Bool
  pub pipe : ℕ
  pub ip : ℕ
  pub off : ℕ

-- `ftable`
abbrev pub Ftable : Type 0
Ftable = ℕ → File

-- The file that `filealloc` returns, by its index; none is a null pointer.
pub take_file : Option ℕ → Ftable → Option ℕ × Ftable
take_file none t = (none, t)
take_file (some i) t = (some i, update t i (record (t i) { ref = 1 }))

pub filealloc : Ftable → Option ℕ × Ftable
unfolding take_file
filealloc t = take_file (search_from (λ i. (t i).ref == 0) nfile 0) t

unfoldable pub filedup : ℕ → Ftable → Outcome Ftable
filedup i t = do
  check (not (ltb (t i).ref 1)) filedup_no_ref
  ok (update t i (record (t i) { ref = (t i).ref + 1 }))

-- if(r > 0) f->off += r;
pub advance : ℕ → Option ℕ → Ftable → Ftable
advance i none t = t
advance i (some r) t =
    if ltb 0 r then update t i (record (t i) { off = ((t i).off + r) % 2 ^ 32 }) else t

-- The most bytes of a transaction: ((LOGSIZE-1-1-2) / 2) * 512.
abbrev pub max : ℕ
max = 1536

-- n1, with `d` bytes done.
abbrev pub chunk : ℕ → ℕ → ℕ
chunk n d = if ltb max (n - d) then max else n - d

-- i == n ? n : -1
abbrev pub written : ℕ → ℕ → Option ℕ
written n d = if d == n then some n else none

module _ {S : Type 0} (os : FileServices S) where
  -- The end of `fileclose`, with the copy `ff`.
  pub close_on : FileType → File → S → Outcome S
  close_on fd_pipe ff s = os.pipeclose ff.pipe ff.writable s
  close_on fd_inode ff s = do s₁ ← os.begin_trans s; s₂ ← os.iput ff.ip s₁; os.commit_trans s₂
  close_on fd_none ff s = ok s

  pub fileclose : ℕ → Ftable → S → Outcome (Ftable × S)
  unfolding close_on
  fileclose i t s = do
    check (not (ltb (t i).ref 1)) fileclose_no_ref
    if ltb 0 ((t i).ref - 1) then ok (update t i (record (t i) { ref = (t i).ref - 1 }), s) else (do
      s' ← close_on (t i).type (t i) s
      ok (update t i (record (t i) { ref = 0; type = fd_none }), s'))

  -- `filestat` returns 0, or -1 for none.
  pub stat_on : FileType → ℕ → ℕ → S → Outcome (Option ℕ × S)
  stat_on fd_inode ip st s = do
    s₁ ← os.ilock ip s
    s₂ ← os.stati ip st s₁
    s₃ ← os.iunlock ip s₂
    ok (some 0, s₃)
  stat_on fd_pipe ip st s = ok (none, s)
  stat_on fd_none ip st s = ok (none, s)

  pub filestat : ℕ → ℕ → Ftable → S → Outcome (Option ℕ × S)
  unfolding stat_on
  filestat i st t s = stat_on (t i).type (t i).ip st s

  pub read_on : FileType → ℕ → ℕ → ℕ → Ftable → S → Outcome (Option ℕ × (Ftable × S))
  unfolding advance
  read_on fd_pipe i addr n t s = do (r, s') ← os.piperead (t i).pipe addr n s; ok (r, (t, s'))
  read_on fd_inode i addr n t s = do
    s₁ ← os.ilock (t i).ip s
    (r, s₂) ← os.readi (t i).ip addr (t i).off n s₁
    s₃ ← os.iunlock (t i).ip s₂
    ok (r, (advance i r t, s₃))
  read_on fd_none i addr n t s = panic fileread_no_type

  pub fileread : ℕ → ℕ → ℕ → Ftable → S → Outcome (Option ℕ × (Ftable × S))
  unfolding read_on
  fileread i addr n t s =
      if not (t i).readable then ok (none, (t, s)) else read_on (t i).type i addr n t s

  -- The end of a round of the loop of `filewrite`, which has `n1` bytes to write.
  pub after_write :
      ℕ
      → ℕ
      → (ℕ → Ftable → S → Outcome (Option ℕ × (Ftable × S)))
      → Option ℕ
      → Ftable
      → S
      → Outcome (Option ℕ × (Ftable × S))
  after_write n1 d next none t s = ok (none, (t, s))
  after_write n1 d next (some r) t s = if r == n1 then next (d + r) t s else panic short_filewrite

  -- A round, with `d` bytes done.
  pub write_round :
      ℕ
      → ℕ
      → ℕ
      → ℕ
      → (ℕ → Ftable → S → Outcome (Option ℕ × (Ftable × S)))
      → Ftable
      → S
      → Outcome (Option ℕ × (Ftable × S))
  unfolding after_write advance
  write_round i addr n d next t s = do
    s₁ ← os.begin_trans s
    s₂ ← os.ilock (t i).ip s₁
    (r, s₃) ← os.writei (t i).ip (addr + d) (t i).off (chunk n d) s₂
    s₄ ← os.iunlock (t i).ip s₃
    s₅ ← os.commit_trans s₄
    after_write (chunk n d) d next r (advance i r t) s₅

  -- The loop of `filewrite` for at most `fuel` rounds.
  pub write_rounds : ℕ → ℕ → ℕ → ℕ → ℕ → Ftable → S → Outcome (Option ℕ × (Ftable × S))
  unfolding write_round
  write_rounds zero i addr n d t s = ok (written n d, (t, s))
  write_rounds (suc fuel) i addr n d t s =
      if ltb d n
      then write_round i addr n d (write_rounds fuel i addr n) t s
      else ok (written n d, (t, s))

  pub write_on : FileType → ℕ → ℕ → ℕ → Ftable → S → Outcome (Option ℕ × (Ftable × S))
  unfolding write_rounds
  write_on fd_pipe i addr n t s = do (r, s') ← os.pipewrite (t i).pipe addr n s; ok (r, (t, s'))
  write_on fd_inode i addr n t s =
      if ltb n (2 ^ 31) then write_rounds n i addr n 0 t s else ok (none, (t, s))
  write_on fd_none i addr n t s = panic filewrite_no_type

  pub filewrite : ℕ → ℕ → ℕ → Ftable → S → Outcome (Option ℕ × (Ftable × S))
  unfolding write_on
  filewrite i addr n t s =
      if not (t i).writable then ok (none, (t, s)) else write_on (t i).type i addr n t s
