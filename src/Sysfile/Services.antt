-- ===== src/Sysfile/Services.antt =====
-- What the system calls on paths use of fs.c beside what file.c uses of it, on the state `S` that it keeps.
-- An inode is named by its address, and none is a null pointer or, for a number, -1. A service that sleeps
-- inside is here the whole call, up to its return.
use model_lib.Base.{ℕ, Bool, Option}
use model_lib.Base.Outcome.{Outcome}
use model_lib.Fs.Dinode.{Dinode}
use model_lib.Fs.Inode.{Inode}

pub record PathServices (S : Type 0) : Type 0 where
  pub namei : (path : ℕ → ℕ) → S → Outcome (Option ℕ × S)
  -- The directory, and the last element of the path.
  pub nameiparent : (path : ℕ → ℕ) → S → Outcome (Option (ℕ × (ℕ → ℕ)) × S)
  -- The path that is found.
  pub filereadlink : (pathname : ℕ → ℕ) → (bufsiz : ℕ) → S → Outcome (Option (ℕ → ℕ) × S)
  pub filereadlinki : (pathname : ℕ → ℕ) → (bufsiz : ℕ) → S → Outcome (Option (ℕ → ℕ) × S)
  -- The fields of an inode, and an assignment to those that are copies of the disk.
  pub inode : (ip : ℕ) → S → Inode
  pub set_copy : (ip : ℕ) → Dinode → S → S
  pub iupdate : (ip : ℕ) → S → Outcome S
  pub ialloc : (dev type : ℕ) → S → Outcome (Option ℕ × S)
  -- The inode, and the offset of its entry.
  pub dirlookup : (dp : ℕ) → (name : ℕ → ℕ) → S → Outcome (Option (ℕ × ℕ) × S)
  pub dirlink : (dp : ℕ) → (name : ℕ → ℕ) → (inum : ℕ) → S → Outcome (Bool × S)
  -- `readi` into and `writei` from memory of the kernel.
  pub read_bytes : (ip off n : ℕ) → S → Outcome ((Option ℕ × (ℕ → ℕ)) × S)
  pub write_bytes : (ip : ℕ) → (src : ℕ → ℕ) → (off n : ℕ) → S → Outcome (Option ℕ × S)
  pub is_inode_unlocked : (inum : ℕ) → S → Bool
