-- ===== src/Dirs/Services.antt =====
-- What the directories of fs.c use of inodes, on the state `S` that they keep. A service that sleeps inside is
-- here the whole call, up to its return.
use model_lib.Base.{ℕ, Option}
use model_lib.Base.Outcome.{Outcome}
use model_lib.Fs.Inode.{Inode}

pub record EntryServices (S : Type 0) : Type 0 where
  pub inode : (ip : ℕ) → S → Inode
  pub iget : (dev inum : ℕ) → S → Outcome (ℕ × S)
  pub iput : (ip : ℕ) → S → Outcome S
  -- `readi` into and `writei` from memory of the kernel; none is -1.
  pub readi : (ip off n : ℕ) → S → Outcome ((Option ℕ × (ℕ → ℕ)) × S)
  pub writei : (ip : ℕ) → (src : ℕ → ℕ) → (off n : ℕ) → S → Outcome (Option ℕ × S)
