-- ===== src/Paths/Services.antt =====
-- What the walk along a path uses of inodes and directories, on the state `S` that they keep. A service that
-- sleeps inside is here the whole call, up to its return.
use model_lib.Base.{ℕ, Option}
use model_lib.Base.Outcome.{Outcome}

pub record DirServices (S : Type 0) : Type 0 where
  pub iget : (dev inum : ℕ) → S → Outcome (ℕ × S)
  pub idup : (ip : ℕ) → S → Outcome S
  pub ilock : (ip : ℕ) → S → Outcome S
  pub iunlock : (ip : ℕ) → S → Outcome S
  pub iput : (ip : ℕ) → S → Outcome S
  -- ip->type
  pub type_of : (ip : ℕ) → S → ℕ
  pub dirlookup : (dp : ℕ) → (name : ℕ → ℕ) → S → Outcome (Option ℕ × S)
