-- ===== src/File/Services.antt =====
-- What the file table uses of pipes, inodes and the log, on the state `S` that they keep. A service that
-- sleeps inside is here the whole call, up to its return. A number of bytes is none for -1.
use model_lib.Base.{ℕ, Bool, Option}
use model_lib.Base.Outcome.{Outcome}

pub record FileServices (S : Type 0) : Type 0 where
  pub piperead : (pipe addr n : ℕ) → S → Outcome (Option ℕ × S)
  pub pipewrite : (pipe addr n : ℕ) → S → Outcome (Option ℕ × S)
  pub pipeclose : (pipe : ℕ) → (writable : Bool) → S → Outcome S
  pub begin_trans : S → Outcome S
  pub commit_trans : S → Outcome S
  pub ilock : (ip : ℕ) → S → Outcome S
  pub iunlock : (ip : ℕ) → S → Outcome S
  pub iput : (ip : ℕ) → S → Outcome S
  pub stati : (ip st : ℕ) → S → Outcome S
  pub readi : (ip addr off n : ℕ) → S → Outcome (Option ℕ × S)
  pub writei : (ip addr off n : ℕ) → S → Outcome (Option ℕ × S)
