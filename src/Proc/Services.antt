-- ===== src/Proc/Services.antt =====
-- What fork, exit, wait and growproc use of the rest of the kernel, on the state `S` that it keeps. A
-- service that sleeps inside is here the whole call, up to its return.
use model_lib.Base.{ℕ}
use model_lib.Base.Outcome.{Outcome}

pub record Services (S : Type 0) : Type 0 where
  pub kalloc : S → ℕ × S
  pub kfree : ℕ → S → Outcome S
  pub copyuvm : (pgdir sz : ℕ) → S → ℕ × S
  pub allocuvm : (pgdir oldsz newsz : ℕ) → S → ℕ × S
  pub deallocuvm : (pgdir oldsz newsz : ℕ) → S → ℕ × S
  pub freevm : (pgdir : ℕ) → S → Outcome S
  pub fork_pids : (old_pid new_pid : ℕ) → S → Outcome S
  pub free_inode_locks : (pid : ℕ) → S → S
  pub filedup : (f : ℕ) → S → Outcome S
  pub fileclose : (f : ℕ) → S → Outcome S
  pub idup : (ip : ℕ) → S → S
  pub iput : (ip : ℕ) → S → Outcome S
