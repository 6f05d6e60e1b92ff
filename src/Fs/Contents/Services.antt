-- ===== src/Fs/Contents/Services.antt =====
-- What the contents of inodes use of blocks and devices, on the state `S` that they keep. A buffer is locked from
-- `bread` to `brelse`, so that its bytes are a value; `log_write` stores them. A service that sleeps inside is
-- here the whole call, up to its return.
use model_lib.Base.{ℕ, ◌<◌, ◌≡◌, Bool, Option}
use model_lib.Base.Outcome.{Outcome, Returns}
use model_lib.Bio.{Block}
use model_lib.Fs.Inode.{Inode}

pub record ContentServices (S : Type 0) : Type 0 where
  pub bread : (dev t : ℕ) → S → Outcome (Block × S)
  pub log_write : (dev t : ℕ) → Block → S → Outcome S
  pub brelse : (dev t : ℕ) → S → Outcome S
  pub balloc : (dev : ℕ) → S → Outcome (ℕ × S)
  pub bfree : (dev t : ℕ) → S → Outcome S
  pub iupdate : Inode → S → Outcome S
  -- The entries of `devsw`: is there a function, and its call.
  pub can_read : (major : ℕ) → Bool
  pub dev_read : (major : ℕ) → Inode → (n : ℕ) → S → Outcome ((Option ℕ × (ℕ → ℕ)) × S)
  pub can_write : (major : ℕ) → Bool
  pub dev_write : (major : ℕ) → Inode → (src : ℕ → ℕ) → (n : ℕ) → S → Outcome (Option ℕ × S)

-- Blocks that can be read one at a time; Fs/Contents/Buffers fills it with bio.c. `Idle s`: the caller has no buffer, and
-- the blocks below `limit` read as `v`. `Has t s`: it has the buffer of the block `t`.
pub record BlockReads {S : Type 0} (cs : ContentServices S) (dev limit : ℕ) (v : ℕ → Block)
    : Type 1 where
  pub Idle : S → Type 0
  pub Has : ℕ → S → Type 0
  pub reads :
      {s : S} (t : ℕ)
      → Idle s
      → t < limit
      → Returns (λ r. (r.0 ≡ v t) × Has t r.1) (cs.bread dev t s)
  pub releases : {t : ℕ} {s : S} → Has t s → Returns Idle (cs.brelse dev t s)
