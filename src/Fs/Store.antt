-- ===== src/Fs/Store.antt =====
-- The blocks as fs.c uses them inside a transaction.
use model_lib.Base.{ℕ, suc, ◌<◌, ◌≡◌, Option, none, some}
use model_lib.Base.Outcome.{Outcome, Returns}
use model_lib.Base.Family.{update}
use model_lib.Bio.{Block}

-- `visit dev t f` is a stretch of code `bp = bread(dev, t); ... brelse(bp)` that looks at the bytes and,
-- where `f` gives new ones, stores them and calls log_write before brelse. It returns the bytes that
-- bread gave.
--
-- `Holds n v s`: in the state `s` a transaction is open, the blocks below `limit` read as `v`, and `n`
-- more updates fit into the transaction.
pub record BlockStore (S : Type 0) : Type 1 where
  pub visit : (dev t : ℕ) → (Block → Option Block) → S → Outcome (Block × S)
  pub limit : ℕ
  pub Holds : ℕ → (ℕ → Block) → S → Type 0
  pub visit_read :
      {n : ℕ} {v : ℕ → Block} {s : S} (t : ℕ) (f : Block → Option Block)
      → Holds n v s
      → t < limit
      → f (v t) ≡ none
      → Returns (λ r. (r.0 ≡ v t) × Holds n v r.1) (visit 1 t f s)
  pub visit_write :
      {n : ℕ} {v : ℕ → Block} {s : S} (t : ℕ) (f : Block → Option Block) (c : Block)
      → Holds (suc n) v s
      → t < limit
      → f (v t) ≡ some c
      → Returns (λ r. (r.0 ≡ v t) × Holds n (update v t c) r.1) (visit 1 t f s)
