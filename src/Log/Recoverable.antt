-- ===== src/Log/Recoverable.antt =====
-- What recovery needs of the disk.
use model_lib.Base.{
  ℕ, ◌+◌, ◌≤◌, ◌<◌, ◌≡◌, ◌≢◌, ◌∙◌, sym, ap, ◌⊎◌, inl, inr, arith, Bool-cases, ◌==◌,
}
use model_lib.Base.Words.{word_at}
use model_lib.Base.Family.{update, update_self, update_ne}
use model_lib.Bio.{Block, Disk}
use model_lib.Bio.Release.{written}
use model_lib.Log.{logsize}

-- The disk `f`, whose log starts at `start`, is one step of recovery away from the contents `new` of
-- the sectors before the log: the header names sectors before the log, each with its new contents in
-- the log, and every sector that it does not name has its new contents in place.
pub record IsRecoverable (start : ℕ) (f new : ℕ → Block) : Type 0 where
  pub count : word_at (f start) 0 ≤ logsize
  pub home : (i : ℕ) → i < word_at (f start) 0 → word_at (f start) (i + 1) < start
  pub logged :
      (i : ℕ) → i < word_at (f start) 0 → f (start + i + 1) ≡ new (word_at (f start) (i + 1))
  pub settled :
      (t : ℕ)
      → t < start
      → (f t ≡ new t) ⊎ ((i : ℕ) × (i < word_at (f start) 0) × (word_at (f start) (i + 1) ≡ t))

-- From one disk to another by writes, each of which leaves contents that satisfy `P`.
pub data Steps (P : (ℕ → Block) → Type 0) (d : Disk) : Disk → Type 0 where
  stay : Steps P d d
  write :
      {e : Disk} (s : ℕ) (c : Block)
      → Steps P d e
      → P (update e.blocks s c)
      → Steps P d (written s c e)

pub Steps-trans :
    (P : (ℕ → Block) → Type 0) {d e f : Disk} → Steps P d e → Steps P e f → Steps P d f
Steps-trans P st stay = st
Steps-trans P st (write s c more p) = write s c (Steps-trans P st more) p

-- One write.
pub Steps-one :
    (P : (ℕ → Block) → Type 0) (d e : Disk) (s : ℕ) (c : Block)
    → e ≡ written s c d
    → P (update d.blocks s c)
    → Steps P d e
Steps-one P d e s c q p = rw q (write s c stay p)

module _ (start : ℕ) (f new : ℕ → Block) (r : IsRecoverable start f new) (t : ℕ)
    (home : t < start) where
  head_word : (j : ℕ) → word_at (update f t (new t) start) j ≡ word_at (f start) j
  head_word j = ap (λ b. word_at b j) (update_ne f t start (new t) (omega arith))

  -- Putting new contents in place keeps the disk recoverable.
  pub copy-IsRecoverable : IsRecoverable start (update f t (new t)) new
  copy-IsRecoverable = record {
    count = omega (arith, head_word 0, r.count);
    home = λ i lt.
        omega (arith, head_word 0, head_word (i + 1), r.home i (omega (arith, head_word 0)));
    logged = λ i lt.
        let lt' : i < word_at (f start) 0 = omega (arith, head_word 0) in
        update_ne f t (start + i + 1) (new t) (omega arith)
        ∙ r.logged i lt'
        ∙ ap new (sym (head_word (i + 1)));
    settled = λ x hx. elim (Bool-cases (x == t)) [
      | inl e ↦
          let xt : x ≡ t = ground arith in
          inl (ap (update f t (new t)) xt ∙ update_self f t (new t) ∙ ap new (sym xt))
      | inr e ↦
          let xt : x ≢ t = ground arith in
          elim (r.settled x hx) [
            | inl q ↦ inl (update_ne f t x (new t) xt ∙ q)
            | inr (i, lt, q) ↦ inr (i, omega (arith, head_word 0), head_word (i + 1) ∙ q)
          ]
    ];
  }

pub Steps-mono :
    (P Q : (ℕ → Block) → Type 0) {d e : Disk}
    → ((f : ℕ → Block) → P f → Q f)
    → Steps P d e
    → Steps Q d e
Steps-mono P Q weaken stay = stay
Steps-mono P Q weaken (write s c st p) = write s c (Steps-mono P Q weaken st) (weaken _ p)

-- Only the contents before the log matter.
pub IsRecoverable-agree :
    (start : ℕ) (f new new' : ℕ → Block)
    → ((t : ℕ) → t < start → new t ≡ new' t)
    → IsRecoverable start f new
    → IsRecoverable start f new'
IsRecoverable-agree start f new new' same r = record {
  count = r.count;
  home = r.home;
  logged = λ i lt. r.logged i lt ∙ same (word_at (f start) (i + 1)) (r.home i lt);
  settled = λ t lt. elim (r.settled t lt) [ inl e ↦ inl (e ∙ same t lt) | inr p ↦ inr p ];
}
