-- ===== src/Base/Outcome.antt =====
-- The outcome of kernel code that may call `panic` (console.c), which never returns, or `sleep`.
use model_lib.Base.Tests.{if◌then◌else◌}
use mathlib.Core.Bool.{Bool, true, false, false≢true}
use mathlib.Core.Path.{◌≡◌, refl, sym, ap, subst}

-- The calls of `panic`, each by the function it stands in and its message.
pub data Panic : Type 0 where
  bget_no_buffers bwrite_not_busy brelse_not_busy : Panic
  iderw_not_busy iderw_nothing_to_do iderw_not_disk_1 iderw_out_of_range : Panic
  log_too_big log_outside_trans : Panic
  unlock_no_slot fork_pids_no_slot : Panic
  kfree_bad_page : Panic
  balloc_out_of_blocks bfree_free_block : Panic
  bmap_out_of_range iput_busy : Panic
  iget_no_inodes ilock_no_ref ilock_no_type iunlock_not_locked ialloc_no_inodes : Panic
  init_exiting : Panic
  acquire_held release_not_held popcli_interruptible popcli_unmatched : Panic
  unlink_no_links unlink_short isdirempty_short symlink_short : Panic
  create_no_inode create_no_dots create_no_entry : Panic
  dirlookup_not_dir dirlookup_read dirlink_read dirlink_write : Panic
  filedup_no_ref fileclose_no_ref fileread_no_type filewrite_no_type short_filewrite : Panic

-- `asleep`: the call has changed nothing yet and waits for another process; woken, it starts again.
pub data Outcome {ℓ} (A : Type ℓ) : Type ℓ where
  ok : A → Outcome A
  panic : Panic → Outcome A
  asleep : Outcome A

infixl 5 ◌>>=◌ ◌>>◌
abbrev pub ◌>>=◌ {ℓ κ} : {A : Type ℓ} {B : Type κ} → Outcome A → (A → Outcome B) → Outcome B
ok a >>= f = f a
panic m >>= f = panic m
asleep >>= f = asleep

abbrev pub ◌>>◌ {ℓ} : {B : Type ℓ} → Outcome (Unit {0}) → Outcome B → Outcome B
m >> k = m >>= λ _. k

-- `if(!test) panic(m)`
abbrev pub check : Bool → Panic → Outcome (Unit {0})
check test m = if test then ok tt else panic m

-- The call returns, with a value that satisfies `P`.
pub data Returns {ℓ κ} {A : Type ℓ} (P : A → Type κ) : Outcome A → Type (ℓ ⊔ κ) where
  returns : (a : A) → P a → Returns P (ok a)

pub Returns-bind {ℓ κ} :
    {A B : Type ℓ} {P : A → Type κ} {Q : B → Type κ} {m : Outcome A} (f : A → Outcome B)
    → Returns P m
    → ((a : A) → P a → Returns Q (f a))
    → Returns Q (m >>= f)
Returns-bind f (returns a p) next = next a p

-- The same for any statement about outcomes.
pub after-bind {ℓ κ} :
    {A B : Type ℓ} {P : A → Type κ} {m : Outcome A} (Q : Outcome B → Type κ) (f : A → Outcome B)
    → Returns P m
    → ((a : A) → P a → Q (f a))
    → Q (m >>= f)
after-bind Q f (returns a p) next = next a p

pub after-check {ℓ κ} :
    {A : Type ℓ} (Q : Outcome A → Type κ) (b : Bool) (m : Panic) (k : Outcome A)
    → b ≡ true
    → Q k
    → Q (check b m >> k)
after-check Q true m k e r = r
after-check Q false m k e r = absurd (false≢true e)

pub after-if {ℓ κ} :
    {A : Type ℓ} (Q : Outcome A → Type κ) (b : Bool) (x y : Outcome A)
    → (b ≡ true → Q x)
    → (b ≡ false → Q y)
    → Q (if b then x else y)
after-if Q true x y f g = f refl
after-if Q false x y f g = g refl

pub bind-bind {ℓ} :
    {A B C : Type ℓ} (m : Outcome A) (f : A → Outcome B) (g : B → Outcome C)
    → (m >>= f) >>= g ≡ m >>= (λ a. f a >>= g)
bind-bind (ok a) f g = refl
bind-bind (panic m) f g = refl
bind-bind asleep f g = refl

-- For a call whose value is known but for the state.
pub Returns-known {ℓ κ} :
    {A S B : Type ℓ} {a : A} {P : S → Type κ} {Q : B → Type κ} {m : Outcome (A × S)}
    (f : A × S → Outcome B)
    → Returns (λ r. (r.0 ≡ a) × P r.1) m
    → ((s : S) → P s → Returns Q (f (a, s)))
    → Returns Q (m >>= f)
Returns-known {Q} f (returns (x, s) (e, p)) next =
    subst (λ y. Returns Q (f (y, s))) (sym e) (next s p)

pub Returns-mono {ℓ κ} :
    {A : Type ℓ} {P Q : A → Type κ} {m : Outcome A}
    → Returns P m
    → ((a : A) → P a → Q a)
    → Returns Q m
Returns-mono (returns a p) weaken = returns a (weaken a p)

pub Returns-if {ℓ κ} :
    {A : Type ℓ} {P : A → Type κ} (b : Bool) (x y : Outcome A)
    → (b ≡ true → Returns P x)
    → (b ≡ false → Returns P y)
    → Returns P (if b then x else y)
Returns-if true x y f g = f refl
Returns-if false x y f g = g refl

pub Returns-check {ℓ κ} :
    {A : Type ℓ} {P : A → Type κ} (b : Bool) (m : Panic) {k : Outcome A}
    → b ≡ true
    → Returns P k
    → Returns P (check b m >> k)
Returns-check true m e r = r
Returns-check false m e r = absurd (false≢true e)

pub Returns-at {ℓ κ} :
    {A : Type ℓ} {P : A → Type κ} {m : Outcome A} {a : A} → Returns P m → m ≡ ok a → P a
Returns-at {P} (returns b p) e = subst P (ok-injective e) p
  where
    value : {A : Type ℓ} → A → Outcome A → A
    value d (ok x) = x
    value d (panic m) = d
    value d asleep = d

    ok-injective : {A : Type ℓ} {x y : A} → ok x ≡ ok y → x ≡ y
    ok-injective {x} e = ap (value x) e

-- If the call returns, its value satisfies `P`.
pub data Yields {ℓ κ} {A : Type ℓ} (P : A → Type κ) : Outcome A → Type (ℓ ⊔ κ) where
  yields : (a : A) → P a → Yields P (ok a)
  panics : (m : Panic) → Yields P (panic m)
  waits : Yields P asleep

pub bind-ext {ℓ κ} :
    {A : Type ℓ} {B : Type κ} (m : Outcome A) (f g : A → Outcome B)
    → ((a : A) → f a ≡ g a)
    → m >>= f ≡ m >>= g
bind-ext (ok a) f g same = same a
bind-ext (panic m) f g same = refl
bind-ext asleep f g same = refl

-- Whatever the first call gives.
pub Yields-then {ℓ κ} :
    {A B : Type ℓ} {Q : B → Type κ} (m : Outcome A) (f : A → Outcome B)
    → ((a : A) → Yields Q (f a))
    → Yields Q (m >>= f)
Yields-then (ok a) f next = next a
Yields-then (panic m) f next = panics m
Yields-then asleep f next = waits

pub Yields-bind {ℓ κ} :
    {A B : Type ℓ} {P : A → Type κ} {Q : B → Type κ} {m : Outcome A} (f : A → Outcome B)
    → Yields P m
    → ((a : A) → P a → Yields Q (f a))
    → Yields Q (m >>= f)
Yields-bind f (yields a p) next = next a p
Yields-bind f (panics m) next = panics m
Yields-bind f waits next = waits

pub Yields-mono {ℓ κ} :
    {A : Type ℓ} {P Q : A → Type κ} {m : Outcome A}
    → Yields P m
    → ((a : A) → P a → Q a)
    → Yields Q m
Yields-mono (yields a p) weaken = yields a (weaken a p)
Yields-mono (panics m) weaken = panics m
Yields-mono waits weaken = waits

pub Yields-if {ℓ κ} :
    {A : Type ℓ} {P : A → Type κ} (b : Bool) (x y : Outcome A)
    → (b ≡ true → Yields P x)
    → (b ≡ false → Yields P y)
    → Yields P (if b then x else y)
Yields-if true x y f g = f refl
Yields-if false x y f g = g refl

pub Yields-value {ℓ κ} :
    {A : Type ℓ} {P : A → Type κ} {m : Outcome A} {a : A} → Yields P m → m ≡ ok a → P a
Yields-value {P} {a} y e = kept (subst (Yields P) e y)
  where
    kept : Yields P (ok a) → P a
    kept (yields x p) = p

-- The value of a call that returns.
pub Returns-value {ℓ κ} :
    {A : Type ℓ} {P : A → Type κ} {m : Outcome A} → Returns P m → (a : A) × (m ≡ ok a) × P a
Returns-value (returns a p) = (a, refl, p)
