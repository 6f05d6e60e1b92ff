-- ===== src/File/Rounds.antt =====
-- The loop of `filewrite` ends within as many rounds as it has bytes to write.
use model_lib.Base.{
  ℕ, zero, suc, ◌+◌, ◌≤◌, ◌≡◌, refl, sym, ap, ◌∙◌, Bool, true, false, Option, none, some, ◌==◌, ltb,
  if◌then◌else◌, arith,
}
use model_lib.Base.Outcome.{Outcome, ok, bind-ext}
use model_lib.File.{Ftable, advance, chunk, written, after_write, write_round, write_rounds}
use model_lib.File.Services.{FileServices}

if_cong {ℓ} :
    {A : Type ℓ} (b : Bool) {x x' y y' : A}
    → (b ≡ true → x ≡ x')
    → (b ≡ false → y ≡ y')
    → (if b then x else y) ≡ (if b then x' else y')
if_cong true f g = f refl
if_cong false f g = g refl

if_false {ℓ} : {A : Type ℓ} (x y : A) (b : Bool) → b ≡ false → (if b then x else y) ≡ y
if_false x y true e = cc e
if_false x y false e = refl

module _ {S : Type 0} (os : FileServices S) (i addr n : ℕ) where
  after_write-ext :
      (n1 d : ℕ) (f g : ℕ → Ftable → S → Outcome (Option ℕ × (Ftable × S))) (r : Option ℕ)
      (t : Ftable) (s : S)
      → f (d + n1) t s ≡ g (d + n1) t s
      → after_write os n1 d f r t s ≡ after_write os n1 d g r t s
  unfolding after_write
  after_write-ext n1 d f g none t s same = refl
  after_write-ext n1 d f g (some r) t s same =
      if_cong (r == n1)
        (λ q.
          let r_eq : n1 ≡ r = ground arith in
          ap (λ m. f (d + m) t s) (sym r_eq) ∙ same ∙ ap (λ m. g (d + m) t s) r_eq)
        (λ q. refl)

  write_round-ext :
      (d : ℕ) (f g : ℕ → Ftable → S → Outcome (Option ℕ × (Ftable × S))) (t : Ftable) (s : S)
      → ((t' : Ftable) (s' : S) → f (d + chunk n d) t' s' ≡ g (d + chunk n d) t' s')
      → write_round os i addr n d f t s ≡ write_round os i addr n d g t s
  unfolding write_round
  write_round-ext d f g t s same = bind-ext (os.begin_trans s) _ _ λ s₁.
      bind-ext (os.ilock (t i).ip s₁) _ _ λ s₂.
        bind-ext (os.writei (t i).ip (addr + d) (t i).off (chunk n d) s₂) _ _ λ r.
          bind-ext (os.iunlock (t i).ip r.1) _ _ λ s₄.
            bind-ext (os.commit_trans s₄) _ _
              λ s₅. after_write-ext (chunk n d) d f g r.0 (advance i r.0 t) s₅ (same _ _)

  ended :
      (fuel d : ℕ) (t : Ftable) (s : S)
      → n ≤ 0 + d
      → write_rounds os fuel i addr n d t s ≡ ok (written n d, (t, s))
  unfolding write_rounds
  ended zero d t s le = refl
  ended (suc fuel) d t s le = if_false _ _ (ltb d n) (ground arith)

  -- Whatever inodes and log do, any two numbers of rounds that are not below the number of bytes left to write
  -- come to the same: the loop has ended by then.
  pub write_rounds-enough :
      (fuel fuel' d : ℕ) (t : Ftable) (s : S)
      → n ≤ fuel + d
      → n ≤ fuel' + d
      → write_rounds os fuel i addr n d t s ≡ write_rounds os fuel' i addr n d t s
  unfolding write_rounds
  write_rounds-enough zero fuel' d t s le le' = sym (ended fuel' d t s le)
  write_rounds-enough (suc fuel) zero d t s le le' = ended (suc fuel) d t s le'
  write_rounds-enough (suc fuel) (suc fuel') d t s le le' =
      if_cong (ltb d n)
        (λ q.
          write_round-ext d (write_rounds os fuel i addr n) (write_rounds os fuel' i addr n) t s
            λ t' s'.
              write_rounds-enough fuel fuel' (d + chunk n d) t' s' (ground arith) (ground arith))
        (λ q. refl)
