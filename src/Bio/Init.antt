-- ===== src/Bio/Init.antt =====
-- The buffer cache after `binit`.
use model_lib.Base.{ℕ, ◌≡◌, refl, false, none, arith, ◌∙◌}
use mathlib.Core.Path.{fun_ext}
use model_lib.Base.Family.{has, count, find-eq_none}
use model_lib.Bio.{Disk, matches, binit, nbuf}
use model_lib.Bio.Inv.{IsValid, slot, look-none, view, held, dirty, room}

module _ (d : Disk) where
  init-slot : (s : ℕ) → slot (binit d) s ≡ none
  unfolding binit
  init-slot s = find-eq_none (matches (binit d).buf 1 s) (binit d).order (λ j hj. refl)

  -- All NBUF buffers are free, no sector is held or dirty, and each reads as it stands on the disk.
  pub binit-IsValid : IsValid (binit d)
  unfolding binit has count
  binit-IsValid = record {
    distinct = (refl, (refl, (refl, (refl, (refl, (refl, (refl, (refl, (refl, (refl, tt))))))))));
    unique = λ i j hi hj di dj e. absurd (omega (arith, di));
    loaded = λ i hi di. absurd (omega (arith, di));
    clean = λ i hi di f. absurd (omega (arith, di));
    spare = λ i hi di. refl;
    total = refl;
  }

  pub view-binit : view (binit d) ≡ d.blocks
  unfolding view
  view-binit =
      fun_ext λ s. look-none (λ b. b.bytes) (binit d).disk.blocks (binit d) s (init-slot s) ∙ same s
    where
      same : (s : ℕ) → (binit d).disk.blocks s ≡ d.blocks s
      same s = unfold binit in refl

  pub held-binit : held (binit d) ≡ (λ s. false)
  unfolding held
  held-binit = fun_ext λ s. look-none (λ b. b.busy) (λ t. false) (binit d) s (init-slot s)

  pub dirty-binit : dirty (binit d) ≡ (λ s. false)
  unfolding dirty
  dirty-binit = fun_ext λ s. look-none (λ b. b.dirty) (λ t. false) (binit d) s (init-slot s)

  pub room-binit : room (binit d) ≡ nbuf
  unfolding room binit count
  room-binit = refl
