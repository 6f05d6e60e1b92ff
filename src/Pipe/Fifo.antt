-- ===== src/Pipe/Fifo.antt =====
-- pipe.c as a first-in first-out queue of at most PIPESIZE bytes.
use model_lib.Base.{
  not, if◌then◌else◌, ℕ, suc, ◌+◌, ◌%◌, ◌^◌, ◌≤◌, ◌<◌, ◌≡◌, refl, Bool, true, false, List, [], ◌∷◌,
  ◌++◌, arith, dec_lt, sym, ◌∙◌, get_or-set_self, get_or-set_ne, get_or-append_left,
  get_or-append_seam, length, length-append, length-set, get_or,
}
use model_lib.Pipe.{Pipe, pipesize, u32, is_full, is_empty, put, front, skip, init, pipeclose}

-- The queue that a pipe holds: `xs`, oldest byte first. The counters are `uint`s that wrap.
pub record Holds (p : Pipe) (xs : List ℕ) : Type 0 where
  pub size : length p.bytes ≡ pipesize
  pub nread : p.nread < 2 ^ 32
  pub nwrite : p.nwrite ≡ u32 (p.nread + length xs)
  pub fits : length xs ≤ pipesize
  pub cells : (i : ℕ) → i < length xs → get_or p.bytes ((p.nread + i) % pipesize) 0 ≡ get_or xs i 0

pub is_empty-Holds : (p : Pipe) (xs : List ℕ) → Holds p xs → is_empty p ≡ true → length xs ≡ 0
unfolding is_empty
is_empty-Holds p xs h e = ground arith

pub is_full-Holds : (p : Pipe) (xs : List ℕ) → Holds p xs → is_full p ≡ true → length xs ≡ pipesize
unfolding is_full
is_full-Holds p xs h e = ground arith

module _ (p : Pipe) (xs : List ℕ) (h : Holds p xs) where
  put_cell :
      (b i : ℕ)
      → length xs < pipesize
      → i < length xs + 1
      → get_or (put p b).bytes ((p.nread + i) % pipesize) 0 ≡ get_or (xs ++ b ∷ []) i 0
  unfolding put
  put_cell b i room lt = elim (dec_lt i (length xs)) [
    | yes old ↦
        get_or-set_ne p.bytes (p.nwrite % pipesize) ((p.nread + i) % pipesize) b 0
          (λ e. omega (arith, h.nwrite, h.fits))
        ∙ h.cells i old
        ∙ sym (get_or-append_left xs (b ∷ []) i 0 old)
    | no last ↦
        let e : i ≡ length xs = omega arith in
        let at_end : p.nwrite % pipesize ≡ (p.nread + length xs) % pipesize =
          omega (arith, h.nwrite) in
        rw (e, ← at_end)
          (get_or-set_self p.bytes (p.nwrite % pipesize) b 0 (omega (arith, h.size))
            ∙ sym (get_or-append_seam xs [] b 0))
  ]

  -- A byte that is put into a pipe with room joins the end of the queue.
  pub put-Holds : (b : ℕ) → length xs < pipesize → Holds (put p b) (xs ++ b ∷ [])
  unfolding put
  put-Holds b room = record {
    size = length-set p.bytes (p.nwrite % pipesize) b ∙ h.size;
    nread = h.nread;
    nwrite = omega (arith, h.nwrite, length-append xs (b ∷ []));
    fits = omega (arith, length-append xs (b ∷ []));
    cells = λ i lt. put_cell b i room (omega (arith, length-append xs (b ∷ [])));
  }

-- What `front` reads is the oldest byte, and `skip` removes it.
pub front-Holds : (p : Pipe) (x : ℕ) (xs : List ℕ) → Holds p (x ∷ xs) → front p ≡ x
unfolding front
front-Holds p x xs h =
    let e : (p.nread + 0) % pipesize ≡ p.nread % pipesize = omega arith in
    rw e at (h.cells 0 (omega arith))

pub skip-Holds : (p : Pipe) (x : ℕ) (xs : List ℕ) → Holds p (x ∷ xs) → Holds (skip p) xs
unfolding skip
skip-Holds p x xs h = record {
  size = h.size;
  nread = omega arith;
  nwrite = omega (arith, h.nwrite);
  fits = omega (arith, h.fits);
  cells = λ i lt.
      let e : (u32 (p.nread + 1) + i) % pipesize ≡ (p.nread + suc i) % pipesize = omega arith in
      rw e (h.cells (suc i) (omega arith));
}

pub not_full-Holds :
    (p : Pipe) (xs : List ℕ) → Holds p xs → length xs < pipesize → is_full p ≡ false
unfolding is_full
not_full-Holds p xs h lt = ground arith

pub full-Holds : (p : Pipe) (xs : List ℕ) → Holds p xs → length xs ≡ pipesize → is_full p ≡ true
unfolding is_full
full-Holds p xs h e = ground arith

pub not_empty-Holds : (p : Pipe) (x : ℕ) (xs : List ℕ) → Holds p (x ∷ xs) → is_empty p ≡ false
unfolding is_empty
not_empty-Holds p x xs h = ground arith

pub empty-Holds : (p : Pipe) → Holds p [] → is_empty p ≡ true
unfolding is_empty
empty-Holds p h = ground arith

-- The pipe of `pipealloc` holds nothing.
pub init-Holds : (junk : List ℕ) → length junk ≡ pipesize → Holds (init junk) []
unfolding init
init-Holds junk e = record {
  size = e;
  nread = omega arith;
  nwrite = refl;
  fits = omega arith;
  cells = λ i lt. absurd (omega arith);
}

-- Closing an end keeps the queue, and says that the page is to be freed exactly if the other end is
-- closed already.
pub pipeclose_lem :
    (writable : Bool) (p : Pipe) (xs : List ℕ)
    → Holds p xs
    → Holds (pipeclose writable p).1 xs
      × ((pipeclose writable p).0 ≡ not (if writable then p.readopen else p.writeopen))
unfolding pipeclose
pipeclose_lem true p xs h = (
  record { size = h.size; nread = h.nread; nwrite = h.nwrite; fits = h.fits; cells = h.cells },
  ground arith,
)
pipeclose_lem false p xs h = (
  record { size = h.size; nread = h.nread; nwrite = h.nwrite; fits = h.fits; cells = h.cells },
  ground arith,
)
