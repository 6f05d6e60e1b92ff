-- ===== src/Pipe/Calls.antt =====
-- The calls of pipe.c on a pipe that holds a queue: what each returns, and the queue afterwards.
use model_lib.Base.{
  ℕ, zero, suc, ◌+◌, ◌-◌, ◌≤◌, ◌<◌, ◌≡◌, refl, ap, ◌∙◌, ◌⊎◌, inl, inr, Bool, true, false, not, ◌&&◌,
  ◌||◌, leb, List, [], ◌∷◌, ◌++◌, arith, if◌then◌else◌, Bool-cases, length, take, drop,
  length-append,
}
use native.Mathlib.Nat.{zero-add}
use mathlib.Core.List.{append-nil, append_assoc}
use model_lib.Pipe.{
  Pipe, pipesize, is_empty, put, skip, Written, write_loop, pipewrite, Got, read_loop, piperead,
  Chan,
}
use model_lib.Pipe.Fifo.{
  Holds, put-Holds, front-Holds, skip-Holds, not_full-Holds, not_empty-Holds, full-Holds,
  empty-Holds,
}

-- How a write ends where the queue has no room for all of it.
abbrev pub stopped : Bool → Pipe → ℕ → List ℕ → Written
stopped killed p i rest = if not p.readopen || killed then Written.failed else Written.asleep i rest

-- All of the bytes go in where there is room for all.
write_loop_room :
    (killed : Bool) (i : ℕ) (src : List ℕ) (p : Pipe) (xs : List ℕ)
    → Holds p xs
    → length xs + length src ≤ pipesize
    → ((write_loop killed i src p).0 ≡ Written.done (i + length src))
      × Holds (write_loop killed i src p).1 (xs ++ src)
      × ((write_loop killed i src p).2 ≡ Chan.nread_chan ∷ [])
unfolding write_loop
write_loop_room killed i [] p xs h room =
    (ap Written.done (omega arith), rw (append-nil xs) h, refl)
write_loop_room killed i (b ∷ src) p xs h room =
    let (r, q, w) =
      write_loop_room killed (i + 1) src (put p b) (xs ++ b ∷ []) (put-Holds p xs h b (omega arith))
        (omega (arith, length-append xs (b ∷ []))) in
    rw (not_full-Holds p xs h (omega arith))
      (r ∙ ap Written.done (omega arith), rw (append_assoc xs (b ∷ []) src) at q, w)

-- As many as there is room for, where there is not.
write_loop_full :
    (killed : Bool) (i : ℕ) (src : List ℕ) (p : Pipe) (xs : List ℕ)
    → Holds p xs
    → pipesize < length xs + length src
    → (room : ℕ) → length xs + room ≡ pipesize
    → ((write_loop killed i src p).0 ≡ stopped killed p (i + room) (drop room src))
      × Holds (write_loop killed i src p).1 (xs ++ take room src)
      × ((write_loop killed i src p).2
          ≡ (if not p.readopen || killed then [] else Chan.nread_chan ∷ []))
unfolding write_loop
write_loop_full killed i [] p xs h over room e = absurd (omega (arith, h.fits))
write_loop_full killed i (b ∷ src) p xs h over zero e =
    let here : i + 0 ≡ i = omega arith in
    rw (full-Holds p xs h (omega arith), here, append-nil xs)
      (elim (Bool-cases (not p.readopen || killed)) [
        | inl stop ↦ rw stop (refl, h, refl)
        | inr wait ↦ rw wait (refl, h, refl)
      ])
write_loop_full killed i (b ∷ src) p xs h over (suc room) e =
    let (r, q, w) =
      write_loop_full killed (i + 1) src (put p b) (xs ++ b ∷ []) (put-Holds p xs h b (omega arith))
        (omega (arith, length-append xs (b ∷ []))) room
        (omega (arith, length-append xs (b ∷ []))) in
    let step : i + 1 + room ≡ i + suc room = omega arith in
    rw (not_full-Holds p xs h (omega arith))
      (rw step at r, rw (append_assoc xs (b ∷ []) (take room src)) at q, w)

write_loop-nread :
    (killed : Bool) (i : ℕ) (src : List ℕ) (p : Pipe)
    → (write_loop killed i src p).1.nread ≡ p.nread
unfolding write_loop
write_loop-nread killed i [] p = refl
write_loop-nread killed i (b ∷ src) p =
    ground (arith, write_loop-nread killed (i + 1) src (put p b))

-- A write leaves the reader's counter alone.
pub pipewrite-nread :
    (killed : Bool) (src : List ℕ) (p : Pipe) → (pipewrite killed src p).1.nread ≡ p.nread
unfolding pipewrite
pipewrite-nread killed src p = write_loop-nread killed 0 src p

module _ (killed : Bool) (p : Pipe) (xs : List ℕ) (h : Holds p xs) where
  -- `pipewrite` with room for the whole of `src` returns its length; the pipe then holds `src` behind
  -- what it held, and readers are woken.
  pub pipewrite-fits :
      (src : List ℕ)
      → length xs + length src ≤ pipesize
      → ((pipewrite killed src p).0 ≡ Written.done (length src))
        × Holds (pipewrite killed src p).1 (xs ++ src)
        × ((pipewrite killed src p).2 ≡ Chan.nread_chan ∷ [])
  unfolding pipewrite
  pipewrite-fits src room = rw (zero-add (length src)) at (write_loop_room killed 0 src p xs h room)

  -- Without room for the whole of `src` the pipe takes in exactly what fits and is full. The call
  -- then fails with no wakeup if the read end is closed or the process killed, and else wakes readers
  -- and sleeps with the rest of `src`.
  pub pipewrite-overflows :
      (src : List ℕ)
      → pipesize < length xs + length src
      → let room = pipesize - length xs in
        ((pipewrite killed src p).0 ≡ stopped killed p room (drop room src))
        × Holds (pipewrite killed src p).1 (xs ++ take room src)
        × ((pipewrite killed src p).2
            ≡ (if not p.readopen || killed then [] else Chan.nread_chan ∷ []))
  unfolding pipewrite
  pipewrite-overflows src over =
      rw (zero-add (pipesize - length xs)) at
        (write_loop_full killed 0 src p xs h over (pipesize - length xs) (omega (arith, h.fits)))

  -- What `pipewrite` does with room for the whole of `src`, and what without.
  abbrev pub Fits : List ℕ → Type 0
  Fits src =
      (length xs + length src ≤ pipesize)
      × ((pipewrite killed src p).0 ≡ Written.done (length src))
      × Holds (pipewrite killed src p).1 (xs ++ src)
      × ((pipewrite killed src p).2 ≡ Chan.nread_chan ∷ [])

  abbrev pub Overflows : List ℕ → Type 0
  Overflows src =
      (pipesize < length xs + length src)
      × ((pipewrite killed src p).0
          ≡ stopped killed p (pipesize - length xs) (drop (pipesize - length xs) src))
      × Holds (pipewrite killed src p).1 (xs ++ take (pipesize - length xs) src)
      × ((pipewrite killed src p).2
          ≡ (if not p.readopen || killed then [] else Chan.nread_chan ∷ []))

  -- Where there is room for the whole of `src`, `pipewrite` returns its length; the pipe then holds `src`
  -- behind what it held, and readers are woken. Else the pipe takes in exactly what fits and is full; the
  -- call then fails with no wakeup if the read end is closed or the process killed, and else wakes
  -- readers and sleeps with the rest of `src`.
  pub pipewrite_lem : (src : List ℕ) → Fits src ⊎ Overflows src
  pipewrite_lem src = elim (Bool-cases (leb (length xs + length src) pipesize)) [
    | inl q ↦
        (let room : length xs + length src ≤ pipesize = ground arith in
          let (r, held, woken) = pipewrite-fits src room in inl (room, r, held, woken))
    | inr q ↦
        let over : pipesize < length xs + length src = ground arith in
        let (r, held, woken) = pipewrite-overflows src over in inr (over, r, held, woken)
  ]

read_loop_lem :
    (n : ℕ) (p : Pipe) (xs : List ℕ)
    → Holds p xs
    → ((read_loop n p).0 ≡ take n xs) × Holds (read_loop n p).1 (drop n xs)
unfolding read_loop
read_loop_lem zero p xs h = (refl, h)
read_loop_lem (suc n) p [] h = rw (empty-Holds p h) (refl, h)
read_loop_lem (suc n) p (x ∷ xs) h =
    let (bs, q) = read_loop_lem n (skip p) xs (skip-Holds p x xs h) in
    rw (not_empty-Holds p x xs h, front-Holds p x xs h, bs) (refl, q)

module _ (n : ℕ) (p : Pipe) where
  -- `piperead` of `n` bytes on a pipe that holds `xs` with a byte in it, or whose write end is closed,
  -- returns the first `n` bytes of `xs`, or all of them, leaves the others, and wakes writers.
  pub piperead-ready :
      (killed : Bool) (xs : List ℕ)
      → Holds p xs
      → (0 < length xs) ⊎ (p.writeopen ≡ false)
      → ((piperead killed n p).0 ≡ Got.bytes (take n xs))
        × Holds (piperead killed n p).1 (drop n xs)
        × ((piperead killed n p).2 ≡ Chan.nwrite_chan ∷ [])
  unfolding piperead
  piperead-ready killed xs h ready =
      let (bs, q) = read_loop_lem n p xs h in
      let go : (is_empty p && p.writeopen) ≡ false = ready_lem xs h ready in
      rw (go, bs) (refl, q, refl)
    where
      ready_lem :
          (xs : List ℕ)
          → Holds p xs
          → (0 < length xs) ⊎ (p.writeopen ≡ false)
          → (is_empty p && p.writeopen) ≡ false
      ready_lem [] h (inl lt) = absurd (omega arith)
      ready_lem [] h (inr shut) = rw (empty-Holds p h) shut
      ready_lem (x ∷ xs) h ready = rw (not_empty-Holds p x xs h)

  -- `piperead` on an empty pipe whose write end is open changes nothing and wakes nobody: it fails if
  -- the process is killed, and else it sleeps.
  pub piperead-waits :
      (killed : Bool)
      → Holds p []
      → p.writeopen ≡ true
      → piperead killed n p ≡ ((if killed then Got.gone else Got.asleep), p, [])
  unfolding piperead
  piperead-waits killed h open_end = rw (empty-Holds p h, open_end)

  -- `piperead` of `n` bytes on a pipe that holds `xs`: with a byte in it, or with its write end closed, it
  -- returns the first `n` bytes of `xs`, or all of them, leaves the others, and wakes writers. On an empty
  -- pipe whose write end is open it changes nothing and wakes nobody: it fails if the process is killed, and else
  -- it sleeps.
  pub piperead_lem :
      (killed : Bool) (xs : List ℕ)
      → Holds p xs
      → (((0 < length xs) ⊎ (p.writeopen ≡ false))
          × ((piperead killed n p).0 ≡ Got.bytes (take n xs))
          × Holds (piperead killed n p).1 (drop n xs)
          × ((piperead killed n p).2 ≡ Chan.nwrite_chan ∷ []))
        ⊎ ((xs ≡ [])
            × (p.writeopen ≡ true)
            × (piperead killed n p ≡ ((if killed then Got.gone else Got.asleep), p, [])))
  piperead_lem killed [] h = elim (Bool-cases p.writeopen) [
    | inl open_end ↦ inr (refl, open_end, piperead-waits killed h open_end)
    | inr shut ↦
        (let (r, held, woken) = piperead-ready killed [] h (inr shut) in
          inl (inr shut, r, held, woken))
  ]
  piperead_lem killed (x ∷ xs) h =
      (let some_byte : 0 < length (x ∷ xs) = omega arith in
        let (r, held, woken) = piperead-ready killed (x ∷ xs) h (inl some_byte) in
        inl (inl some_byte, r, held, woken))
