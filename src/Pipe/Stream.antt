-- ===== src/Pipe/Stream.antt =====
-- Any sequence of calls on one pipe, by any processes, in the order in which they hold its lock.
use model_lib.Base.{
  ℕ, ◌+◌, ◌-◌, ◌^◌, ◌≤◌, ◌≡◌, refl, sym, ap, ◌∙◌, inl, inr, Bool, true, false, List, [], ◌∷◌, ◌++◌,
  arith, if◌then◌else◌, Bool-cases, length, take, drop, length-append, take-append-drop, dec_lt,
  take-all, length-take,
}
use mathlib.Core.List.{append-nil, append_assoc}
use model_lib.Pipe.{Pipe, pipesize, u32, Got, pipewrite, piperead}
use model_lib.Pipe.Fifo.{Holds}
use model_lib.Pipe.Calls.{
  pipewrite-fits, pipewrite-overflows, pipewrite-nread, piperead-ready, piperead-waits,
}

-- A step: a call of `pipewrite` (or its going on after a sleep, with what was left), or of `piperead`,
-- by a process that is killed or not.
pub data Op : Type 0 where
  write : Bool → List ℕ → Op
  read : Bool → ℕ → Op

-- The bytes that a call of `pipewrite` has put into the pipe, counted by how far `nwrite` has moved.
sent_by : Pipe → Pipe → List ℕ → List ℕ
sent_by p q src = take (u32 (q.nwrite + 2 ^ 32 - p.nwrite)) src

-- The bytes that a call of `piperead` hands out.
abbrev got : Got → List ℕ
got (Got.bytes bs) = bs
got Got.gone = []
got Got.asleep = []

-- What a sequence of steps puts in and takes out, in order, and the pipe at its end.
pub run : Pipe → List Op → List ℕ × List ℕ × Pipe
unfolding sent_by
run p [] = ([], [], p)
run p (Op.write killed src ∷ ops) =
    let q = (pipewrite killed src p).1 in
    let (sent, received, last) = run q ops in (sent_by p q src ++ sent, received, last)
run p (Op.read killed n ∷ ops) =
    let (r, q, _) = piperead killed n p in
    let (sent, received, last) = run q ops in (sent, got r ++ received, last)

-- If the queue has grown by `k` bytes and the reader has not moved, then `k` bytes were sent.
sent_by-take :
    (p q : Pipe) (xs src : List ℕ) (k : ℕ)
    → Holds p xs
    → Holds q (xs ++ take k src)
    → k ≤ length src
    → q.nread ≡ p.nread
    → sent_by p q src ≡ take k src
unfolding sent_by
sent_by-take p q xs src k h h' le e =
    let n : u32 (q.nwrite + 2 ^ 32 - p.nwrite) ≡ k = omega (
      arith,
      h.nwrite,
      h'.nwrite,
      h.fits,
      h'.fits,
      length-append xs (take k src),
      length-take k src,
    ) in
    rw n

-- One write adds to the queue what it has sent.
write_step :
    (killed : Bool) (src : List ℕ) (p : Pipe) (xs : List ℕ)
    → Holds p xs
    → Holds (pipewrite killed src p).1 (xs ++ sent_by p (pipewrite killed src p).1 src)
write_step killed src p xs h = elim (dec_lt pipesize (length xs + length src)) [
  | yes over ↦
      let room = pipesize - length xs in
      let (_, keep, _) = pipewrite-overflows killed p xs h src over in
      rw
        (sent_by-take p (pipewrite killed src p).1 xs src room h keep (omega (arith, h.fits))
          (pipewrite-nread killed src p))
        keep
  | no fits ↦
      let (_, keep, _) = pipewrite-fits killed p xs h src (omega arith) in
      let all : take (length src) src ≡ src = take-all (length src) src (omega arith) in
      let keep' : Holds (pipewrite killed src p).1 (xs ++ take (length src) src) = rw all keep in
      rw
        (sent_by-take p (pipewrite killed src p).1 xs src (length src) h keep' (omega arith)
          (pipewrite-nread killed src p))
        keep'
]

got_nothing : (killed : Bool) → [] ≡ got (if killed then Got.gone else Got.asleep) ++ []
got_nothing true = refl
got_nothing false = refl

read_step :
    (killed : Bool) (n : ℕ) (p : Pipe) (xs : List ℕ)
    → Holds p xs
    → (ys : List ℕ) × Holds (piperead killed n p).1 ys × (xs ≡ got (piperead killed n p).0 ++ ys)
read_step killed n p (x ∷ xs) h =
    let (r, keep, _) = piperead-ready n p killed (x ∷ xs) h (inl (omega arith)) in
    (drop n (x ∷ xs), keep, rw r (sym (take-append-drop n (x ∷ xs))))
read_step killed n p [] h = elim (Bool-cases p.writeopen) [
  | inl open_end ↦ (
    [],
    rw (piperead-waits n p killed h open_end) h,
    rw (piperead-waits n p killed h open_end) (got_nothing killed),
  )
  | inr shut ↦
      let (r, keep, _) = piperead-ready n p killed [] h (inr shut) in
      (drop n [], keep, rw r (sym (take-append-drop n [])))
]

-- Whatever the sequence of steps on a pipe that holds `xs` at its start: `xs` and then the bytes that
-- were put in are the bytes that were taken out and then what the pipe holds at the end. Nothing is
-- lost, doubled or reordered.
pub run-stream :
    (ops : List Op) (p : Pipe) (xs : List ℕ)
    → Holds p xs
    → (ys : List ℕ) × Holds (run p ops).2 ys × (xs ++ (run p ops).0 ≡ (run p ops).1 ++ ys)
unfolding run
run-stream [] p xs h = (xs, h, append-nil xs)
run-stream (Op.write killed src ∷ ops) p xs h =
    let q : Pipe = (pipewrite killed src p).1 in
    let (ys, last, e) = run-stream ops q (xs ++ sent_by p q src) (write_step killed src p xs h) in
    (ys, last, sym (append_assoc xs (sent_by p q src) (run q ops).0) ∙ e)
run-stream (Op.read killed n ∷ ops) p xs h =
    let (zs, keep, e) = read_step killed n p xs h in
    let q : Pipe = (piperead killed n p).1 in
    let bs : List ℕ = got (piperead killed n p).0 in
    let (ys, last, e') = run-stream ops q zs keep in
    (
      ys,
      last,
      rw e (
          append_assoc bs zs (run q ops).0
          ∙ ap (λ t. bs ++ t) e'
          ∙ sym (append_assoc bs (run q ops).1 ys)),
    )
