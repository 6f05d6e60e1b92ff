-- ===== src/Pipe.antt =====
-- pipe.c: a byte pipe between processes. The lock of a pipe is held from the entry of each function
-- to its return or to a `sleep`, so what runs between two sleeps is one step. A call that sleeps
-- gives back the pipe as it leaves it and what is left of its own loop; it resumes at the test of
-- the `while` around the `sleep`, which is where the function here starts.
pub mod Calls
pub mod Fifo
pub mod Stream
mod Tests
use model_lib.Base.{
  ℕ, ◌+◌, ◌%◌, ◌^◌, Bool, true, false, not, ◌&&◌, ◌||◌, List, [], ◌∷◌, ◌==◌, if◌then◌else◌, get_or,
  set,
}

abbrev pub pipesize : ℕ
pipesize = 512

-- `uint` arithmetic
abbrev pub u32 : ℕ → ℕ
u32 n = n % 2 ^ 32

-- `struct pipe`, without its lock.
pub record Pipe : Type 0 where
  pub bytes : List ℕ
  pub nread : ℕ
  pub nwrite : ℕ
  pub readopen : Bool
  pub writeopen : Bool

-- The channels that are woken: `&p->nread` for readers and `&p->nwrite` for writers.
pub data Chan : Type 0 where
  nread_chan nwrite_chan : Chan

-- The pipe that `pipealloc` sets up in the page that `kalloc` gives; `junk` is what that page holds
-- where `data` comes to lie.
pub init : List ℕ → Pipe
init junk = record { bytes = junk; nread = 0; nwrite = 0; readopen = true; writeopen = true }

-- p->nwrite == p->nread + PIPESIZE
pub is_full : Pipe → Bool
is_full p = p.nwrite == u32 (p.nread + pipesize)

-- p->nread == p->nwrite
pub is_empty : Pipe → Bool
is_empty p = p.nread == p.nwrite

-- p->data[p->nwrite++ % PIPESIZE] = b
pub put : Pipe → ℕ → Pipe
put p b = record p { bytes = set p.bytes (p.nwrite % pipesize) b; nwrite = u32 (p.nwrite + 1) }

-- p->data[p->nread % PIPESIZE]
pub front : Pipe → ℕ
front p = get_or p.bytes (p.nread % pipesize) 0

-- p->nread++
pub skip : Pipe → Pipe
skip p = record p { nread = u32 (p.nread + 1) }

-- How a call ends: `done` with its return value, `failed` with -1, or asleep with what its loop has
-- still to do.
pub data Written : Type 0 where
  done : ℕ → Written
  failed : Written
  asleep : ℕ → List ℕ → Written

-- The loop of `pipewrite` from the test of its inner `while`: `i` bytes are written, and `rest` is
-- addr[i..n). The channels woken on the way come third.
pub write_loop : (killed : Bool) → ℕ → List ℕ → Pipe → Written × Pipe × List Chan
unfolding is_full put
write_loop killed i [] p = (Written.done i, p, Chan.nread_chan ∷ [])
write_loop killed i (b ∷ rest) p =
    let next = write_loop killed (i + 1) rest (put p b) in
    if is_full p
    then (if not p.readopen || killed
        then (Written.failed, p, [])
        else (Written.asleep i (b ∷ rest), p, Chan.nread_chan ∷ []))
    else next

pub pipewrite : (killed : Bool) → List ℕ → Pipe → Written × Pipe × List Chan
unfolding write_loop
pipewrite killed src p = write_loop killed 0 src p

-- The second loop of `piperead`: at most `n` bytes, up to the first time that the pipe is empty.
pub read_loop : ℕ → Pipe → List ℕ × Pipe
unfolding is_empty front skip
read_loop ℕ.zero p = ([], p)
read_loop (ℕ.suc n) p =
    let more : List ℕ × Pipe = (let (bs, q) = read_loop n (skip p) in (front p ∷ bs, q)) in
    if is_empty p then ([], p) else more

-- How `piperead` ends: with the bytes that it stored, their number being its value; with -1; or
-- asleep in its first loop.
pub data Got : Type 0 where
  bytes : List ℕ → Got
  gone : Got
  asleep : Got

pub piperead : (killed : Bool) → ℕ → Pipe → Got × Pipe × List Chan
unfolding read_loop
piperead killed n p =
    if is_empty p && p.writeopen
    then ((if killed then Got.gone else Got.asleep), p, [])
    else (let (bs, q) = read_loop n p in (Got.bytes bs, q, Chan.nwrite_chan ∷ []))

-- `pipeclose`; the Bool says whether the page is given back by `kfree`.
pub pipeclose : (writable : Bool) → Pipe → Bool × Pipe × List Chan
pipeclose writable p =
    let q = if writable then record p { writeopen = false } else record p { readopen = false } in
    let woken = if writable then Chan.nread_chan ∷ [] else Chan.nwrite_chan ∷ [] in
    (not q.readopen && not q.writeopen, q, woken)
