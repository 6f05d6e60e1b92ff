-- ===== src/Spinlock.antt =====
-- spinlock.c: one lock and the processors that take it. Each step of a processor is one access of it to the lock or to
-- its own flags, and the steps of the processors come in any order. The name of the lock and its record of
-- callers are left out.
pub mod Exclusion
mod Tests
use model_lib.Base.{
  ℕ, ◌+◌, ◌-◌, Bool, true, false, not, ◌&&◌, Option, none, some, List, [], ◌∷◌, ◌==◌, if◌then◌else◌,
}
use model_lib.Base.Outcome.{
  Outcome, ok, panic, ◌>>=◌, ◌>>◌, check, acquire_held, release_not_held, popcli_interruptible,
  popcli_unmatched,
}
use model_lib.Base.Family.{update}

-- Of `struct cpu`, and whether the flag FL_IF of the processor is set.
pub record Cpu : Type 0 where
  pub ncli : ℕ
  pub intena : Bool
  pub interrupts : Bool

-- `struct spinlock`
pub record Spinlock : Type 0 where
  pub locked : Bool
  pub cpu : Option ℕ

abbrev pub initlock : Spinlock
initlock = record { locked = false; cpu = none }

pub pushcli : Cpu → Cpu
pushcli c = record {
  ncli = c.ncli + 1;
  intena = if c.ncli == 0 then c.interrupts else c.intena;
  interrupts = false;
}

pub popcli : Cpu → Outcome Cpu
popcli c = do
  check (not c.interrupts) popcli_interruptible
  check (not (c.ncli == 0)) popcli_unmatched
  ok (record c { ncli = c.ncli - 1; interrupts = c.ncli - 1 == 0 && c.intena })

abbrev pub is_cpu : ℕ → Option ℕ → Bool
is_cpu i none = false
is_cpu i (some j) = j == i

pub holding : ℕ → Spinlock → Bool
holding i lk = lk.locked && is_cpu i lk.cpu

-- Where a processor stands: outside, in `acquire` behind pushcli, at the loop and behind it, with the lock, and in
-- `release` before the last xchg and before popcli.
pub data Place : Type 0 where
  outside pushed spinning taken inside leaving popping : Place

pub record System : Type 0 where
  pub lock : Spinlock
  pub cpus : ℕ → Cpu
  pub places : ℕ → Place

abbrev pub go : ℕ → Place → System → System
go i p s = record s { places = update s.places i p }

-- The next access of the processor `i`, which stands at `p`.
pub step_at : Place → ℕ → System → Outcome System
unfolding pushcli popcli holding
step_at outside i s = ok (go i pushed (record s { cpus = update s.cpus i (pushcli (s.cpus i)) }))
step_at pushed i s = if holding i s.lock then panic acquire_held else ok (go i spinning s)
step_at spinning i s =
    if s.lock.locked
    then ok s
    else ok (go i taken (record s { lock = record s.lock { locked = true } }))
step_at taken i s = ok (go i inside (record s { lock = record s.lock { cpu = some i } }))
step_at inside i s =
    if not (holding i s.lock)
    then panic release_not_held
    else ok (go i leaving (record s { lock = record s.lock { cpu = none } }))
step_at leaving i s = ok (go i popping (record s { lock = record s.lock { locked = false } }))
step_at popping i s = do
  c ← popcli (s.cpus i)
  ok (go i outside (record s { cpus = update s.cpus i c }))

pub step : ℕ → System → Outcome System
unfolding step_at
step i s = step_at (s.places i) i s

-- The processors of the list move one after the other.
unfoldable pub run : List ℕ → System → Outcome System
unfolding step
run [] s = ok s
run (i ∷ is) s = do s₁ ← step i s; run is s₁
