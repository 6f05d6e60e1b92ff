-- ===== src/Spinlock/Tests.antt =====
-- Two processors and a lock.
use model_lib.Base.{
  ℕ, ◌≡◌, refl, sym, true, false, false≢true, List, [], ◌∷◌, Option, none, some, arith,
}
use model_lib.Base.Outcome.{Outcome, ok, panic, asleep, Returns}
use model_lib.Spinlock.{initlock, Place, outside, inside, System, run}
use model_lib.Spinlock.Exclusion.{IsSafe, run-IsSafe}

abbrev start : System
start = record {
  lock = initlock;
  cpus = λ i. record { ncli = 0; intena = false; interrupts = true };
  places = λ i. outside;
}

start-IsSafe : IsSafe start
start-IsSafe = record {
  owner = λ i o. absurd (false≢true o);
  unique = λ i j oi oj. absurd (false≢true oi);
  locked = λ l. absurd (false≢true l);
  named = λ i. refl;
  off = λ i pos. absurd (omega arith);
  matched = λ i out. absurd (false≢true (sym out));
}

-- Both come to the loop, the second takes the lock and gives it back, and then the first takes it.
abbrev order : List ℕ
order = 0 ∷ 1 ∷ 0 ∷ 1 ∷ 1 ∷ 0 ∷ 1 ∷ 0 ∷ 1 ∷ 1 ∷ 0 ∷ 0 ∷ []

run-IsSafe_example : Returns IsSafe (run order start)
run-IsSafe_example = run-IsSafe order start start-IsSafe

abbrev place_of : ℕ → Outcome System → Option Place
place_of i (ok s) = some (s.places i)
place_of i (panic m) = none
place_of i asleep = none

first_inside : place_of 0 (run order start) ≡ some inside
unfolding run
first_inside = refl
