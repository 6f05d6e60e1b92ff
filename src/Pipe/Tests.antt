-- ===== src/Pipe/Tests.antt =====
-- pipe.c at concrete inputs.
use model_lib.Base.{
  ℕ, ◌≡◌, ◌⊎◌, ◌<◌, refl, true, false, List, [], ◌∷◌, ◌++◌, arith, inl, take, drop, replicate,
  length-replicate, if◌then◌else◌, not, ◌||◌,
}
use model_lib.Pipe.{Pipe, init, Written, pipewrite, Got, piperead, pipeclose, Chan}
use model_lib.Pipe.Fifo.{Holds, init-Holds, pipeclose_lem}
use model_lib.Pipe.Calls.{
  stopped, pipewrite-fits, pipewrite-overflows, piperead-ready, piperead-waits, Fits, Overflows,
  pipewrite_lem, piperead_lem,
}
use model_lib.Pipe.Stream.{Op, run, run-stream}

abbrev fresh : Pipe
fresh = init (replicate 512 0)

abbrev wrapped : Pipe
wrapped = record fresh { nread = 0xffff_fffe; nwrite = 0xffff_fffe }

fresh-Holds : Holds fresh []
fresh-Holds = init-Holds (replicate 512 0) (length-replicate {A = ℕ} 512 0)

abbrev hello : List ℕ
hello = 104 ∷ 105 ∷ 106 ∷ []

-- Three bytes cross the wrap of the counters, and two of them come back.
across_the_wrap :
    (piperead false 2 (pipewrite false hello wrapped).1).0 ≡ Got.bytes (104 ∷ 105 ∷ [])
unfolding pipewrite piperead init
across_the_wrap = refl

close_both : (pipeclose true (pipeclose false fresh).1).0 ≡ true
unfolding pipeclose init
close_both = refl

hello_fits :
    ((pipewrite false hello fresh).0 ≡ Written.done 3)
    × Holds (pipewrite false hello fresh).1 hello
    × ((pipewrite false hello fresh).2 ≡ Chan.nread_chan ∷ [])
hello_fits = pipewrite-fits false fresh [] fresh-Holds hello (omega arith)

long_overflows :
    ((pipewrite false (replicate 513 7) fresh).0
      ≡ stopped false fresh 512 (drop 512 (replicate 513 7)))
    × Holds (pipewrite false (replicate 513 7) fresh).1 (take 512 (replicate 513 7))
    × ((pipewrite false (replicate 513 7) fresh).2
        ≡ (if not fresh.readopen || false then [] else Chan.nread_chan ∷ []))
long_overflows =
    pipewrite-overflows false fresh [] fresh-Holds (replicate 513 7)
      (omega (arith, length-replicate {A = ℕ} 513 7))

two_bytes :
    ((piperead false 2 (pipewrite false hello fresh).1).0 ≡ Got.bytes (104 ∷ 105 ∷ []))
    × Holds (piperead false 2 (pipewrite false hello fresh).1).1 (106 ∷ [])
    × ((piperead false 2 (pipewrite false hello fresh).1).2 ≡ Chan.nwrite_chan ∷ [])
two_bytes =
    piperead-ready 2 (pipewrite false hello fresh).1 false hello
      (pipewrite-fits false fresh [] fresh-Holds hello (omega arith)).1 (inl (omega arith))

killed_reader : piperead true 4 fresh ≡ (Got.gone, fresh, [])
unfolding init
killed_reader = piperead-waits 4 fresh true fresh-Holds refl

run-stream_example :
    (ys : List ℕ) × Holds (run fresh (Op.write false hello ∷ Op.read false 2 ∷ [])).2 ys
    × ([] ++ (run fresh (Op.write false hello ∷ Op.read false 2 ∷ [])).0
        ≡ (run fresh (Op.write false hello ∷ Op.read false 2 ∷ [])).1 ++ ys)
run-stream_example = run-stream (Op.write false hello ∷ Op.read false 2 ∷ []) fresh [] fresh-Holds

closed : Holds (pipeclose true fresh).1 [] × ((pipeclose true fresh).0 ≡ not true)
unfolding init
closed = pipeclose_lem true fresh [] fresh-Holds

pipewrite_lem_example :
    Fits false fresh [] fresh-Holds hello ⊎ Overflows false fresh [] fresh-Holds hello
pipewrite_lem_example = pipewrite_lem false fresh [] fresh-Holds hello

piperead_lem_example :
    (((0 < 0) ⊎ (fresh.writeopen ≡ false))
      × ((piperead false 4 fresh).0 ≡ Got.bytes [])
      × Holds (piperead false 4 fresh).1 []
      × ((piperead false 4 fresh).2 ≡ Chan.nwrite_chan ∷ []))
    ⊎ ((◌≡◌ {A = List ℕ} [] [])
        × (fresh.writeopen ≡ true)
        × (piperead false 4 fresh ≡ (Got.asleep, fresh, [])))
piperead_lem_example = piperead_lem 4 fresh false [] fresh-Holds
