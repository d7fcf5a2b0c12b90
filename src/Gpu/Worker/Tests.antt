-- ===== src/Gpu/Worker/Tests.antt =====
-- A worker whose device comes and goes, and one whose launches fail.
use loadmaster.Prelude.{ℕ, zero, suc, ◌≡◌, refl, true, false, none, some, List, [], ◌∷◌, arith, All}
use loadmaster.Gpu.Worker.{Worker, allocated, allocation_failed, released, sync_memory}
use loadmaster.Gpu.Worker.Pairing.{WellPaired}
use loadmaster.Gpu.Worker.Loop.{Tick, LoopState, gave_up, tick, loop}
use loadmaster.Gpu.Worker.Loop.Memory.{memory_calls, loop-WellPaired}
use loadmaster.Gpu.Worker.Loop.Failures.{Fails, Ends, loop-Ends}

abbrev fresh : Worker
fresh = record { has_device = true; memory_bytes = 64; memory_held = false; memory_failed = false }

abbrev started : LoopState
started = record { worker = fresh; calibrated = false; consecutive_failures = 0 }

abbrev calm : Tick
calm = record {
  stop = false;
  others = none;
  load_set = 30;
  has_room = true;
  calibrates = true;
  launches = true;
}

-- Allocated, given up to others that take everything, a failure, no second try until others have
-- come and gone; at last a calibration fails.
abbrev ticks : List Tick
ticks =
    record calm { load_set = 0 }
    ∷ record calm { others = some 100 }
    ∷ record calm { has_room = false }
    ∷ calm
    ∷ record calm { others = some 5 }
    ∷ calm
    ∷ []

calls-ticks :
    memory_calls (loop started ticks).events
    ≡ allocated ∷ released ∷ allocation_failed ∷ allocated ∷ []
unfolding loop tick sync_memory
calls-ticks = refl

-- The calibration fails with a block held: it is released.
abbrev given_up : List Tick
given_up = record calm { calibrates = false } ∷ calm ∷ []

calls-given_up : memory_calls (loop started given_up).events ≡ allocated ∷ released ∷ []
unfolding loop tick sync_memory
calls-given_up = refl

loop-WellPaired_example :
    WellPaired false (memory_calls (loop started given_up).events)
    × ((loop started given_up).verdict ≡ gave_up
        → (loop started given_up).state.worker.memory_held ≡ false)
loop-WellPaired_example = loop-WellPaired started given_up refl

abbrev failing : ℕ → List Tick
failing zero = []
failing (suc n) = record calm { launches = false } ∷ failing n

failing-Fails : (n : ℕ) → All Fails (failing n)
failing-Fails zero = tt
failing-Fails (suc n) = ((refl, omega arith, refl), failing-Fails n)

abbrev calibrated : LoopState
calibrated = record { worker = fresh; calibrated = true; consecutive_failures = 3 }

loop-Ends_example : Ends calibrated (loop calibrated (failing 60))
loop-Ends_example =
    loop-Ends calibrated (failing 60) refl refl (omega arith) (omega arith) (failing-Fails 60)
