-- ===== src/Cpu/Schedule/Baseline.antt =====
-- The baseline of `Schedule` is the last reading that succeeded.
use loadmaster.Prelude.{
  ℕ, ◌-◌, ◌≡◌, refl, true, false, inl, inr, Bool-cases, List, [], ◌∷◌, Option, none, some, arith,
  leb, if◌then◌else◌,
}
use loadmaster.Cpu.Schedule.{
  Manager, Tick, initial, read_failed, first_reading, no_time_passed, adjust, schedule,
}

-- A call of `Schedule`: when, and what the reading was.
pub record Call : Type 0 where
  pub reading : Option ℕ
  pub now : ℕ

-- The state after the calls, the last one first.
unfoldable pub run : List Call → Manager
unfolding schedule
run [] = initial
run (c ∷ earlier) = (schedule (run earlier) c.reading c.now).manager

abbrev latest : Option ℕ → ℕ → Option (ℕ × ℕ) → Option (ℕ × ℕ)
latest none now last = last
latest (some busy) now last = some (busy, now)

-- The last reading that succeeded, and when it was.
abbrev pub last_reading : List Call → Option (ℕ × ℕ)
last_reading [] = none
last_reading (c ∷ earlier) = latest c.reading c.now (last_reading earlier)

-- What a call ought to do, said of the readings alone.
abbrev pub expected : Option (ℕ × ℕ) → Option ℕ → ℕ → Tick
expected last none now = read_failed
expected none (some busy) now = first_reading
expected (some (before, at)) (some busy) now =
    if leb now at then no_time_passed else adjust (busy - before) (now - at)

-- How the fields hold the last reading.
abbrev Holds : Option (ℕ × ℕ) → Manager → Type 0
Holds none m = m.has_prev_busy_ticks ≡ false
Holds (some (before, at)) m =
    (m.has_prev_busy_ticks ≡ true) × (m.prev_busy_ticks ≡ before) × (m.last_scheduling ≡ at)

schedule-Holds :
    (m : Manager) (last : Option (ℕ × ℕ)) (reading : Option ℕ) (now : ℕ)
    → Holds last m
    → Holds (latest reading now last) (schedule m reading now).manager
unfolding schedule
schedule-Holds m last none now h = h
schedule-Holds m last (some busy) now h = elim (Bool-cases m.has_prev_busy_ticks) [
  | inl has ↦ rw has (elim (Bool-cases (leb now m.last_scheduling)) [
    | inl stuck ↦ rw stuck (refl, refl, refl)
    | inr later ↦ rw later (refl, refl, refl)
  ])
  | inr fresh ↦ rw fresh (refl, refl, refl)
]

run-Holds : (calls : List Call) → Holds (last_reading calls) (run calls)
unfolding run
run-Holds [] = refl
run-Holds (c ∷ earlier) =
    schedule-Holds (run earlier) (last_reading earlier) c.reading c.now (run-Holds earlier)

schedule-expected :
    (m : Manager) (last : Option (ℕ × ℕ)) (reading : Option ℕ) (now : ℕ)
    → Holds last m
    → (schedule m reading now).tick ≡ expected last reading now
unfolding schedule
schedule-expected m last none now h = refl
schedule-expected m none (some busy) now h = rw h refl
schedule-expected m (some (before, at)) (some busy) now (has, same, then_at) = ground arith

-- Whatever readings failed on the way, a call measures from the last one that succeeded: the busy
-- ticks and the time since that very reading, so a missed interval is counted on both sides. A
-- counter that steps back counts as no ticks.
pub schedule-last_reading :
    (calls : List Call) (reading : Option ℕ) (now : ℕ)
    → (schedule (run calls) reading now).tick ≡ expected (last_reading calls) reading now
schedule-last_reading calls reading now =
    schedule-expected (run calls) (last_reading calls) reading now (run-Holds calls)
