-- ===== src/Cpu/Tests.antt =====
-- The CPU module on small inputs, and the theorems at them.
use loadmaster.Prelude.{
  ℕ, ◌+◌, ◌*◌, ◌≤◌, ◌≡◌, refl, false, List, [], ◌∷◌, none, some, arith, All, length, sum,
}
use loadmaster.Prelude.Int.{pos}
use loadmaster.Core.Options.{default_options}
use loadmaster.Core.Options.Process.{default-InRange}
use loadmaster.Core.Options.Validity.{IsValid}
use loadmaster.Core.Options.Indices.Distinct.{count}
use loadmaster.Cpu.Workers.{schedule_interval_ms, clamp_load, capacity_of, set_total_load}
use loadmaster.Cpu.Workers.Split.{IsEven, set_total_load-split}
use loadmaster.Cpu.Start.{CanBurn, init_random_normal, peak, init_random_normal-CanBurn}
use loadmaster.Cpu.Schedule.{schedule, adjust}
use loadmaster.Cpu.Schedule.Baseline.{Call, run, last_reading, expected, schedule-last_reading}
use loadmaster.Cpu.Calibration.{bisect, start_search, test_iterations}
use loadmaster.Cpu.Calibration.Bracket.{IsSteady, Brackets, bisect-Brackets}
use loadmaster.Cpu.Points.{Walk, Shuffled, update_load_target, shuffle_schedule_points}
use loadmaster.Cpu.Points.Period.{IsShuffle, targets, walk, period-takes_all}

split_example : set_total_load (pos 205) (0 ∷ 0 ∷ 0 ∷ []) ≡ 69 ∷ 68 ∷ 68 ∷ []
unfolding set_total_load
split_example = refl

set_total_load-split_example :
    let loads = set_total_load (pos 205) (0 ∷ 0 ∷ 0 ∷ []) in
    (length loads ≡ 3)
    × (sum loads ≡ clamp_load (pos 205) (capacity_of 3))
    × IsEven loads
    × All (λ l. l ≤ schedule_interval_ms) loads
set_total_load-split_example = set_total_load-split (pos 205) (0 ∷ 0 ∷ 0 ∷ [])

default-IsValid : IsValid 2 default_options
default-IsValid = record { in_range = default-InRange 2; reachable = omega arith }

init_points : init_random_normal 4 default_options (150 ∷ 260 ∷ []) ≡ some 3
unfolding init_random_normal
init_points = refl

init_random_normal-CanBurn_example :
    CanBurn 4 (peak (150 ∷ 260 ∷ [])) 3 × All (λ l. l ≤ 3 * 100) (150 ∷ 260 ∷ [])
init_random_normal-CanBurn_example =
    init_random_normal-CanBurn 4 default_options (150 ∷ 260 ∷ []) 3 init_points

abbrev calls : List Call
calls =
    record { reading = none; now = 300 }
    ∷ record { reading = some 40; now = 200 }
    ∷ record { reading = some 10; now = 100 }
    ∷ []

-- The reading at 300 failed: the ticks since 200 are set against the time since 200.
tick_after_failure : (schedule (run calls) (some 90) 400).tick ≡ adjust 50 200
unfolding schedule run
tick_after_failure = refl

schedule-last_reading_example :
    (schedule (run calls) (some 90) 400).tick ≡ expected (last_reading calls) (some 90) 400
schedule-last_reading_example = schedule-last_reading calls (some 90) 400

-- A machine that runs four loops in a microsecond.
abbrev steady : ℕ → ℕ → ℕ
steady i n = n * 250

steady-IsSteady : IsSteady steady 4000
steady-IsSteady = (λ i n h. omega arith, λ i n h. omega arith)

bisect-Brackets_example : Brackets 4000 382 (bisect steady test_iterations 0 start_search)
bisect-Brackets_example = bisect-Brackets steady 4000 steady-IsSteady (omega arith)

-- A shuffle that swaps the first two points.
abbrev swap : ℕ → List ℕ → Shuffled ℕ
swap g [] = record { points = []; generator = g + 1 }
swap g (x ∷ []) = record { points = x ∷ []; generator = g + 1 }
swap g (x ∷ y ∷ rest) = record { points = y ∷ x ∷ rest; generator = g + 1 }

length-swap : (g : ℕ) (xs : List ℕ) → length (swap g xs).points ≡ length xs
length-swap g [] = refl
length-swap g (x ∷ []) = refl
length-swap g (x ∷ y ∷ rest) = refl

count-swap : (g : ℕ) (xs : List ℕ) (a : ℕ) → count a (swap g xs).points ≡ count a xs
count-swap g [] a = refl
count-swap g (x ∷ []) a = refl
count-swap g (x ∷ y ∷ rest) a = ground arith

swap-IsShuffle : IsShuffle swap
swap-IsShuffle = record { keeps_length = length-swap; keeps_points = count-swap }

abbrev fresh : Walk ℕ
fresh = record {
  schedule_points = 5 ∷ 7 ∷ [];
  point_idx = 0;
  load_target = 0;
  load_target_started = false;
  last_load_target_change = 0;
  generator = 0;
}

targets-fresh : targets swap fresh (3 ∷ 10003 ∷ []) ≡ 7 ∷ 5 ∷ []
unfolding targets update_load_target shuffle_schedule_points
targets-fresh = refl

period-takes_all_example :
    ((a : ℕ) → count a (targets swap fresh (3 ∷ 10003 ∷ [])) ≡ count a (5 ∷ 7 ∷ []))
    × ((walk swap fresh (3 ∷ 10003 ∷ [])).point_idx ≡ 0)
    × ((a : ℕ) → count a (walk swap fresh (3 ∷ 10003 ∷ [])).schedule_points ≡ count a (5 ∷ 7 ∷ []))
period-takes_all_example =
    period-takes_all swap swap-IsShuffle fresh 3 (10003 ∷ []) refl refl (omega arith, tt) refl
