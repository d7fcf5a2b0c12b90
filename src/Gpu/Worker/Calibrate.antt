-- ===== src/Gpu/Worker/Calibrate.antt =====
-- GpuWorkerContext::CalibrateBaseLoopCount with Extrapolate, TimeKernelMs and MedianKernelMs,
-- src/gpu/worker.cc. A time is a number of nanoseconds, as the steady clock counts them, and the
-- arithmetic on it, in `double` milliseconds in the source, is exact. What a launch takes is a
-- parameter: `kernel_ns k n` for the launch number `k`, with `n` iterations; `none` if it fails.
pub mod Linear
pub mod Total
mod Tests
use loadmaster.Prelude.{
  ℕ, zero, suc, ◌+◌, ◌-◌, ◌*◌, ◌/◌, min, max, Bool, true, false, ◌||◌, Option, none, some, leb,
  ◌==◌, if◌then◌else◌,
}

-- kScheduleIntervalMS
abbrev pub target_ns : ℕ
target_ns = 100000000

-- kGpuKernelLoopBaseMax
abbrev pub loop_base_max : ℕ
loop_base_max = 1000000000

-- kGpuCalibrationMinSampleMs
abbrev pub min_sample_ns : ℕ
min_sample_ns = 5000000

-- kGpuCalibrationTolerance: 3 % of the target
abbrev pub tolerance_ns : ℕ
tolerance_ns = 3000000

-- kGpuCalibrationRefineRounds
abbrev pub refine_rounds : ℕ
refine_rounds = 3

unfoldable pub extrapolate : ℕ → ℕ → ℕ
extrapolate count elapsed =
    if elapsed == 0 then loop_base_max else max 1 (min (count * target_ns / elapsed) loop_base_max)

-- The middle one of three times.
unfoldable pub median : ℕ → ℕ → ℕ → ℕ
median a b c = max (min a b) (min (max a b) c)

-- |elapsed - target|
abbrev pub distance : ℕ → ℕ → ℕ
distance a b = (a - b) + (b - a)

-- A loop count with the time that it took, and the launches made so far.
pub record Timed : Type 0 where
  pub count : ℕ
  pub elapsed : ℕ
  pub launches : ℕ

module _ (kernel_ns : ℕ → ℕ → Option ℕ) where
  abbrev pub median_third : ℕ → ℕ → Option ℕ → Option ℕ
  median_third a b none = none
  median_third a b (some c) = some (median a b c)

  abbrev pub median_second : ℕ → ℕ → ℕ → Option ℕ → Option ℕ
  median_second k n a none = none
  median_second k n a (some b) = median_third a b (kernel_ns (suc (suc k)) n)

  abbrev pub median_first : ℕ → ℕ → Option ℕ → Option ℕ
  median_first k n none = none
  median_first k n (some a) = median_second k n a (kernel_ns (suc k) n)

  -- Three launches from number `k` on.
  unfoldable pub median_kernel_ns : ℕ → ℕ → Option ℕ
  median_kernel_ns k n = median_first k n (kernel_ns k n)

  -- A round of the loop that makes the launch long enough, on its time; `next_round` is what follows.
  abbrev pub grow_step : (ℕ → ℕ → Option Timed) → ℕ → ℕ → Option ℕ → Option Timed
  grow_step next_round k count none = none
  grow_step next_round k count (some elapsed) =
      if leb min_sample_ns elapsed || leb loop_base_max count
      then some (record { count = count; elapsed = elapsed; launches = suc k })
      else next_round (suc k) (min (count * 4) loop_base_max)

  -- `while (true)`: a round multiplies the count by 4 or ends, so 11 rounds are enough.
  unfoldable pub grow : ℕ → ℕ → ℕ → Option Timed
  grow zero k count = none
  grow (suc fuel) k count = grow_step (grow fuel) k count (kernel_ns k count)

  -- A refinement, on the median for the count `next`.
  abbrev pub refine_step : (Timed → Option Timed) → ℕ → ℕ → Option ℕ → Option Timed
  refine_step next_round k next none = none
  refine_step next_round k next (some elapsed) =
      let t : Timed = record { count = next; elapsed = elapsed; launches = k + 3 } in
      if leb (distance elapsed target_ns) tolerance_ns then some t else next_round t

  unfoldable pub refine : ℕ → Timed → Option Timed
  refine zero t = some t
  refine (suc rounds) t =
      let next = extrapolate t.count t.elapsed in
      refine_step (refine rounds) t.launches next (median_kernel_ns t.launches next)

  abbrev pub refine_grown : Option Timed → Option Timed
  refine_grown none = none
  refine_grown (some t) = refine refine_rounds t

  abbrev pub base_count : Option Timed → Option ℕ
  base_count none = none
  base_count (some t) = some (max 1 t.count)

  -- On the warm-up launch.
  abbrev pub calibrate_warm : Option ℕ → Option ℕ
  calibrate_warm none = none
  calibrate_warm (some warm) = base_count (refine_grown (grow 11 1 1024))

  -- The new loop count, or `none` if a launch failed.
  unfoldable pub calibrate_base_loop_count : Option ℕ
  calibrate_base_loop_count = calibrate_warm (kernel_ns 0 1)
