-- ===== src/Cpu/Calibration.antt =====
-- CpuResourceManager::FindAccurateBaseLoopCount, src/cpu/manager.cc. How long CriticalLoop takes
-- is measured, so it is a parameter: the nanoseconds of the n-th measurement, of that many loops.
pub mod Bounds
pub mod Bracket
use loadmaster.Prelude.{ℕ, zero, suc, ◌+◌, ◌-◌, ◌/◌, max, Bool, ltb, ◌==◌, if◌then◌else◌}

-- kCpuSchedulingGranularityNS, kCpuBaseLoopCountMax, kCpuBaseLoopCountTestIteration
abbrev pub granularity_ns : ℕ
granularity_ns = 1000000

abbrev pub loop_count_max : ℕ
loop_count_max = 25000000

abbrev pub test_iterations : ℕ
test_iterations = 16

-- `std::abs(a - b)`
abbrev pub distance : ℕ → ℕ → ℕ
distance a b = (a - b) + (b - a)

-- The locals of the loop.
pub record Search : Type 0 where
  pub low : ℕ
  pub high : ℕ
  pub base_loop_count : ℕ
  pub accurate_loop_count : ℕ
  pub accurate_elapsed : ℕ

abbrev pub start_search : Search
start_search = record {
  low = 0;
  high = loop_count_max;
  base_loop_count = 0;
  accurate_loop_count = 0;
  accurate_elapsed = 0;
}

-- `std::midpoint`, of a `low` that is not above `high`.
abbrev pub midpoint : ℕ → ℕ → ℕ
midpoint low high = low + (high - low) / 2

-- A round, on what the measurement of `mid` loops gave.
unfoldable pub narrow : Search → ℕ → ℕ → Search
narrow s mid elapsed =
    let closer =
      ltb (distance elapsed granularity_ns) (distance s.accurate_elapsed granularity_ns) in
    record {
      low = if ltb granularity_ns elapsed then s.low else mid;
      high = if ltb granularity_ns elapsed then mid else s.high;
      base_loop_count = mid;
      accurate_loop_count = if closer then mid else s.accurate_loop_count;
      accurate_elapsed = if closer then elapsed else s.accurate_elapsed;
    }

-- The loop, with the iterations that are left. (It is a do-while; the constructor asks for 16.)
unfoldable pub bisect : (ℕ → ℕ → ℕ) → ℕ → ℕ → Search → Search
unfolding narrow
bisect measure zero iteration s = s
bisect measure (suc left) iteration s =
    let mid = midpoint s.low s.high in
    let next = bisect measure left (suc iteration) (narrow s mid (measure iteration mid)) in
    if mid == s.base_loop_count then s else next

-- The last guard: never 0.
unfoldable pub find_base_loop_count : (ℕ → ℕ → ℕ) → ℕ → ℕ
unfolding bisect
find_base_loop_count measure max_iteration =
    max 1 (bisect measure max_iteration 0 start_search).accurate_loop_count
