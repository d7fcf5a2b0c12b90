-- ===== src/Gpu/Worker/Calibrate/Tests.antt =====
-- Calibrations of a device whose iterations take 7 ns, and of one that takes no time at all.
use loadmaster.Prelude.{ℕ, ◌≤◌, ◌≡◌, refl, Option, some}
use loadmaster.Gpu.Worker.Calibrate.{
  loop_base_max, calibrate_base_loop_count, extrapolate, median, median_kernel_ns, grow, refine,
}
use loadmaster.Gpu.Worker.Calibrate.Linear.{proportional}
use loadmaster.Gpu.Worker.Calibrate.Total.{Works, calibrate_total}

calibrate-seven : calibrate_base_loop_count (proportional 7) ≡ some 14285714
unfolding calibrate_base_loop_count extrapolate median median_kernel_ns grow refine
calibrate-seven = refl

-- Too fast to be timed: the count stays at the cap.
abbrev instant : ℕ → ℕ → Option ℕ
instant k n = some 0

instant-Works : Works instant
instant-Works k n = (0, refl)

calibrate-instant : calibrate_base_loop_count instant ≡ some loop_base_max
unfolding calibrate_base_loop_count extrapolate median median_kernel_ns grow refine
calibrate-instant = refl

calibrate_total_example :
    (n : ℕ) × (calibrate_base_loop_count instant ≡ some n) × (1 ≤ n) × (n ≤ loop_base_max)
calibrate_total_example = calibrate_total instant instant-Works
