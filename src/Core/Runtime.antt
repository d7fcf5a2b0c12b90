-- ===== src/Core/Runtime.antt =====
-- The times of the main loop, src/core/runtime.cc. Times are nanoseconds of the steady clock.
mod Grid
pub mod Lifecycle
mod Tests
use loadmaster.Prelude.{ℕ, ◌+◌, ◌-◌, ◌*◌, ◌/◌}

-- `kScaleNs`: kScheduleIntervalMS in nanoseconds
abbrev pub scale_ns : ℕ
scale_ns = 100 * 1000000

unfoldable pub next_scheduling_time : ℕ → ℕ
next_scheduling_time start_ns =
    let next_ns = start_ns + scale_ns in
    let floored_ns = next_ns / scale_ns * scale_ns in start_ns + (floored_ns - start_ns)
