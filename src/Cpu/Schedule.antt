-- ===== src/Cpu/Schedule.antt =====
-- CpuResourceManager::Schedule, src/cpu/manager.cc, up to the numbers that the load is computed
-- from. Times are nanoseconds of the steady clock; a reading is what ReadSystemBusyTicks returns.
-- The samplers and the controller, which work on `double`s, take what `Tick` carries.
pub mod Baseline
use loadmaster.Prelude.{ℕ, ◌-◌, Bool, true, false, Option, none, some, leb, if◌then◌else◌}

pub record Manager : Type 0 where
  pub prev_busy_ticks : ℕ
  pub has_prev_busy_ticks : Bool
  pub last_scheduling : ℕ

abbrev pub initial : Manager
initial = record { prev_busy_ticks = 0; has_prev_busy_ticks = false; last_scheduling = 0 }

-- What a call does beside the new baseline: nothing; no more than that; the process sampler only;
-- or both samplers and AdjustWorkerLoad, on busy ticks and nanoseconds since the baseline.
pub data Tick : Type 0 where
  read_failed first_reading no_time_passed : Tick
  adjust : ℕ → ℕ → Tick

pub record Scheduled : Type 0 where
  pub manager : Manager
  pub tick : Tick

abbrev rebase : Manager → ℕ → ℕ → Manager
rebase m busy now = record m { prev_busy_ticks = busy; last_scheduling = now }

abbrev pub first_baseline : Manager → ℕ → ℕ → Manager
first_baseline m busy now = record m {
  prev_busy_ticks = busy;
  has_prev_busy_ticks = true;
  last_scheduling = now;
}

-- `(current >= prev) ? (current - prev) : 0`
abbrev pub busy_ticks_diff : ℕ → ℕ → ℕ
busy_ticks_diff current prev = if leb prev current then current - prev else 0

unfoldable pub schedule : Manager → Option ℕ → ℕ → Scheduled
schedule m none now = record { manager = m; tick = read_failed }
schedule m (some busy) now =
    if m.has_prev_busy_ticks
    then if leb now m.last_scheduling
      then record { manager = rebase m busy now; tick = no_time_passed }
      else record {
        manager = rebase m busy now;
        tick = adjust (busy_ticks_diff busy m.prev_busy_ticks) (now - m.last_scheduling);
      }
    else record { manager = first_baseline m busy now; tick = first_reading }
