-- ===== src/Gpu/Devices.antt =====
-- GpuResourceManagerRandomNormal::AdvanceDevice, src/gpu/manager_random_normal.cc: the walk of one
-- device over its points. `std::shuffle` with its generator is a parameter, and every new period
-- shuffles the same base points. Times are milliseconds.
mod Bounds
mod Tests
use loadmaster.Prelude.{
  ℕ, suc, ◌-◌, ◌*◌, ◌/◌, Bool, true, false, ◌&&◌, List, ltb, ◌==◌, if◌then◌else◌, length, get_or,
}
use loadmaster.Core.Options.{max_load_per_device}
use loadmaster.Cpu.Points.{Shuffled, increased, interval_ms}
use loadmaster.Cpu.Workers.{schedule_interval_ms}

-- DeviceState, and the `load_set_` of its worker.
pub record DeviceState : Type 0 where
  pub schedule_points : List ℕ
  pub point_idx : ℕ
  pub last_change : ℕ
  pub started : Bool
  pub load_set : ℕ

-- A device and the generator that all devices share.
pub record Advanced (Generator : Type 0) : Type 0 where
  pub device : DeviceState
  pub generator : Generator

-- LoadPercentToBusyMs
abbrev pub load_percent_to_busy_ms : ℕ → ℕ
load_percent_to_busy_ms percent = percent * schedule_interval_ms / max_load_per_device

-- The end of the tick, on the points of the period.
abbrev pub drive_point : DeviceState → List ℕ → ℕ → DeviceState
drive_point d points now = record {
  schedule_points = points;
  point_idx = increased d.point_idx (length points);
  last_change = now;
  started = true;
  load_set = load_percent_to_busy_ms (get_or points d.point_idx 0);
}

module _ {Generator : Type 0} (shuffle : Generator → List ℕ → Shuffled Generator)
    (base_points : List ℕ) where
  -- The first period uses the points that `Init` shuffled.
  unfoldable pub advance_device : DeviceState → Generator → ℕ → Advanced Generator
  advance_device d g now =
      let s = shuffle g base_points in
      if d.started && ltb (now - d.last_change) interval_ms
      then record { device = d; generator = g }
      else if d.point_idx == 0 && d.started
      then record { device = drive_point d s.points now; generator = s.generator }
      else record { device = drive_point d d.schedule_points now; generator = g }
