-- ===== src/Gpu/Devices/Bounds.antt =====
-- The load of a device stays a part of the period.
use loadmaster.Prelude.{
  ℕ, suc, zero, ◌-◌, ◌≤◌, inl, inr, ◌&&◌, Bool-cases, List, [], ◌∷◌, All, arith, ltb, ◌==◌, get_or,
}
use loadmaster.Core.Options.{max_load_per_device}
use loadmaster.Cpu.Points.{Shuffled, interval_ms}
use loadmaster.Cpu.Workers.{schedule_interval_ms}
use loadmaster.Gpu.Devices.{DeviceState, drive_point, advance_device}

abbrev pub IsPercent : ℕ → Type 0
IsPercent n = n ≤ max_load_per_device

pub record IsBounded (d : DeviceState) : Type 0 where
  pub points : All IsPercent d.schedule_points
  pub load : d.load_set ≤ schedule_interval_ms

get_or-IsPercent : (xs : List ℕ) (i : ℕ) → All IsPercent xs → IsPercent (get_or xs i 0)
get_or-IsPercent [] i a = omega arith
get_or-IsPercent (x ∷ xs) zero a = a.0
get_or-IsPercent (x ∷ xs) (suc i) a = get_or-IsPercent xs i a.1

drive_point-IsBounded :
    (d : DeviceState) (points : List ℕ) (now : ℕ)
    → All IsPercent points
    → IsBounded (drive_point d points now)
drive_point-IsBounded d points now a = record {
  points = a;
  load = omega (arith, get_or-IsPercent points d.point_idx a);
}

-- With base points that are percentages, and shuffles that keep them so, no tick at any time asks
-- a device for more than the whole of a scheduling period, whichever period it begins.
pub advance_device-IsBounded :
    {Generator : Type 0} (shuffle : Generator → List ℕ → Shuffled Generator) (base_points : List ℕ)
    (d : DeviceState) (g : Generator) (now : ℕ)
    → ((h : Generator) → All IsPercent (shuffle h base_points).points)
    → IsBounded d
    → IsBounded (advance_device shuffle base_points d g now).device
unfolding advance_device
advance_device-IsBounded shuffle base_points d g now law b =
    elim (Bool-cases (d.started && ltb (now - d.last_change) interval_ms)) [
      | inl early ↦ rw early b
      | inr due ↦ rw due (elim (Bool-cases (d.point_idx == 0 && d.started)) [
        | inl wrapped ↦ rw wrapped (drive_point-IsBounded d _ now (law g))
        | inr inside ↦ rw inside (drive_point-IsBounded d _ now b.points)
      ])
    ]
