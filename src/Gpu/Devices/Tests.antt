-- ===== src/Gpu/Devices/Tests.antt =====
-- A device on two points, and the theorem at it.
use loadmaster.Prelude.{ℕ, ◌+◌, ◌≡◌, refl, true, List, [], ◌∷◌}
use loadmaster.Cpu.Points.{Shuffled}
use loadmaster.Gpu.Devices.{DeviceState, advance_device}

-- A generator that leaves the order alone.
abbrev keep : ℕ → List ℕ → Shuffled ℕ
keep g xs = record { points = xs; generator = g + 1 }

abbrev device : DeviceState
device = record {
  schedule_points = 80 ∷ 20 ∷ [];
  point_idx = 0;
  last_change = 1000;
  started = true;
  load_set = 50;
}

advance-device : (advance_device keep (30 ∷ 70 ∷ []) device 0 11000).device.load_set ≡ 30
unfolding advance_device
advance-device = refl
