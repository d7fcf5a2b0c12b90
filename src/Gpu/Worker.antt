-- ===== src/Gpu/Worker.antt =====
-- The memory of a GPU worker: GpuWorkerContext::SyncMemory, src/gpu/worker.cc. Whether the device
-- has the memory is a parameter of each call. The traffic rate that the first allocation sets is
-- a `double` and is left out.
pub mod Pairing
pub mod Loop
pub mod Calibrate
mod Tests
use loadmaster.Prelude.{ℕ, Bool, true, false, ◌||◌, not, List, [], ◌∷◌, ◌==◌, if◌then◌else◌}

pub record Worker : Type 0 where
  pub has_device : Bool
  pub memory_bytes : ℕ
  pub memory_held : Bool
  pub memory_failed : Bool

-- What the device is asked for, with the outcome.
pub data DeviceCall : Type 0 where
  allocated allocation_failed released : DeviceCall

pub record Synced : Type 0 where
  pub worker : Worker
  pub calls : List DeviceCall

-- With others on the device, on `memory_held_`.
abbrev pub release : Bool → Worker → Synced
release true w = record {
  worker = record w { memory_held = false; memory_failed = false };
  calls = released ∷ [];
}
release false w = record { worker = record w { memory_failed = false }; calls = [] }

abbrev pub allocate : Worker → Bool → Synced
allocate w true = record { worker = record w { memory_held = true }; calls = allocated ∷ [] }
allocate w false = record {
  worker = record w { memory_held = false; memory_failed = true };
  calls = allocation_failed ∷ [];
}

-- On `memory_held_ || memory_failed_`.
abbrev pub hold : Bool → Worker → Bool → Synced
hold true w has_room = record { worker = w; calls = [] }
hold false w has_room = allocate w has_room

-- On `device_ == nullptr || memory_bytes_ == 0` and `sharing`.
abbrev pub sync_on : Bool → Bool → Worker → Bool → Synced
sync_on true sharing w has_room = record { worker = w; calls = [] }
sync_on false true w has_room = release w.memory_held w
sync_on false false w has_room = hold (w.memory_held || w.memory_failed) w has_room

unfoldable pub sync_memory : Worker → Bool → Bool → Synced
sync_memory w sharing has_room =
    sync_on (not w.has_device || w.memory_bytes == 0) sharing w has_room
