-- ===== src/Gpu/Manager.antt =====
-- GpuResourceManager, src/gpu/manager.cc: Init with InitContentionMonitor and CalibrateWorkers, and
-- the start and the end of the threads. The devices are a parameter, with what Init makes of one,
-- what its calibration finds (Gpu/Worker/Calibrate), and the changes that the first poll of a
-- monitor reports (Gpu/Contention/Monitor), which may differ from monitor to monitor.
pub mod Settings
pub mod Kept
pub mod Selected
pub mod Threads
mod Tests
use loadmaster.Prelude.{
  ℕ, zero, suc, min, Bool, true, false, not, ◌&&◌, Option, none, some, List, [], ◌∷◌, ◌++◌, map,
  ◌==◌, if◌then◌else◌, length,
}
use loadmaster.Prelude.Int.{ℤ, pos, negsuc}
use loadmaster.Core.Options.{Options}
use loadmaster.Gpu.Devices.{load_percent_to_busy_ms}
use loadmaster.Gpu.Contention.Monitor.{Change}

-- GpuWorkerContext, as far as the manager sets it up.
pub record Context (Device : Type 0) : Type 0 where
  pub id : ℕ
  pub device : Device
  pub memory_bytes : ℕ
  pub base_loop_count : ℕ
  pub is_calibrated : Bool
  pub load_set : ℕ
  pub others_percent : Option ℕ

-- `monitor` is the list of the devices that it watches by their index.
pub record Manager (Device : Type 0) : Type 0 where
  pub pending : List (ℕ × Device)
  pub workers : List (Context Device)
  pub monitor : Option (List Device)

-- What Init returns, and the manager after it.
pub record Started (Device : Type 0) : Type 0 where
  pub manager : Manager Device
  pub ok : Bool

-- The loop of Init over the pending devices.
pub record Starting (Device : Type 0) : Type 0 where
  pub next_id : ℕ
  pub workers : List (Context Device)

-- A value of an option, of which only the positive ones count.
abbrev pub positive : ℤ → ℕ
positive (pos n) = n
positive (negsuc n) = 0

abbrev pub has : {A : Type 0} → Option A → Bool
has none = false
has (some a) = true

module _ {Device : Type 0} where
  abbrev pub new_manager : List (ℕ × Device) → Manager Device
  new_manager pending = record { pending = pending; workers = []; monitor = none }

  abbrev pub new_context : ℕ → ℕ → Device → Context Device
  new_context id memory_bytes d = record {
    id = id;
    device = d;
    memory_bytes = memory_bytes;
    base_loop_count = 1;
    is_calibrated = false;
    load_set = 0;
    others_percent = none;
  }

  -- SetOthers
  abbrev pub set_others : Option ℕ → Context Device → Context Device
  set_others none w = record w { others_percent = none }
  set_others (some percent) w = record w { others_percent = some (min percent 100) }

  abbrev pub sharing : Context Device → Bool
  sharing w = has w.others_percent

  abbrev pub set_load : ℕ → Context Device → Context Device
  set_load load w = record w { load_set = load }

  -- `workers_[i]->SetOthers(others)`
  abbrev pub set_others_at : ℕ → Option ℕ → List (Context Device) → List (Context Device)
  set_others_at i others [] = []
  set_others_at zero others (w ∷ ws) = set_others others w ∷ ws
  set_others_at (suc i) others (w ∷ ws) = w ∷ set_others_at i others ws

  -- What the listener makes of the changes of a poll.
  abbrev pub on_changes : List Change → List (Context Device) → List (Context Device)
  on_changes [] ws = ws
  on_changes (c ∷ cs) ws = on_changes cs (set_others_at c.device c.report ws)

  -- A pending device, on what its Init makes of it.
  abbrev pub emplace : ℕ → Option Device → Starting Device → Starting Device
  emplace bytes none s = s
  emplace bytes (some d) s = record {
    next_id = suc s.next_id;
    workers = s.workers ++ new_context s.next_id bytes d ∷ [];
  }

  -- A worker, on whether it shares its device and on its calibration.
  abbrev pub keep_on :
      Bool → Option ℕ → Context Device → List (Context Device) → List (Context Device)
  keep_on true count w rest = w ∷ rest
  keep_on false none w rest = rest
  keep_on false (some count) w rest =
      record w { base_loop_count = count; is_calibrated = true } ∷ rest

  module _ (start : ℕ → Device → Option Device) (calibrate : Device → Option ℕ)
      (poll : ℕ → List Device → List Change) where
    abbrev pub start_devices : ℕ → List (ℕ × Device) → Starting Device → Starting Device
    start_devices bytes [] s = s
    start_devices bytes ((idx, d) ∷ more) s =
        start_devices bytes more (emplace bytes (start idx d) s)

    -- InitContentionMonitor, the `n`th: nobody shares until the first poll says so.
    unfoldable pub init_contention_monitor : ℕ → List (Context Device) → Manager Device
    init_contention_monitor n ws =
        let devices = map (λ (w : Context Device). w.device) ws in
        record {
          pending = [];
          workers = on_changes (poll n devices) (map (set_others none) ws);
          monitor = some devices;
        }

    -- `std::erase_if`
    abbrev pub keep_usable : List (Context Device) → List (Context Device)
    keep_usable [] = []
    keep_usable (w ∷ ws) = keep_on (sharing w) (calibrate w.device) w (keep_usable ws)

    -- The end of CalibrateWorkers, on whether no worker was dropped.
    abbrev pub watch_again : Bool → Manager Device → Manager Device
    watch_again true m = m
    watch_again false m = init_contention_monitor 1 m.workers

    abbrev pub seed_loads : ℕ → Manager Device → Manager Device
    seed_loads load m = record m {
      workers = map (set_load (load_percent_to_busy_ms load)) m.workers;
    }

    -- On the workers that are left, of `before` ones.
    abbrev pub calibrated_on : ℕ → ℕ → List (Context Device) → Manager Device → Started Device
    calibrated_on load before [] m = record { manager = record m { workers = [] }; ok = false }
    calibrated_on load before (w ∷ ws) m = record {
      manager =
          seed_loads load (watch_again (length (w ∷ ws) == before) (record m { workers = w ∷ ws }));
      ok = true;
    }

    unfoldable pub calibrate_workers : ℕ → Manager Device → Started Device
    calibrate_workers load m = calibrated_on load (length m.workers) (keep_usable m.workers) m

    -- The end of Init, on the load.
    abbrev pub init_load : ℕ → Manager Device → Started Device
    init_load zero m = record { manager = m; ok = true }
    init_load (suc load) m = calibrate_workers (suc load) m

    -- On the workers that could be started.
    abbrev pub init_workers : ℕ → List (Context Device) → Manager Device → Started Device
    init_workers load [] m = record { manager = record m { pending = [] }; ok = false }
    init_workers load (w ∷ ws) m = init_load load (init_contention_monitor 0 (w ∷ ws))

    -- On the load and the bytes of the options, and on the pending devices.
    abbrev pub init_on : ℕ → ℕ → List (ℕ × Device) → Manager Device → Started Device
    init_on load bytes [] m = record { manager = m; ok = false }
    init_on zero zero (p ∷ ps) m = record { manager = m; ok = false }
    init_on zero (suc bytes) (p ∷ ps) m =
        init_workers 0
          (start_devices (suc bytes) (p ∷ ps) (record { next_id = 0; workers = m.workers })).workers
          m
    init_on (suc load) bytes (p ∷ ps) m =
        init_workers (suc load)
          (start_devices bytes (p ∷ ps) (record { next_id = 0; workers = m.workers })).workers m

    unfoldable pub init : Options → Manager Device → Started Device
    init o m = init_on (positive o.gpu_load) (positive o.gpu_memory_bytes) m.pending m

-- What a manager has its threads do.
pub data Order : Type 0 where
  start_worker stop_worker join_worker : ℕ → Order
  start_monitor stop_monitor join_monitor : Order

module _ {Device : Type 0} where
  abbrev pub for_monitor : Order → Option (List Device) → List Order
  for_monitor o none = []
  for_monitor o (some devices) = o ∷ []

  abbrev pub for_workers : (ℕ → Order) → List (Context Device) → List Order
  for_workers o ws = map (λ (w : Context Device). o w.id) ws

  abbrev pub create_worker_threads : Manager Device → List Order
  create_worker_threads m =
      for_workers start_worker m.workers ++ for_monitor start_monitor m.monitor

  abbrev pub request_worker_threads_stop : Manager Device → List Order
  request_worker_threads_stop m =
      for_monitor stop_monitor m.monitor ++ for_workers stop_worker m.workers

  -- JoinWorkerThreads: what it has the threads do, and the manager after it.
  abbrev pub join_orders : Manager Device → List Order
  join_orders m = for_monitor join_monitor m.monitor ++ for_workers join_worker m.workers

  abbrev pub joined : Manager Device → Manager Device
  joined m = record m { workers = []; monitor = none }
