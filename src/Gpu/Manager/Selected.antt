-- ===== src/Gpu/Manager/Selected.antt =====
-- Which devices GpuResourceManager::Init drives, and what its monitor watches.
use loadmaster.Prelude.{
  ℕ, zero, suc, ◌+◌, ◌≡◌, ◌≢◌, refl, sym, ap, ◌∙◌, ◌≤◌, arith, ◌⊎◌, inl, inr, Bool, true, false,
  Option, none, some, List, [], ◌∷◌, map, ◌==◌, length, All,
}
use loadmaster.Core.Options.{Options}
use loadmaster.Gpu.Devices.{load_percent_to_busy_ms}
use loadmaster.Gpu.Contention.Monitor.{Change}
use loadmaster.Gpu.Manager.{
  Context, Manager, Started, Starting, positive, new_manager, set_others, start_devices,
  init_contention_monitor, keep_usable, watch_again, seed_loads, calibrated_on, calibrate_workers,
  init_load, init_workers, init_on, init,
}
use loadmaster.Gpu.Manager.Settings.{
  devices_of, HasSettings, by_load, on_changes-devices_of, nothing-on_changes, cleared-devices_of,
  loaded-devices_of, on_changes-HasSettings, cleared-HasSettings, loaded-HasSettings,
}
use loadmaster.Gpu.Manager.Kept.{
  started, usable, start_devices-devices_of, start_devices-HasSettings, keep_usable-devices_of,
  keep_usable-HasSettings, keep_usable-Kept,
}

module _ {Device : Type 0} (start : ℕ → Device → Option Device) (calibrate : Device → Option ℕ)
    (poll : ℕ → List Device → List Change) where
  -- The workers after the first poll.
  abbrev pub first_polled : ℕ → List (ℕ × Device) → List (Context Device)
  first_polled bytes pending =
      (init_contention_monitor start calibrate poll 0
        (start_devices start calibrate poll bytes pending
          (record { next_id = 0; workers = [] })).workers).workers

  -- A manager that drives just the devices `ds`, each with its bytes and its load, and watches
  -- them under the same indices.
  pub record Drives (load bytes : ℕ) (ds : List Device) (m : Manager Device) : Type 0 where
    pub driven : devices_of m.workers ≡ ds
    pub watched : m.monitor ≡ some (devices_of m.workers)
    pub all_set : All (HasSettings bytes (load_percent_to_busy_ms load)) m.workers
    pub emptied : m.pending ≡ []

  -- It succeeds exactly if there is a device to drive.
  abbrev pub Selects : ℕ → ℕ → List Device → Started Device → Type 0
  Selects load bytes ds r =
      ((r.ok ≡ true) × (ds ≢ []) × Drives load bytes ds r.manager) ⊎ ((r.ok ≡ false) × (ds ≡ []))

  monitor-devices_of :
      (n : ℕ) (ws : List (Context Device))
      → devices_of (init_contention_monitor start calibrate poll n ws).workers ≡ devices_of ws
  unfolding init_contention_monitor
  monitor-devices_of n ws =
      on_changes-devices_of (poll n (devices_of ws)) (map (set_others none) ws)
      ∙ cleared-devices_of ws

  monitor-Drives :
      (load n bytes : ℕ) (ws : List (Context Device)) (ds : List Device)
      → devices_of ws ≡ ds
      → All (HasSettings bytes (load_percent_to_busy_ms load)) ws
      → Drives load bytes ds (init_contention_monitor start calibrate poll n ws)
  unfolding init_contention_monitor
  monitor-Drives load n bytes ws ds e a = record {
    driven = monitor-devices_of n ws ∙ e;
    watched = ap some (sym (monitor-devices_of n ws));
    all_set =
        on_changes-HasSettings bytes (load_percent_to_busy_ms load) (poll n (devices_of ws))
          (map (set_others none) ws)
          (cleared-HasSettings bytes (load_percent_to_busy_ms load) ws a);
    emptied = refl;
  }

  watch_again-Drives :
      (same : Bool) (bytes : ℕ) (ds : List Device) (m : Manager Device)
      → devices_of m.workers ≡ ds
      → All (HasSettings bytes 0) m.workers
      → m.pending ≡ []
      → (same ≡ true → m.monitor ≡ some (devices_of m.workers))
      → Drives 0 bytes ds (watch_again start calibrate poll same m)
  watch_again-Drives true bytes ds m e a p h = record {
    driven = e;
    watched = h refl;
    all_set = a;
    emptied = p;
  }
  watch_again-Drives false bytes ds m e a p h = monitor-Drives 0 1 bytes m.workers ds e a

  seed_loads-Drives :
      (load bytes : ℕ) (ds : List Device) (m : Manager Device)
      → Drives 0 bytes ds m
      → Drives load bytes ds (seed_loads start calibrate poll load m)
  seed_loads-Drives load bytes ds m d =
      let to = load_percent_to_busy_ms load in
      record {
        driven = loaded-devices_of to m.workers ∙ d.driven;
        watched = d.watched ∙ ap some (sym (loaded-devices_of to m.workers));
        all_set = loaded-HasSettings bytes 0 to m.workers d.all_set;
        emptied = d.emptied;
      }

  calibrated_on-Selects :
      (load bytes before : ℕ) (kept : List (Context Device)) (m : Manager Device) (ds : List Device)
      → devices_of kept ≡ ds
      → All (HasSettings bytes 0) kept
      → m.pending ≡ []
      → (length kept ≡ before → m.monitor ≡ some (devices_of kept))
      → Selects load bytes ds (calibrated_on start calibrate poll load before kept m)
  calibrated_on-Selects load bytes before [] m ds e a p h = inr (refl, sym e)
  calibrated_on-Selects load bytes before (w ∷ ws) m ds e a p h = inl (
    refl,
    λ z. cc (e ∙ z),
    seed_loads-Drives load bytes ds _ (
        watch_again-Drives (length (w ∷ ws) == before) bytes ds (record m { workers = w ∷ ws }) e a
          p (λ same. h (ground (arith, same)))),
  )

  calibrate_workers-Selects :
      (load bytes : ℕ) (ds : List Device) (m : Manager Device)
      → Drives 0 bytes ds m
      → Selects load bytes
          (usable start calibrate poll m.workers)
          (calibrate_workers start calibrate poll load m)
  unfolding calibrate_workers
  calibrate_workers-Selects load bytes ds m d =
      calibrated_on-Selects load bytes (length m.workers)
        (keep_usable start calibrate poll m.workers) m (usable start calibrate poll m.workers)
        (keep_usable-devices_of start calibrate poll m.workers)
        (keep_usable-HasSettings start calibrate poll bytes 0 m.workers d.all_set) d.emptied
        (λ e. d.watched ∙ ap some (sym ((keep_usable-Kept start calibrate poll m.workers).1 e)))

  init_load-Selects :
      (load bytes : ℕ) (w : Context Device) (ws : List (Context Device)) (ds : List Device)
      → devices_of (w ∷ ws) ≡ ds
      → All (HasSettings bytes 0) (w ∷ ws)
      → Selects load bytes
          (by_load load ds (
            usable start calibrate poll
              (init_contention_monitor start calibrate poll 0 (w ∷ ws)).workers))
          (init_load start calibrate poll load
            (init_contention_monitor start calibrate poll 0 (w ∷ ws)))
  init_load-Selects zero bytes w ws ds e a =
      inl (refl, λ z. cc (e ∙ z), monitor-Drives 0 0 bytes (w ∷ ws) ds e a)
  init_load-Selects (suc load) bytes w ws ds e a =
      calibrate_workers-Selects (suc load) bytes ds
        (init_contention_monitor start calibrate poll 0 (w ∷ ws))
        (monitor-Drives 0 0 bytes (w ∷ ws) ds e a)

  no_one-usable :
      (ws : List (Context Device))
      → ws ≡ []
      → usable start calibrate poll (init_contention_monitor start calibrate poll 0 ws).workers ≡ []
  unfolding usable init_contention_monitor
  no_one-usable [] e = ap (usable start calibrate poll) (nothing-on_changes (poll 0 []))
  no_one-usable (w ∷ ws) e = cc

  init_workers-Selects :
      (load bytes : ℕ) (ws : List (Context Device)) (m : Manager Device) (ds : List Device)
      → devices_of ws ≡ ds
      → All (HasSettings bytes 0) ws
      → Selects load bytes
          (by_load load ds (
            usable start calibrate poll
              (init_contention_monitor start calibrate poll 0 ws).workers))
          (init_workers start calibrate poll load ws m)
  init_workers-Selects zero bytes [] m ds e a = inr (refl, sym e)
  init_workers-Selects (suc load) bytes [] m ds e a = inr (refl, no_one-usable [] refl)
  init_workers-Selects load bytes (w ∷ ws) m ds e a = init_load-Selects load bytes w ws ds e a

  -- The devices to drive: with a load, those that can be.
  abbrev pub chosen : ℕ → ℕ → List (ℕ × Device) → List Device
  chosen load bytes pending =
      by_load load (started start calibrate poll pending)
        (usable start calibrate poll (first_polled bytes pending))

  init_started-Selects :
      (load bytes : ℕ) (p : ℕ × Device) (ps : List (ℕ × Device))
      → Selects load bytes (chosen load bytes (p ∷ ps)) (
          init_workers start calibrate poll load
            (start_devices start calibrate poll bytes
              (p ∷ ps)
              (record { next_id = 0; workers = [] })).workers
            (new_manager (p ∷ ps)))
  init_started-Selects load bytes p ps =
      let s : Starting Device = record { next_id = 0; workers = [] } in
      init_workers-Selects load bytes (start_devices start calibrate poll bytes (p ∷ ps) s).workers
        (new_manager (p ∷ ps)) (started start calibrate poll (p ∷ ps))
        (start_devices-devices_of start calibrate poll bytes (p ∷ ps) s)
        (start_devices-HasSettings start calibrate poll bytes (p ∷ ps) s tt)

  init_on-Selects :
      (load bytes : ℕ) (pending : List (ℕ × Device))
      → 1 ≤ load + bytes
      → Selects load bytes
          (chosen load bytes pending)
          (init_on start calibrate poll load bytes pending (new_manager pending))
  unfolding started
  init_on-Selects zero bytes [] h = inr (refl, refl)
  init_on-Selects (suc load) bytes [] h = inr (refl, no_one-usable [] refl)
  init_on-Selects zero zero (p ∷ ps) h = absurd (omega arith)
  init_on-Selects zero (suc bytes) (p ∷ ps) h = init_started-Selects 0 (suc bytes) p ps
  init_on-Selects (suc load) bytes (p ∷ ps) h = init_started-Selects (suc load) bytes p ps

  -- With a load or memory asked for, Init succeeds exactly if there is a device to drive: one that
  -- could be started start calibrate poll and, with a load, that others use at the first poll or that calibrates.
  -- Then it drives just these, in order, each with its memory and its load, and the monitor
  -- watches each under the index of its worker, also when calibration has dropped some.
  pub init-Selects :
      (o : Options) (pending : List (ℕ × Device))
      → 1 ≤ positive o.gpu_load + positive o.gpu_memory_bytes
      → Selects
          (positive o.gpu_load)
          (positive o.gpu_memory_bytes)
          (chosen (positive o.gpu_load) (positive o.gpu_memory_bytes) pending)
          (init start calibrate poll o (new_manager pending))
  unfolding init
  init-Selects o pending h =
      init_on-Selects (positive o.gpu_load) (positive o.gpu_memory_bytes) pending h
