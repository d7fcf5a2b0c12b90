-- ===== src/Gpu/Manager/Tests.antt =====
-- The start of four devices, of which one cannot be started and another cannot be calibrated.
use loadmaster.Prelude.{
  ℕ, ◌+◌, ◌≤◌, ◌≡◌, refl, Option, none, some, List, [], ◌∷◌, ◌==◌, if◌then◌else◌, arith,
}
use loadmaster.Prelude.Int.{pos}
use loadmaster.Core.Options.{Options, default_options}
use loadmaster.Gpu.Contention.Monitor.{Change}
use loadmaster.Gpu.Manager.{
  Manager, new_manager, init_contention_monitor, calibrate_workers, init, joined,
}
use loadmaster.Gpu.Manager.Settings.{devices_of}
use loadmaster.Gpu.Manager.Selected.{Selects, chosen, init-Selects}
use loadmaster.Gpu.Manager.Threads.{obey_all, all_orders, none_running, all_orders-obeyed}

abbrev pending : List (ℕ × ℕ)
pending = (0, 5) ∷ (1, 6) ∷ (2, 7) ∷ (3, 8) ∷ []

abbrev start_but_5 : ℕ → ℕ → Option ℕ
start_but_5 idx d = if d == 5 then none else some d

abbrev calibrate_but_7 : ℕ → Option ℕ
calibrate_but_7 d = if d == 7 then none else some 1000

-- The first device that could be started is in use.
abbrev first_used : ℕ → List ℕ → List Change
first_used n ds = record { device = 0; report = some 30; pid = 42 } ∷ []

abbrev asked : Options
asked = record default_options { gpu_load = pos 50; gpu_memory_bytes = pos 1024 }

abbrev started_manager : Manager ℕ
started_manager = (init start_but_5 calibrate_but_7 first_used asked (new_manager pending)).manager

driven : devices_of started_manager.workers ≡ 6 ∷ 8 ∷ []
unfolding init init_contention_monitor calibrate_workers
driven = refl

watched : started_manager.monitor ≡ some (6 ∷ 8 ∷ [])
unfolding init init_contention_monitor calibrate_workers
watched = refl

some_asked : 1 ≤ 50 + 1024
some_asked = omega arith

init-Selects_example :
    Selects start_but_5 calibrate_but_7 first_used 50 1024
      (chosen start_but_5 calibrate_but_7 first_used 50 1024 pending)
      (init start_but_5 calibrate_but_7 first_used asked (new_manager pending))
init-Selects_example = init-Selects start_but_5 calibrate_but_7 first_used asked pending some_asked

all_orders-obeyed_example :
    (obey_all (all_orders started_manager) none_running ≡ some none_running)
    × (all_orders (joined started_manager) ≡ [])
all_orders-obeyed_example = all_orders-obeyed started_manager
