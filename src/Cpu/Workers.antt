-- ===== src/Cpu/Workers.antt =====
-- CpuResourceManager::SetWorkerLoadWithTotalLoad, src/cpu/manager.cc: the loads of the workers, a
-- list of `load_set_`, in milliseconds of a scheduling period.
pub mod Split
use loadmaster.Prelude.{
  ℕ, zero, suc, ◌+◌, ◌*◌, ◌/◌, ◌%◌, min, Bool, List, [], ◌∷◌, ltb, if◌then◌else◌, length,
}
use loadmaster.Prelude.Int.{ℤ, pos, negsuc}
use loadmaster.Core.Options.{max_load_per_core}

-- kScheduleIntervalMS
abbrev pub schedule_interval_ms : ℕ
schedule_interval_ms = 100

-- `std::clamp(total, 0, capacity)`
abbrev pub clamp_load : ℤ → ℕ → ℕ
clamp_load (pos n) capacity = min n capacity
clamp_load (negsuc n) capacity = 0

-- `Capacity()`, for a number of workers.
abbrev pub capacity_of : ℕ → ℕ
capacity_of thread_count = thread_count * max_load_per_core

-- The percent of a core of worker `i`, and what `SetLoadSet` gets for it.
abbrev pub load_percent : ℕ → ℕ → ℕ → ℕ
load_percent base remainder i = base + (if ltb i remainder then 1 else 0)

abbrev pub busy_ms : ℕ → ℕ
busy_ms percent = percent * schedule_interval_ms / max_load_per_core

-- The loop, from worker `i` on.
pub assign_loads : ℕ → ℕ → ℕ → List ℕ → List ℕ
assign_loads base remainder i [] = []
assign_loads base remainder i (old ∷ more) =
    busy_ms (load_percent base remainder i) ∷ assign_loads base remainder (suc i) more

unfoldable pub set_total_load : ℤ → List ℕ → List ℕ
unfolding assign_loads
set_total_load total [] = []
set_total_load total (old ∷ more) =
    let count = length (old ∷ more) in
    let load = clamp_load total (capacity_of count) in
    assign_loads (load / count) (load % count) 0 (old ∷ more)
