-- ===== src/Gpu/Worker/Loop.antt =====
-- GpuWorkerContext::Loop, src/gpu/worker.cc: the ticks of a worker. What happens between two ticks
-- (a request to stop, the load set, the share of others, whether the device has room, and whether
-- a calibration or a launch works) is the input of the tick. The loop count and the traffic of a
-- launch are `double`s that no test depends on, and are left out.
pub mod Memory
pub mod Failures
use loadmaster.Prelude.{
  ℕ, zero, suc, ◌+◌, ◌-◌, ◌*◌, ◌/◌, Bool, true, false, ◌&&◌, not, Option, none, some, List, [], ◌∷◌,
  ◌++◌, map, ltb, leb, if◌then◌else◌,
}
use loadmaster.Core.Options.{max_load_per_device}
use loadmaster.Cpu.Workers.{schedule_interval_ms}
use loadmaster.Gpu.Worker.{Worker, DeviceCall, Synced, sync_memory}

-- kGpuMaxConsecutiveFailures
abbrev pub max_consecutive_failures : ℕ
max_consecutive_failures = 50

pub record Tick : Type 0 where
  pub stop : Bool
  pub others : Option ℕ
  pub load_set : ℕ
  pub has_room : Bool
  pub calibrates : Bool
  pub launches : Bool

-- The worker's own state across ticks.
pub record LoopState : Type 0 where
  pub worker : Worker
  pub calibrated : Bool
  pub consecutive_failures : ℕ

pub data Event : Type 0 where
  memory_call : DeviceCall → Event
  calibration launch : Bool → Event

-- Whether the loop goes on, was asked to stop, or gave the device up.
pub data Verdict : Type 0 where
  goes_on stopped gave_up : Verdict

pub record Ticked : Type 0 where
  pub state : LoopState
  pub events : List Event
  pub verdict : Verdict

abbrev pub is_some : Option ℕ → Bool
is_some none = false
is_some (some n) = true

abbrev pub or_zero : Option ℕ → ℕ
or_zero none = 0
or_zero (some n) = n

-- What the others leave of the busy budget.
abbrev pub target_ms : Tick → ℕ
target_ms t = t.load_set - or_zero t.others * schedule_interval_ms / max_load_per_device

abbrev pub memory_events : Synced → List Event
memory_events s = map memory_call s.calls

-- `SyncMemory(true)` and the return, behind `before`.
abbrev pub give_up : List Event → LoopState → Ticked
give_up before s =
    let released = sync_memory s.worker true false in
    record {
      state = record s { worker = released.worker };
      events = before ++ memory_events released;
      verdict = gave_up;
    }

-- On the result of the calibration.
abbrev pub calibrate_on : Bool → List Event → LoopState → Ticked
calibrate_on true before s = record {
  state = record s { calibrated = true };
  events = before ++ calibration true ∷ [];
  verdict = goes_on;
}
calibrate_on false before s = give_up (before ++ calibration false ∷ []) s

-- A launch that failed, on whether it is one too many.
abbrev pub fail_on : Bool → List Event → LoopState → Ticked
fail_on true before s = give_up before s
fail_on false before s = record { state = s; events = before; verdict = goes_on }

-- On the result of the launch.
abbrev pub launch_on : Bool → List Event → LoopState → Ticked
launch_on true before s = record {
  state = record s { consecutive_failures = 0 };
  events = before ++ launch true ∷ [];
  verdict = goes_on;
}
launch_on false before s =
    let failures = suc s.consecutive_failures in
    fail_on (leb max_consecutive_failures failures) (before ++ launch false ∷ [])
      (record s { consecutive_failures = failures })

-- On `target_ms > 0 && device_ != nullptr`, then on `calibrated_`.
abbrev pub work_on : Bool → Bool → Tick → List Event → LoopState → Ticked
work_on false calibrated t before s = record { state = s; events = before; verdict = goes_on }
work_on true false t before s = calibrate_on t.calibrates before s
work_on true true t before s = launch_on t.launches before s

-- On `stop_requested()`.
abbrev pub tick_on : Bool → Tick → LoopState → Ticked
tick_on true t s = record { state = s; events = []; verdict = stopped }
tick_on false t s =
    let synced = sync_memory s.worker (is_some t.others) t.has_room in
    work_on (ltb 0 (target_ms t) && s.worker.has_device) s.calibrated t (memory_events synced)
      (record s { worker = synced.worker })

unfoldable pub tick : Tick → LoopState → Ticked
tick t s = tick_on t.stop t s

-- What a tick leaves to the next ones, on how it ended.
abbrev pub then_on : Verdict → Ticked → Ticked → Ticked
then_on goes_on first rest = record rest { events = first.events ++ rest.events }
then_on stopped first rest = first
then_on gave_up first rest = first

-- The loop over the ticks that come.
unfoldable pub loop : LoopState → List Tick → Ticked
unfolding tick
loop s [] = record { state = s; events = []; verdict = goes_on }
loop s (t ∷ ts) = then_on (tick t s).verdict (tick t s) (loop (tick t s).state ts)
