-- ===== src/Memory/Manager.antt =====
-- MemoryResourceManagerDefault, src/memory/manager_default.cc. Its thread is a value of the state
-- and what it does an event between the ticks. Times are milliseconds of the steady clock.
pub mod Owner
pub mod Spacing
use loadmaster.Prelude.{
  ℕ, suc, ◌+◌, ◌-◌, ◌*◌, ◌/◌, ◌^◌, Bool, true, false, List, [], ◌∷◌, Option, none, some, ltb, leb,
  if◌then◌else◌,
}
use loadmaster.Memory.Block.{Block, allocate_block, fill}

-- kMemoryScheduleIntervalSecond
abbrev pub interval_s : ℕ
interval_s = 45

-- kFourKiB
abbrev pub four_kib : ℕ
four_kib = 2 ^ 12

-- `threshold_bytes`: kMemoryBackgroundThreadThresholdMiB
abbrev pub threshold_bytes : ℕ
threshold_bytes = 32 * 2 ^ 20

-- `bg_alloc_thread_` and `bg_alloc_done_`: not joinable, allocating a number of bytes with a seed,
-- or finished and not joined yet.
pub data Thread : Type 0 where
  not_joinable : Thread
  allocating : ℕ → ℕ → Thread
  finished : Thread

pub record Manager : Type 0 where
  pub thread : Thread
  pub block : Block
  pub has_scheduled : Bool
  pub scheduled_allocations : ℕ
  pub last_scheduling : ℕ

abbrev pub initial : Manager
initial = record {
  thread = not_joinable;
  block = none;
  has_scheduled = false;
  scheduled_allocations = 0;
  last_scheduling = 0;
}

-- What a tick draws: the size before it is aligned, and the seed; and whether `new` will succeed.
pub record Draw : Type 0 where
  pub raw_bytes : ℕ
  pub seed : ℕ
  pub fits : Bool

-- `WillSchedule`: whole seconds since the last one.
abbrev pub will_schedule : Manager → ℕ → Bool
will_schedule m now =
    if m.has_scheduled then ltb interval_s ((now - m.last_scheduling) / 1000) else true

-- `AllocateAndFill`; a failed allocation is logged and leaves no block.
abbrev pub allocate_and_fill : ℕ → ℕ → Bool → List Bool → Block → Block
allocate_and_fill byte_count seed fits stops b = fill seed stops (allocate_block byte_count fits b)

abbrev pub aligned : ℕ → ℕ
aligned raw_bytes = raw_bytes / four_kib * four_kib

-- On whether a thread does the work.
abbrev pub allocate_on : Bool → ℕ → Draw → Manager → Manager
allocate_on true byte_count d m = record m { thread = allocating byte_count d.seed }
allocate_on false byte_count d m = record m {
  block = allocate_and_fill byte_count d.seed d.fits [] m.block;
}

-- A large block is left to a thread.
abbrev pub start_allocation : Manager → Draw → Manager
start_allocation m d =
    let byte_count = aligned d.raw_bytes in
    allocate_on (leb threshold_bytes byte_count) byte_count d m

abbrev pub note_scheduled : Manager → ℕ → Manager
note_scheduled m now = record m {
  has_scheduled = true;
  scheduled_allocations = suc m.scheduled_allocations;
  last_scheduling = now;
}

-- `Schedule` once the thread has been reaped.
unfoldable pub schedule_idle : Manager → ℕ → Draw → Manager
unfolding fill
schedule_idle m now d = if will_schedule m now then note_scheduled (start_allocation m d) now else m

-- `bg_alloc_thread_.join()`
abbrev pub join : Manager → Manager
join m = record m { thread = not_joinable }

-- `ReapBackgroundThread` first: an allocation in flight skips the tick, a finished one is joined.
unfoldable pub schedule_on : Thread → Manager → ℕ → Draw → Manager
unfolding schedule_idle
schedule_on not_joinable m now d = schedule_idle m now d
schedule_on (allocating byte_count seed) m now d = m
schedule_on finished m now d = schedule_idle (join m) now d

unfoldable pub schedule : Manager → ℕ → Draw → Manager
unfolding schedule_on
schedule m now d = schedule_on m.thread m now d

-- The thread's work, up to its last action.
unfoldable pub finish_on : Thread → Manager → Bool → List Bool → Manager
unfolding fill
finish_on not_joinable m fits stops = m
finish_on (allocating byte_count seed) m fits stops = record m {
  thread = finished;
  block = allocate_and_fill byte_count seed fits stops m.block;
}
finish_on finished m fits stops = m

unfoldable pub finish : Manager → Bool → List Bool → Manager
unfolding finish_on
finish m fits stops = finish_on m.thread m fits stops

-- The main thread's ticks and the background thread's work, in any order.
pub data Event : Type 0 where
  tick : ℕ → Draw → Event
  background : Bool → List Bool → Event

abbrev pub step : Manager → Event → Manager
unfolding schedule finish
step m (tick now d) = schedule m now d
step m (background fits stops) = finish m fits stops
