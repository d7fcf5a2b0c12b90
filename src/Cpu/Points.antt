-- ===== src/Cpu/Points.antt =====
-- CpuResourceManagerRandomNormal, src/cpu/manager_random_normal.cc: the walk over the points of
-- the schedule. `std::shuffle` with its generator is a parameter. Times are milliseconds.
pub mod Period
use loadmaster.Prelude.{
  ℕ, zero, suc, ◌+◌, ◌-◌, Bool, true, false, ◌&&◌, List, [], ◌∷◌, ltb, ◌==◌, if◌then◌else◌, length,
  get_or,
}

-- kCpuRandNormalScheduleIntervalMS
abbrev pub interval_ms : ℕ
interval_ms = 10000

-- The fields, with the state of the generator.
pub record Walk (Generator : Type 0) : Type 0 where
  pub schedule_points : List ℕ
  pub point_idx : ℕ
  pub load_target : ℕ
  pub load_target_started : Bool
  pub last_load_target_change : ℕ
  pub generator : Generator

-- What a shuffle leaves: the points, and the generator.
pub record Shuffled (Generator : Type 0) : Type 0 where
  pub points : List ℕ
  pub generator : Generator

-- `IncreasePointIndex`, on the index and the number of points.
abbrev pub increased : ℕ → ℕ → ℕ
increased point_idx size = if suc point_idx == size then 0 else suc point_idx

module _ {Generator : Type 0} (shuffle : Generator → List ℕ → Shuffled Generator) where
  unfoldable pub shuffle_schedule_points : Walk Generator → Walk Generator
  shuffle_schedule_points w =
      let s = shuffle w.generator w.schedule_points in
      record w { schedule_points = s.points; generator = s.generator }

  abbrev pub is_early : Walk Generator → ℕ → Bool
  is_early w now = w.load_target_started && ltb (now - w.last_load_target_change) interval_ms

  -- The part of `UpdateLoadTarget` behind the shuffle. (`schedule_points_` is never empty.)
  abbrev pub take_point : Walk Generator → ℕ → Walk Generator
  take_point w now = record w {
    load_target = get_or w.schedule_points w.point_idx 0;
    point_idx = increased w.point_idx (length w.schedule_points);
    last_load_target_change = now;
    load_target_started = true;
  }

  unfoldable pub update_load_target : Walk Generator → ℕ → Walk Generator
  unfolding shuffle_schedule_points
  update_load_target w now =
      if is_early w now
      then w
      else take_point (if w.point_idx == 0 then shuffle_schedule_points w else w) now
