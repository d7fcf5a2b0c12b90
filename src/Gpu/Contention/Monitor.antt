-- ===== src/Gpu/Contention/Monitor.antt =====
-- Monitor::Poll, src/gpu/contention/monitor.cc: what the sources see of each device is merged, goes
-- through the device's gate, and is reported when it changes. A share is a `double`: its order and
-- the three operations on it are parameters, and so is our own share of each device, which Poll
-- computes from the busy times. What a source writes is a parameter that may depend on what it is
-- given and differ from poll to poll; it writes one observation for each device.
pub mod Reports
pub mod Warnings
mod Tests
use loadmaster.Prelude.{
  ℕ, zero, suc, ◌+◌, Bool, true, false, ◌&&◌, not, Option, none, some, List, [], ◌∷◌, ◌++◌, map,
  ltb, ◌==◌, if◌then◌else◌,
}
use loadmaster.Gpu.Contention.Gate.{Sighting, Updated, update}

-- kGpuYieldUnknownWarnPolls
abbrev pub unknown_warn_polls : ℕ
unknown_warn_polls = 3

-- Observation::Verdict
pub data Verdict : Type 0 where
  unknown idle busy : Verdict

pub record Observation (Share : Type 0) : Type 0 where
  pub verdict : Verdict
  pub pid : ℕ
  pub device_busy : Option Share

-- A source's Sample on all devices.
abbrev pub Source : Type 0 → Type 0
Source Share = List (Observation Share) → List (Observation Share)

-- What the monitor keeps of a device.
pub record Watched (Share : Type 0) : Type 0 where
  pub seen : List (Sighting Share)
  pub reported : Option ℕ
  pub unknown_polls : ℕ

-- A call of `on_change_`.
pub record Change : Type 0 where
  pub device : ℕ
  pub report : Option ℕ
  pub pid : ℕ

-- What a poll leaves of a device: with its change, if any, and whether it warns.
pub record Polled (Share : Type 0) : Type 0 where
  pub watched : Watched Share
  pub change : Option Change
  pub warns : Bool

abbrev pub eq_option : Option ℕ → Option ℕ → Bool
eq_option none none = true
eq_option (some a) (some b) = a == b
eq_option none (some b) = false
eq_option (some a) none = false

-- The count of polls in a row that saw nothing, and whether this one warns.
abbrev pub count_unknown : Verdict → ℕ → ℕ
count_unknown unknown n = suc n
count_unknown idle n = if ltb n unknown_warn_polls then 0 else n
count_unknown busy n = if ltb n unknown_warn_polls then 0 else n

abbrev pub warns_at : Verdict → ℕ → Bool
warns_at unknown n = suc n == unknown_warn_polls
warns_at idle n = false
warns_at busy n = false

module _ {Share : Type 0} where
  abbrev pub nothing_seen : Observation Share
  nothing_seen = record { verdict = unknown; pid = 0; device_busy = none }

  -- What goes into a source: a device that was found busy and measured, as such.
  abbrev pub seed_on : Verdict → Option Share → Observation Share → Observation Share
  seed_on unknown b m = nothing_seen
  seed_on idle b m = nothing_seen
  seed_on busy none m = nothing_seen
  seed_on busy (some b) m = m

  abbrev pub seed : Observation Share → Observation Share
  seed m = seed_on m.verdict m.device_busy m

  -- The verdict and the pid, on the verdicts merged so far and seen now.
  abbrev pub merge_verdict :
      Verdict → Verdict → Observation Share → Observation Share → Observation Share
  merge_verdict unknown unknown m s = m
  merge_verdict unknown idle m s = record m { verdict = idle }
  merge_verdict unknown busy m s = record m { verdict = busy; pid = s.pid }
  merge_verdict idle unknown m s = m
  merge_verdict idle idle m s = m
  merge_verdict idle busy m s = record m { verdict = busy; pid = s.pid }
  merge_verdict busy v m s = m

module _ {Share : Type 0} (larger : Share → Share → Share) (zero_share : Share) where
  abbrev pub or_zero : Option Share → Share
  or_zero none = zero_share
  or_zero (some b) = b

  abbrev pub merge_busy : Option Share → Option Share → Option Share
  merge_busy m none = m
  merge_busy m (some b) = some (larger (or_zero m) b)

  -- One device after one source.
  unfoldable pub merge : Observation Share → Observation Share → Observation Share
  merge m s = record (merge_verdict m.verdict s.verdict m s) {
    device_busy = merge_busy m.device_busy s.device_busy;
  }

  abbrev pub merge_all :
      List (Observation Share) → List (Observation Share) → List (Observation Share)
  merge_all [] ss = []
  merge_all (m ∷ ms) [] = m ∷ ms
  merge_all (m ∷ ms) (s ∷ ss) = merge m s ∷ merge_all ms ss

  -- The loop over the sources.
  unfoldable pub sample_all :
      List (Source Share) → List (Observation Share) → List (Observation Share)
  sample_all [] merged = merged
  sample_all (source ∷ sources) merged =
      sample_all sources (merge_all merged (source (map seed merged)))

module _ {Share : Type 0} (le : Share → Share → Bool) (full : Share)
    (beyond : Share → Share → Share) (round : Share → ℕ) where
  -- The others' share of a busy device: what is beyond our own, or all of it.
  abbrev pub share_on : Verdict → Option Share → Share → Option Share
  share_on unknown b own = none
  share_on idle b own = none
  share_on busy none own = some full
  share_on busy (some b) own = some (beyond b own)

  abbrev pub report_of : Option Share → Option ℕ
  report_of none = none
  report_of (some level) = some (round level)

  -- On whether the report is the one that was made before.
  abbrev pub change_on : Bool → ℕ → Option ℕ → ℕ → Option Change
  change_on true i report pid = none
  change_on false i report pid = some (record { device = i; report = report; pid = pid })

  -- The rest of a poll for the device `i`, on what was merged for it.
  unfoldable pub poll_device : ℕ → Observation Share → Share → ℕ → Watched Share → Polled Share
  poll_device i m own now w =
      let u = update le w.seen (share_on m.verdict m.device_busy own) now in
      let report = report_of u.level in
      record {
        watched = record {
          seen = u.seen;
          reported = report;
          unknown_polls = count_unknown m.verdict w.unknown_polls;
        };
        change = change_on (eq_option report w.reported) i report m.pid;
        warns = warns_at m.verdict w.unknown_polls;
      }

  -- The loop over the devices.
  abbrev pub poll_devices :
      ℕ → List (Observation Share) → List Share → ℕ → List (Watched Share) → List (Polled Share)
  poll_devices i [] owns now ws = []
  poll_devices i (m ∷ ms) [] now ws = []
  poll_devices i (m ∷ ms) (own ∷ owns) now [] = []
  poll_devices i (m ∷ ms) (own ∷ owns) now (w ∷ ws) =
      poll_device i m own now w ∷ poll_devices (suc i) ms owns now ws

  -- A poll of all devices.
  unfoldable pub poll :
      (Share → Share → Share)
      → Share
      → List (Source Share)
      → List Share
      → ℕ
      → List (Watched Share)
      → List (Polled Share)
  poll larger zero_share sources owns now ws =
      let merged = sample_all larger zero_share sources (map (λ w. nothing_seen) ws) in
      poll_devices 0 merged owns now ws

-- A monitor starts with nothing reported.
abbrev pub new_watched : (Share : Type 0) → Watched Share
new_watched Share = record { seen = []; reported = none; unknown_polls = 0 }
