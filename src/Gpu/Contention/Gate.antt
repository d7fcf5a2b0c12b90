-- ===== src/Gpu/Contention/Gate.antt =====
-- ShareGate, src/gpu/contention/monitor.h and monitor.cc. Times are milliseconds of the steady
-- clock. A share is a percentage, a `double` that is never NaN: of it, only `<=` is used, so a
-- share is of any type with an order test.
pub mod Window
pub mod Smaller
pub mod Most
mod Tests
use loadmaster.Prelude.{
  ℕ, ◌-◌, ◌≡◌, ◌⊎◌, Bool, true, false, List, [], ◌∷◌, ◌++◌, Option, none, some, leb, if◌then◌else◌,
}

-- kGpuYieldResumeMS
abbrev pub resume_ms : ℕ
resume_ms = 30000

-- An element of `seen_`: the time of a sighting and its share.
pub record Sighting (Share : Type 0) : Type 0 where
  pub at : ℕ
  pub share : Share

-- What a call of `Update` leaves and returns.
pub record Updated (Share : Type 0) : Type 0 where
  pub seen : List (Sighting Share)
  pub level : Option Share

-- What the code relies on of the comparison of shares.
pub record IsOrder {Share : Type 0} (le : Share → Share → Bool) : Type 0 where
  pub total : (a b : Share) → (le a b ≡ true) ⊎ (le b a ≡ true)
  pub trans : (a b c : Share) → le a b ≡ true → le b c ≡ true → le a c ≡ true

-- `now - at >= 30 s`, a signed difference: false as well for a time after `now`.
abbrev pub is_old : ℕ → ℕ → Bool
is_old now at = leb resume_ms (now - at)

module _ {Share : Type 0} where
  -- The first loop: old sightings leave at the front.
  unfoldable pub pop_old : ℕ → List (Sighting Share) → List (Sighting Share)
  pop_old now [] = []
  pop_old now (x ∷ xs) = if is_old now x.at then pop_old now xs else x ∷ xs

  abbrev pub front_share : List (Sighting Share) → Option Share
  front_share [] = none
  front_share (x ∷ xs) = some x.share

module _ {Share : Type 0} (le : Share → Share → Bool) where
  -- A sighting in front of what the second loop left behind it.
  abbrev pub keep_front : Share → Sighting Share → List (Sighting Share) → List (Sighting Share)
  keep_front others x [] = if le x.share others then [] else x ∷ []
  keep_front others x (y ∷ ys) = x ∷ y ∷ ys

  -- The second loop: sightings of no larger a share leave at the back.
  unfoldable pub pop_smaller : Share → List (Sighting Share) → List (Sighting Share)
  pop_smaller others [] = []
  pop_smaller others (x ∷ xs) = keep_front others x (pop_smaller others xs)

  -- `if (others) { ... }`
  unfoldable pub push_sighting : Option Share → ℕ → List (Sighting Share) → List (Sighting Share)
  unfolding pop_smaller
  push_sighting none now seen = seen
  push_sighting (some others) now seen =
      pop_smaller others seen ++ record { at = now; share = others } ∷ []

  unfoldable pub update : List (Sighting Share) → Option Share → ℕ → Updated Share
  unfolding pop_old push_sighting
  update seen others now =
      let left = push_sighting others now (pop_old now seen) in
      record { seen = left; level = front_share left }
