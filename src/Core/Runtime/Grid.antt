-- ===== src/Core/Runtime/Grid.antt =====
-- The ticks of the main loop stand on a grid.
use loadmaster.Prelude.{ℕ, ◌/◌, ◌≤◌, ◌<◌, List, [], ◌∷◌, arith}
use loadmaster.Core.Runtime.{scale_ns, next_scheduling_time}

-- Starts of ticks, each not before the time that the one before slept until.
abbrev pub SleepsBetween : List ℕ → Type 0
SleepsBetween [] = Unit
SleepsBetween (s ∷ []) = Unit
SleepsBetween (s ∷ t ∷ ts) = (next_scheduling_time s ≤ t) × SleepsBetween (t ∷ ts)

-- No two of the numbers are the same interval of the grid, and they are in order.
abbrev pub OneEach : List ℕ → Type 0
OneEach [] = Unit
OneEach (s ∷ []) = Unit
OneEach (s ∷ t ∷ ts) = (s / scale_ns < t / scale_ns) × OneEach (t ∷ ts)

-- However long the ticks take and however late the loop wakes up, no interval of the grid has two
-- ticks: a tick that runs over its interval delays the next one and never bunches it with others.
pub ticks-OneEach : (starts : List ℕ) → SleepsBetween starts → OneEach starts
unfolding next_scheduling_time
ticks-OneEach [] h = tt
ticks-OneEach (s ∷ []) h = tt
ticks-OneEach (s ∷ t ∷ ts) h = (omega (arith, h.0), ticks-OneEach (t ∷ ts) h.1)
