-- ===== src/Gpu/Contention/Monitor/Reports.antt =====
-- What a monitor's listener is told of a device, over any number of polls.
use loadmaster.Prelude.{ℕ, ◌≢◌, Bool, Option, none, some, List, [], ◌∷◌}
use loadmaster.Gpu.Contention.Gate.Window.{Call}
use loadmaster.Gpu.Contention.Monitor.{
  Observation, Watched, Change, Polled, share_on, poll_device, new_watched,
}

-- A poll of a device: what was merged for it, our own share, and the time.
pub record Seen (Share : Type 0) : Type 0 where
  pub merged : Observation Share
  pub own : Share
  pub now : ℕ

-- The last change first: what the listener knows.
abbrev pub told : List Change → Option ℕ
told [] = none
told (c ∷ earlier) = c.report

-- It is never told what it knows.
abbrev pub NoRepeat : List Change → Type 0
NoRepeat [] = Unit
NoRepeat (c ∷ earlier) = (c.report ≢ told earlier) × NoRepeat earlier

abbrev pub note_change : Option Change → List Change → List Change
note_change none earlier = earlier
note_change (some c) earlier = c ∷ earlier

module _ {Share : Type 0} (le : Share → Share → Bool) (full : Share)
    (beyond : Share → Share → Share) (round : Share → ℕ) (i : ℕ) where
  abbrev pub polled : Seen Share → Watched Share → Polled Share
  polled p w = poll_device le full beyond round i p.merged p.own p.now w

  -- The last poll first, from a monitor as it is constructed.
  unfoldable pub watched_after : List (Seen Share) → Watched Share
  watched_after [] = new_watched Share
  watched_after (p ∷ earlier) = (polled p (watched_after earlier)).watched

  unfoldable pub changes : List (Seen Share) → List Change
  changes [] = []
  changes (p ∷ earlier) = note_change (polled p (watched_after earlier)).change (changes earlier)

  -- What the gate is asked.
  abbrev pub call_of : Seen Share → Call Share
  call_of p = record {
    others = share_on le full beyond round p.merged.verdict p.merged.device_busy p.own;
    now = p.now;
  }
