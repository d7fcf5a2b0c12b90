-- ===== src/Gpu/Contention/Monitor/Tests.antt =====
-- A monitor whose shares are whole percentages.
use loadmaster.Prelude.{ℕ, ◌-◌, ◌≡◌, refl, Option, none, some, List, [], ◌∷◌, map, max, min, leb}
use loadmaster.Gpu.Contention.Gate.{pop_old, pop_smaller, push_sighting, update}
use loadmaster.Gpu.Contention.Monitor.{
  Verdict, unknown, idle, busy, Observation, Source, nothing_seen, new_watched, merge, sample_all,
  poll_device, poll,
}
use loadmaster.Gpu.Contention.Monitor.Reports.{Seen, watched_after, changes}

abbrev rest : ℕ → ℕ → ℕ
rest b own = min 100 (b - own)

abbrev itself : ℕ → ℕ
itself n = n

abbrev sees : Verdict → ℕ → Option ℕ → Observation ℕ
sees v pid b = record { verdict = v; pid = pid; device_busy = b }

-- Two devices: the first source sees a process on the second one, the next source one on both.
abbrev sources : List (Source ℕ)
sources =
    (λ out. sees idle 0 none ∷ sees busy 7 (some 60) ∷ [])
    ∷ (λ out. sees busy 9 none ∷ sees busy 9 (some 50) ∷ [])
    ∷ []

merged-sources :
    sample_all max 0 sources (nothing_seen ∷ nothing_seen ∷ [])
    ≡ sees busy 9 none ∷ sees busy 7 (some 60) ∷ []
unfolding sample_all merge
merged-sources = refl

polled-changes :
    map
      (λ p. p.change)
      (poll leb 100 rest itself max 0 sources (0 ∷ 20 ∷ []) 5 (new_watched ℕ ∷ new_watched ℕ ∷ []))
    ≡ some (record { device = 0; report = some 100; pid = 9 })
      ∷ some (record { device = 1; report = some 40; pid = 7 })
      ∷ []
unfolding poll poll_device sample_all merge update pop_old pop_smaller push_sighting
polled-changes = refl

-- Seen at 80 %, then at 50 %, then not any more.
abbrev history : List (Seen ℕ)
history =
    record { merged = sees idle 0 none; own = 0; now = 31000 }
    ∷ record { merged = sees busy 4 (some 50); own = 0; now = 2000 }
    ∷ record { merged = sees busy 4 (some 80); own = 0; now = 0 }
    ∷ []

changes-history :
    map (λ c. c.report) (changes leb 100 rest itself 0 history) ≡ some 50 ∷ some 80 ∷ []
unfolding changes watched_after poll_device update pop_old pop_smaller push_sighting
changes-history = refl

abbrev verdicts : List Verdict
verdicts = unknown ∷ idle ∷ unknown ∷ unknown ∷ unknown ∷ busy ∷ unknown ∷ []
