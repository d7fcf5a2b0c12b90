-- ===== src/Gpu/Contention/Gate/Window.antt =====
-- `Update` against what it stands for: the most seen in a sliding window of time.
use loadmaster.Prelude.{
  ℕ, ◌-◌, ◌≤◌, ◌<◌, ◌≡◌, ◌⊎◌, inl, inr, Bool, true, List, [], ◌∷◌, Option, none, some, arith,
  leb→le, leb→lt, Bool-cases, All,
}
use loadmaster.Gpu.Contention.Gate.{Sighting, resume_ms, is_old, pop_old, update}

-- A call of `Update`.
pub record Call (Share : Type 0) : Type 0 where
  pub others : Option Share
  pub now : ℕ

module _ {Share : Type 0} where
  -- A sighting is among those of a list.
  abbrev pub Among : Sighting Share → List (Sighting Share) → Type 0
  Among h [] = ⊥
  Among h (x ∷ xs) = (h ≡ x) ⊎ Among h xs

  abbrev pub note : Option Share → ℕ → List (Sighting Share) → List (Sighting Share)
  note none now earlier = earlier
  note (some v) now earlier = record { at = now; share = v } ∷ earlier

  -- Every sighting of the calls, the last one first.
  abbrev pub sightings : List (Call Share) → List (Sighting Share)
  sightings [] = []
  sightings (c ∷ earlier) = note c.others c.now (sightings earlier)

  -- The last call first, the clock never steps back.
  abbrev pub Chronological : List (Call Share) → Type 0
  Chronological [] = Unit
  Chronological (c ∷ earlier) = All (λ d. d.now ≤ c.now) earlier × Chronological earlier

  abbrev pub InWindow : ℕ → Sighting Share → Type 0
  InWindow now h = now - h.at < resume_ms

module _ {Share : Type 0} (le : Share → Share → Bool) where
  -- The state after the calls, from a gate that has seen nothing.
  unfoldable pub run : List (Call Share) → List (Sighting Share)
  run [] = []
  run (c ∷ earlier) = (update le (run earlier) c.others c.now).seen

  -- What a level means, for the sightings so far: none of them is in the window, or it is the
  -- share of one that is, and no other in the window is larger.
  abbrev pub IsMost : List (Sighting Share) → ℕ → Option Share → Type 0
  IsMost hs now none = All (λ h. ¬ InWindow now h) hs
  IsMost hs now (some s) =
      ((h : Sighting Share) × Among h hs × InWindow now h × (h.share ≡ s))
      × All (λ h. InWindow now h → le h.share s ≡ true) hs

  -- Some sighting of the list is as large as `h` and no earlier.
  abbrev pub Dominated : Sighting Share → List (Sighting Share) → Type 0
  Dominated h [] = ⊥
  Dominated h (x ∷ xs) = ((le h.share x.share ≡ true) × (h.at ≤ x.at)) ⊎ Dominated h xs

  abbrev pub Decreasing : List (Sighting Share) → Type 0
  Decreasing [] = Unit
  Decreasing (x ∷ xs) = All (λ y. le y.share x.share ≡ true) xs × Decreasing xs

  -- How `seen_` stands for all sightings so far.
  pub record Represents (hs : List (Sighting Share)) (now : ℕ) (seen : List (Sighting Share))
      : Type 0 where
    pub past : All (λ h. h.at ≤ now) hs
    pub known : All (λ x. Among x hs) seen
    pub covered : All (λ h. InWindow now h → Dominated h seen) hs
    pub ordered : Decreasing seen

  pub All-pop_old :
      (P : Sighting Share → Type 0) (now : ℕ) (xs : List (Sighting Share))
      → All P xs
      → All P (pop_old now xs)
  unfolding pop_old
  All-pop_old P now [] a = tt
  All-pop_old P now (x ∷ xs) a = elim (Bool-cases (is_old now x.at)) [
    | inl old ↦ rw old (All-pop_old P now xs a.1)
    | inr young ↦ rw young a
  ]

  pub pop_old-Decreasing :
      (now : ℕ) (xs : List (Sighting Share)) → Decreasing xs → Decreasing (pop_old now xs)
  unfolding pop_old
  pop_old-Decreasing now [] d = tt
  pop_old-Decreasing now (x ∷ xs) d = elim (Bool-cases (is_old now x.at)) [
    | inl old ↦ rw old (pop_old-Decreasing now xs d.1)
    | inr young ↦ rw young d
  ]

  pub pop_old-Dominated :
      (now : ℕ) (h : Sighting Share) (xs : List (Sighting Share))
      → InWindow now h
      → Dominated h xs
      → Dominated h (pop_old now xs)
  unfolding pop_old
  pop_old-Dominated now h [] w d = d
  pop_old-Dominated now h (x ∷ xs) w d = elim (Bool-cases (is_old now x.at)) [
    | inl old ↦ rw old (elim d [
      | inl (larger, later) ↦ absurd (omega (arith, leb→le _ _ old))
      | inr further ↦ pop_old-Dominated now h xs w further
    ])
    | inr young ↦ rw young d
  ]

  -- The front of what is left is in the window.
  abbrev pub FrontIn : ℕ → List (Sighting Share) → Type 0
  FrontIn now [] = Unit
  FrontIn now (x ∷ xs) = InWindow now x

  pub pop_old-FrontIn : (now : ℕ) (xs : List (Sighting Share)) → FrontIn now (pop_old now xs)
  unfolding pop_old
  pop_old-FrontIn now [] = tt
  pop_old-FrontIn now (x ∷ xs) = elim (Bool-cases (is_old now x.at)) [
    | inl old ↦ rw old (pop_old-FrontIn now xs)
    | inr young ↦ rw young (leb→lt _ _ young)
  ]

  pub All-both :
      (P Q R : Sighting Share → Type 0) (xs : List (Sighting Share))
      → ((h : Sighting Share) → P h → Q h → R h)
      → All P xs
      → All Q xs
      → All R xs
  All-both P Q R [] f a b = tt
  All-both P Q R (x ∷ xs) f a b = (f x a.0 b.0, All-both P Q R xs f a.1 b.1)
