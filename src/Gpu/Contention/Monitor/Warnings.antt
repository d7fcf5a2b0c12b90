-- ===== src/Gpu/Contention/Monitor/Warnings.antt =====
-- The warning of a device that no source can see.
use loadmaster.Prelude.{
  ℕ, zero, suc, ◌≤◌, ◌<◌, ◌≡◌, refl, ap, subst, ◌++◌, length, length-append, Bool, true, false,
  List, [], ◌∷◌, arith, ◌↔◌,
}
use loadmaster.Gpu.Contention.Monitor.{
  unknown_warn_polls, Verdict, unknown, idle, busy, count_unknown, warns_at,
}

abbrev and_this : Bool → ℕ → ℕ
and_this true n = suc n
and_this false n = n

-- How often a device is warned of over polls that saw so, from `n` polls in a row without a sight.
abbrev pub warnings : ℕ → List Verdict → ℕ
warnings n [] = 0
warnings n (v ∷ vs) = and_this (warns_at v n) (warnings (count_unknown v n) vs)

-- Somewhere three polls in a row see nothing.
abbrev pub ThreeBlind : List Verdict → Type 0
ThreeBlind vs =
    (before : List Verdict) × (after : List Verdict) × (vs
      ≡ before ++ unknown ∷ unknown ∷ unknown ∷ after)

later : (v : Verdict) (vs : List Verdict) → ThreeBlind vs → ThreeBlind (v ∷ vs)
later v vs (before, after, e) = (v ∷ before, after, ap (λ l. v ∷ l) e)

-- Once warned, no more.
silent : (n : ℕ) (vs : List Verdict) → unknown_warn_polls ≤ n → warnings n vs ≡ 0
silent n [] h = refl
silent n (unknown ∷ vs) h = ground (arith, silent (suc n) vs)
silent n (idle ∷ vs) h = ground (arith, silent n vs)
silent n (busy ∷ vs) h = ground (arith, silent n vs)

warnings-le-one : (n : ℕ) (vs : List Verdict) → warnings n vs ≤ 1
warnings-le-one n [] = omega arith
warnings-le-one n (unknown ∷ vs) = ground (arith, silent (suc n) vs, warnings-le-one (suc n) vs)
warnings-le-one n (idle ∷ vs) = warnings-le-one (count_unknown idle n) vs
warnings-le-one n (busy ∷ vs) = warnings-le-one (count_unknown busy n) vs

-- Polls that come behind `n` that saw nothing.
abbrev behind : ℕ → List Verdict → List Verdict
behind zero vs = vs
behind (suc n) vs = unknown ∷ behind n vs

behind-ThreeBlind :
    (n : ℕ) (v : Verdict) (vs : List Verdict) → ThreeBlind vs → ThreeBlind (behind n (v ∷ vs))
behind-ThreeBlind zero v vs h = later v vs h
behind-ThreeBlind (suc n) v vs h = later unknown (behind n (v ∷ vs)) (behind-ThreeBlind n v vs h)

warned-ThreeBlind :
    (n : ℕ) (vs : List Verdict)
    → n < unknown_warn_polls
    → warnings n vs ≡ 1
    → ThreeBlind (behind n vs)
warned-ThreeBlind n [] lt h = absurd (omega (arith, h))
warned-ThreeBlind zero (unknown ∷ vs) lt h = warned-ThreeBlind 1 vs (omega arith) h
warned-ThreeBlind (suc zero) (unknown ∷ vs) lt h = warned-ThreeBlind 2 vs (omega arith) h
warned-ThreeBlind (suc (suc zero)) (unknown ∷ vs) lt h = ([], vs, refl)
warned-ThreeBlind (suc (suc (suc n))) (unknown ∷ vs) lt h = absurd (omega (arith, lt))
warned-ThreeBlind n (idle ∷ vs) lt h =
    behind-ThreeBlind n idle vs (warned-ThreeBlind 0 vs (omega arith) (ground (arith, h, lt)))
warned-ThreeBlind n (busy ∷ vs) lt h =
    behind-ThreeBlind n busy vs (warned-ThreeBlind 0 vs (omega arith) (ground (arith, h, lt)))

-- What is seen ends a row.
abbrev IsSeen : Verdict → Type 0
IsSeen unknown = ⊥
IsSeen idle = Unit
IsSeen busy = Unit

module _ (v : Verdict) (vs : List Verdict) (s : IsSeen v) where
  seen_first : ThreeBlind (v ∷ vs) → ThreeBlind vs
  seen_first ([], after, e) = let u : v ≡ unknown = cc e in absurd (subst IsSeen u s)
  seen_first (x ∷ before, after, e) = (before, after, cc e)

  seen_second : ThreeBlind (unknown ∷ v ∷ vs) → ThreeBlind vs
  seen_second ([], after, e) = let u : v ≡ unknown = cc e in absurd (subst IsSeen u s)
  seen_second (x ∷ before, after, e) = seen_first (before, after, cc e)

  seen_third : ThreeBlind (unknown ∷ unknown ∷ v ∷ vs) → ThreeBlind vs
  seen_third ([], after, e) = let u : v ≡ unknown = cc e in absurd (subst IsSeen u s)
  seen_third (x ∷ before, after, e) = seen_second (before, after, cc e)

  seen_ends : (n : ℕ) → n < unknown_warn_polls → ThreeBlind (behind n (v ∷ vs)) → ThreeBlind vs
  seen_ends zero lt = seen_first
  seen_ends (suc zero) lt = seen_second
  seen_ends (suc (suc zero)) lt = seen_third
  seen_ends (suc (suc (suc n))) lt = absurd (omega (arith, lt))

length-behind : (n : ℕ) → length (behind n []) ≡ n
length-behind zero = refl
length-behind (suc n) = omega (arith, length-behind n)

no_row : (n : ℕ) → n < unknown_warn_polls → ThreeBlind (behind n []) → ⊥
no_row n lt (before, after, e) = omega (
  arith,
  lt,
  length-behind n,
  ap length e,
  length-append before (unknown ∷ unknown ∷ unknown ∷ after),
)

ThreeBlind-warned :
    (n : ℕ) (vs : List Verdict)
    → n < unknown_warn_polls
    → ThreeBlind (behind n vs)
    → warnings n vs ≡ 1
ThreeBlind-warned n [] lt h = absurd (no_row n lt h)
ThreeBlind-warned zero (unknown ∷ vs) lt h = ThreeBlind-warned 1 vs (omega arith) h
ThreeBlind-warned (suc zero) (unknown ∷ vs) lt h = ThreeBlind-warned 2 vs (omega arith) h
ThreeBlind-warned (suc (suc zero)) (unknown ∷ vs) lt h = omega (arith, silent 3 vs (omega arith))
ThreeBlind-warned (suc (suc (suc n))) (unknown ∷ vs) lt h = absurd (omega (arith, lt))
ThreeBlind-warned n (idle ∷ vs) lt h =
    ground (arith, lt, ThreeBlind-warned 0 vs (omega arith) (seen_ends idle vs tt n lt h))
ThreeBlind-warned n (busy ∷ vs) lt h =
    ground (arith, lt, ThreeBlind-warned 0 vs (omega arith) (seen_ends busy vs tt n lt h))

-- Over all polls of a device it is warned of at most once, and exactly if in some three polls in
-- a row no source saw it.
pub warnings-ThreeBlind :
    (vs : List Verdict) → (warnings 0 vs ≤ 1) × ((warnings 0 vs ≡ 1) ↔ ThreeBlind vs)
warnings-ThreeBlind vs = (
  warnings-le-one 0 vs,
  (warned-ThreeBlind 0 vs (omega arith), ThreeBlind-warned 0 vs (omega arith)),
)
