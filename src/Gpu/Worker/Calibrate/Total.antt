-- ===== src/Gpu/Worker/Calibrate/Total.antt =====
-- The calibration ends, whatever the launches take.
use native.Mathlib.Nat.{mul_assoc}
use loadmaster.Prelude.{
  ℕ, zero, suc, ◌+◌, ◌*◌, ◌≤◌, min, max, ◌≡◌, refl, true, ◌||◌, Option, some, leb, leb→le, leb→lt,
  arith, Bool-cases, inl, inr,
}
use loadmaster.Gpu.Worker.Calibrate.{
  target_ns, loop_base_max, min_sample_ns, tolerance_ns, refine_rounds, extrapolate, median,
  distance, Timed, median_kernel_ns, grow, refine, calibrate_base_loop_count,
}

abbrev pub InRange : ℕ → Type 0
InRange n = (1 ≤ n) × (n ≤ loop_base_max)

extrapolate-InRange : (count elapsed : ℕ) → InRange (extrapolate count elapsed)
unfolding extrapolate
extrapolate-InRange count elapsed = (ground arith, ground arith)

-- A result, with its count in range.
abbrev pub Gives : Option Timed → Type 0
Gives r = (t : Timed) × (r ≡ some t) × InRange t.count

-- Launches that never fail.
abbrev pub Works : (ℕ → ℕ → Option ℕ) → Type 0
Works kernel_ns = (k n : ℕ) → (ns : ℕ) × (kernel_ns k n ≡ some ns)

-- The largest count at which so many rounds are surely enough.
abbrev reach : ℕ → ℕ
reach zero = 1
reach (suc fuel) = 4 * reach fuel

reach_pos : (fuel : ℕ) → 1 ≤ reach fuel
reach_pos zero = omega arith
reach_pos (suc fuel) = omega (arith, reach_pos fuel)

module _ (kernel_ns : ℕ → ℕ → Option ℕ) (works : Works kernel_ns) where
  median_kernel-gives : (k n : ℕ) → (ns : ℕ) × (median_kernel_ns kernel_ns k n ≡ some ns)
  unfolding median_kernel_ns
  median_kernel-gives k n =
      let (a, ea) = works k n in
      let (b, eb) = works (suc k) n in
      let (c, ec) = works (suc (suc k)) n in (median a b c, rw (ea, eb, ec) refl)

  grow_again :
      (fuel count : ℕ)
      → 1 ≤ reach fuel
      → loop_base_max ≤ count * reach (suc fuel)
      → loop_base_max ≤ min (count * 4) loop_base_max * reach fuel
  grow_again fuel count pos enough = elim (Bool-cases (leb (count * 4) loop_base_max)) [
    | inl below ↦
        let e : min (count * 4) loop_base_max ≡ count * 4 =
          omega (arith, leb→le (count * 4) loop_base_max below) in
        rw e (rw (← mul_assoc count 4 (reach fuel)) at enough)
    | inr above ↦
        let e : min (count * 4) loop_base_max ≡ loop_base_max =
          omega (arith, leb→lt (count * 4) loop_base_max above) in
        rw e (omega (arith, pos))
  ]

  pub grow-Gives :
      (fuel k count : ℕ)
      → InRange count
      → loop_base_max ≤ count * reach fuel
      → Gives (grow kernel_ns (suc fuel) k count)
  unfolding grow
  grow-Gives zero k count i enough =
      let (ns, e) = works k count in
      let ends : (leb min_sample_ns ns || leb loop_base_max count) ≡ true = ground arith in
      rw (e, ends) (record { count = count; elapsed = ns; launches = suc k }, refl, i)
  grow-Gives (suc fuel) k count i enough =
      let (ns, e) = works k count in
      rw e (elim (Bool-cases (leb min_sample_ns ns || leb loop_base_max count)) [
        | inl ends ↦ rw ends (record { count = count; elapsed = ns; launches = suc k }, refl, i)
        | inr short ↦ rw short (
            grow-Gives fuel (suc k) (min (count * 4) loop_base_max)
              (omega (arith, i.0), omega arith) (grow_again fuel count (reach_pos fuel) enough))
      ])

  refine-Gives : (rounds : ℕ) (t : Timed) → InRange t.count → Gives (refine kernel_ns rounds t)
  unfolding refine
  refine-Gives zero t i = (t, refl, i)
  refine-Gives (suc rounds) t i =
      let next = extrapolate t.count t.elapsed in
      let (ns, e) = median_kernel-gives t.launches next in
      let u : Timed = record { count = next; elapsed = ns; launches = t.launches + 3 } in
      let fits : InRange next = extrapolate-InRange t.count t.elapsed in
      rw e (elim (Bool-cases (leb (distance ns target_ns) tolerance_ns)) [
        | inl near ↦ rw near (u, refl, fits)
        | inr far ↦ rw far (refine-Gives rounds u fits)
      ])

  -- As long as the device takes every launch, the calibration ends with a result, however long or
  -- short the launches are: a loop count from 1 to 10^9.
  pub calibrate_total :
      (n : ℕ) × (calibrate_base_loop_count kernel_ns ≡ some n) × (1 ≤ n) × (n ≤ loop_base_max)
  unfolding calibrate_base_loop_count
  calibrate_total =
      let (warm, w) = works 0 1 in
      let (t, g, i) = grow-Gives 10 1 1024 (omega arith, omega arith) (omega arith) in
      let (u, r, j) = refine-Gives refine_rounds t i in
      rw (w, g, r) (max 1 u.count, refl, omega arith, omega (arith, j.0, j.1))
