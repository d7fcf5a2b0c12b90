-- ===== src/Gpu/Worker/Calibrate/Linear.antt =====
-- The calibration of a device whose kernel time is proportional to its loop count.
use native.Mathlib.Nat.{
  mul-div-mul_left, le-div_iff_mul-le, mul-pos, div-le_self, div-mul-le_self, lt-div-mul-add,
}
use loadmaster.Prelude.{
  ℕ, zero, suc, ◌+◌, ◌*◌, ◌/◌, ◌≤◌, ◌<◌, min, ◌≡◌, refl, ap, ◌∙◌, true, false, ◌||◌, Option, some,
  leb, ◌==◌, arith, Bool-cases, inl, inr,
}
use loadmaster.Gpu.Worker.Calibrate.{
  target_ns, loop_base_max, min_sample_ns, tolerance_ns, refine_rounds, extrapolate, median,
  distance, Timed, median_kernel_ns, grow, refine, calibrate_base_loop_count,
}
use loadmaster.Gpu.Worker.Calibrate.Total.{Works, grow-Gives}

-- `cost` nanoseconds for an iteration.
abbrev pub proportional : ℕ → ℕ → ℕ → Option ℕ
proportional cost k n = some (n * cost)

proportional-Works : (cost : ℕ) → Works (proportional cost)
proportional-Works cost k n = (n * cost, refl)

median_same : (a : ℕ) → median a a a ≡ a
unfolding median
median_same a = omega arith

-- What the first loop ends with took its time.
grow-proportional :
    (cost fuel k count : ℕ) (t : Timed)
    → grow (proportional cost) fuel k count ≡ some t
    → t.elapsed ≡ t.count * cost
unfolding grow
grow-proportional cost zero k count t h = cc
grow-proportional cost (suc fuel) k count t h =
    elim (Bool-cases (leb min_sample_ns (count * cost) || leb loop_base_max count)) [
      | inl ends ↦
          let e : some (record { count = count; elapsed = count * cost; launches = suc k })
              ≡ some t =
            rw ends at h in
          cc e
      | inr short ↦
          grow-proportional cost fuel (suc k) (min (count * 4) loop_base_max) t (rw short at h)
    ]

module _ (cost : ℕ) (some_cost : 1 ≤ cost) (fine : cost ≤ tolerance_ns) where
  exact-in_range : (1 ≤ target_ns / cost) × (target_ns / cost ≤ loop_base_max)
  exact-in_range = (
    (le-div_iff_mul-le some_cost).1 (omega (arith, fine)),
    omega (arith, div-le_self target_ns cost),
  )

  extrapolate_exact : (count : ℕ) → 1 ≤ count → extrapolate count (count * cost) ≡ target_ns / cost
  unfolding extrapolate
  extrapolate_exact count some_count =
      let e : count * target_ns / (count * cost) ≡ target_ns / cost =
        mul-div-mul_left target_ns cost some_count in
      let positive : 0 < count * cost = mul-pos some_count some_cost in
      let busy : (count * cost == 0) ≡ false = ground (arith, positive) in
      rw (busy, e) (omega (arith, exact-in_range.0, exact-in_range.1))

  near_target : distance (target_ns / cost * cost) target_ns ≤ tolerance_ns
  near_target =
      let below : target_ns / cost * cost ≤ target_ns = div-mul-le_self target_ns cost in
      let above : target_ns < target_ns / cost * cost + cost = lt-div-mul-add some_cost in
      omega (arith, below, above, fine)

  median_exact : (k n : ℕ) → median_kernel_ns (proportional cost) k n ≡ some (n * cost)
  unfolding median_kernel_ns
  median_exact k n = ap some (median_same (n * cost))

  -- The first refinement is already near enough.
  refine_exact :
      (t : Timed)
      → 1 ≤ t.count
      → t.elapsed ≡ t.count * cost
      → (u : Timed) × (refine (proportional cost) refine_rounds t ≡ some u)
        × (u.count ≡ target_ns / cost)
  unfolding refine
  refine_exact t some_count timed =
      let found : extrapolate t.count t.elapsed ≡ target_ns / cost =
        ap (extrapolate t.count) timed ∙ extrapolate_exact t.count some_count in
      let near : leb (distance (target_ns / cost * cost) target_ns) tolerance_ns ≡ true =
        ground (arith, near_target) in
      rw (found, median_exact t.launches (target_ns / cost), near)
        (
          record {
            count = target_ns / cost;
            elapsed = target_ns / cost * cost;
            launches = t.launches + 3;
          },
          refl,
          refl,
        )

  -- On a device that takes the same time for each iteration, from 1 ns to 3 ms, the calibration
  -- finds the largest loop count whose launch fits into a scheduling period, and that launch takes
  -- the period but for 3 %.
  pub calibrate_proportional :
      (calibrate_base_loop_count (proportional cost) ≡ some (target_ns / cost))
      × (target_ns / cost * cost ≤ target_ns)
      × (target_ns ≤ target_ns / cost * cost + tolerance_ns)
  unfolding calibrate_base_loop_count
  calibrate_proportional =
      let (t, g, i) =
        grow-Gives (proportional cost) (proportional-Works cost) 10 1 1024
          (omega arith, omega arith) (omega arith) in
      let timed : t.elapsed ≡ t.count * cost = grow-proportional cost 11 1 1024 t g in
      let (u, r, exact) = refine_exact t i.0 timed in
      let above : target_ns < target_ns / cost * cost + cost = lt-div-mul-add some_cost in
      (
        rw (g, r, exact) (ap some (omega (arith, exact-in_range.0))),
        div-mul-le_self target_ns cost,
        omega (arith, above, fine),
      )
