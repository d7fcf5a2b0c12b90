-- ===== src/Cpu/Calibration/Bounds.antt =====
-- The result of the calibration, whatever the clock said.
use loadmaster.Prelude.{ℕ, zero, suc, ◌≤◌, inl, inr, Bool-cases, arith, ◌==◌}
use loadmaster.Cpu.Calibration.{
  Search, start_search, loop_count_max, midpoint, narrow, bisect, find_base_loop_count,
}

pub record InRange (s : Search) : Type 0 where
  pub order : s.low ≤ s.high
  pub bound : s.high ≤ loop_count_max
  pub accurate : s.accurate_loop_count ≤ loop_count_max

narrow-InRange :
    (s : Search) (elapsed : ℕ) → InRange s → InRange (narrow s (midpoint s.low s.high) elapsed)
unfolding narrow
narrow-InRange s elapsed r = record {
  order = ground arith;
  bound = ground arith;
  accurate = ground arith;
}

bisect-InRange :
    (measure : ℕ → ℕ → ℕ) (left iteration : ℕ) (s : Search)
    → InRange s
    → InRange (bisect measure left iteration s)
unfolding bisect
bisect-InRange measure zero iteration s r = r
bisect-InRange measure (suc left) iteration s r =
    elim (Bool-cases (midpoint s.low s.high == s.base_loop_count)) [
      | inl same ↦ rw same r
      | inr fresh ↦ rw fresh (bisect-InRange measure left (suc iteration) _ (narrow-InRange s _ r))
    ]

-- Whatever the measurements, the calibrated count is a loop that does something and no longer
-- than the limit.
pub find_base_loop_count-bounds :
    (measure : ℕ → ℕ → ℕ) (max_iteration : ℕ)
    → (1 ≤ find_base_loop_count measure max_iteration)
      × (find_base_loop_count measure max_iteration ≤ loop_count_max)
unfolding find_base_loop_count
find_base_loop_count-bounds measure max_iteration =
    let r =
      bisect-InRange measure max_iteration 0 start_search
        (record { order = omega arith; bound = omega arith; accurate = omega arith }) in
    (omega arith, omega (arith, r.accurate))
