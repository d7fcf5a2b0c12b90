-- ===== src/Cpu/Controller.antt =====
-- LoadController::Update, src/cpu/load_controller.cc, over exact numbers where the source has
-- `double`. A load is a whole number of 1/unit percent of a core, for any `unit`, and the integral
-- with all that is added to it a whole number of 1/(50 unit), so kCpuLoadControllerKi, 1/50, takes
-- the one to the other. A target and a capacity come from the options and the workers, so they are
-- not negative.
pub mod Demand
mod Tests
use loadmaster.Prelude.{
  ℕ, zero, suc, ◌+◌, ◌*◌, ◌/◌, Bool, true, false, not, ◌&&◌, List, [], ◌∷◌, if◌then◌else◌,
}
use loadmaster.Prelude.Int.{ℤ, pos, pos_part, neg_part, sub_ℕ, scale, ltb_ℤ}

-- What Update is given beside the capacity.
pub record Measured : Type 0 where
  pub target : ℕ
  pub system_avg : ℤ
  pub process_avg : ℤ

-- `integral_`, and what Update returns.
pub record Controlled : Type 0 where
  pub integral : ℤ
  pub demand : ℕ

abbrev pub plus : ℤ → ℤ → ℤ
plus x y = sub_ℕ (pos_part x + pos_part y) (neg_part x + neg_part y)

abbrev pub minus : ℤ → ℤ → ℤ
minus x y = sub_ℕ (pos_part x + neg_part y) (neg_part x + pos_part y)

-- `std::max(0.0, x)`
abbrev pub non_negative : ℤ → ℤ
non_negative x = pos (pos_part x)

-- `std::clamp`
abbrev pub clamp : ℤ → ℤ → ℤ → ℤ
clamp x lo hi = if ltb_ℤ x lo then lo else if ltb_ℤ hi x then hi else x

-- `std::lround` of what is not negative: the nearest percent, a half upwards.
abbrev pub round : ℕ → ℤ → ℕ
round unit x = (pos_part x + 25 * unit) / (50 * unit)

-- `saturated_high || saturated_low`
abbrev pub is_saturated : ℤ → ℤ → ℤ → Bool
is_saturated cap raw error =
    not
      (not (ltb_ℤ cap raw && ltb_ℤ (pos 0) error) && not (ltb_ℤ raw (pos 0) && ltb_ℤ error (pos 0)))

-- `integral_`, on whether the output is pinned.
abbrev pub integrate_on : Bool → ℤ → ℤ → ℤ → ℤ
integrate_on true cap candidate integral = integral
integrate_on false cap candidate integral = clamp candidate (minus (pos 0) cap) cap

module _ (unit : ℕ) where
  -- A percentage as a load, and as a part of the demand.
  abbrev pub load : ℕ → ℤ
  load percent = pos (percent * unit)

  abbrev pub part : ℕ → ℤ
  part percent = pos (percent * (50 * unit))

  abbrev pub feedforward_of : Measured → ℤ
  feedforward_of m =
      minus (part m.target) (scale 50 (non_negative (minus m.system_avg m.process_avg)))

  abbrev pub error_of : Measured → ℤ
  error_of m = minus (load m.target) m.system_avg

  -- `kCpuLoadControllerKi * error` is `error` in the finer unit.
  abbrev pub integrate : ℤ → Measured → ℤ → ℤ
  integrate cap m integral =
      let candidate = plus integral (error_of m) in
      integrate_on (is_saturated cap (plus (feedforward_of m) candidate) (error_of m)) cap candidate
        integral

  unfoldable pub update : ℕ → Measured → ℤ → Controlled
  update zero m integral = record { integral = integral; demand = 0 }
  update (suc n) m integral =
      let cap = part (suc n) in
      let next = integrate cap m integral in
      record {
        integral = next;
        demand = round unit (clamp (plus (feedforward_of m) next) (pos 0) cap);
      }

  -- A controller from its construction, the last update first.
  unfoldable pub after_updates : ℕ → List Measured → Controlled
  after_updates capacity [] = record { integral = pos 0; demand = 0 }
  after_updates capacity (m ∷ earlier) = update capacity m (after_updates capacity earlier).integral
