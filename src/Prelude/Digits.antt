-- ===== src/Prelude/Digits.antt =====
-- Positional notation in a base, most significant digit first.
use native.Mathlib.Nat.{div-add-mod', div-lt_self}
use Prim.Native.Nat.{ℕ, zero, suc, ◌+◌, ◌*◌, ◌/◌, ◌%◌, ◌≤◌, ◌<◌}
use mathlib.Core.Path.{◌≡◌, refl, ap, ◌∙◌}
use mathlib.Core.Logic.{inl, inr}
use mathlib.Core.List.{List, [], ◌∷◌}
use native.Mathlib.Omega.{arith}
use loadmaster.Prelude.Tests.{ltb, ltb→lt, ltb→le, if◌then◌else◌, Bool-cases}
use loadmaster.Prelude.Lists.{All}

-- The value of the digits `ds` behind digits of value `acc`.
abbrev pub from_digits : ℕ → ℕ → List ℕ → ℕ
from_digits b acc [] = acc
from_digits b acc (d ∷ ds) = from_digits b (acc * b + d) ds

-- The digits of `n` in front of `ds`; more than `n` of fuel is enough.
unfoldable pub digits_onto : ℕ → ℕ → ℕ → List ℕ → List ℕ
digits_onto zero b n ds = ds
digits_onto (suc fuel) b n ds =
    let rest = digits_onto fuel b (n / b) ((n % b) ∷ ds) in if ltb n b then n ∷ ds else rest

unfoldable pub to_digits : ℕ → ℕ → List ℕ
unfolding digits_onto
to_digits b n = digits_onto (suc n) b n []

digits_onto-cons :
    (fuel b n d : ℕ) (ds : List ℕ)
    → (e : ℕ) × (es : List ℕ) × (digits_onto fuel b n (d ∷ ds) ≡ e ∷ es)
unfolding digits_onto
digits_onto-cons zero b n d ds = (d, ds, refl)
digits_onto-cons (suc fuel) b n d ds = elim (Bool-cases (ltb n b)) [
  | inl last ↦ rw last (n, d ∷ ds, refl)
  | inr more ↦ rw more (digits_onto-cons fuel b (n / b) (n % b) (d ∷ ds))
]

-- There is at least one digit.
pub to_digits-cons : (b n : ℕ) → (d : ℕ) × (ds : List ℕ) × (to_digits b n ≡ d ∷ ds)
unfolding to_digits
to_digits-cons b n = elim (Bool-cases (ltb n b)) [
  | inl last ↦ rw last (n, [], refl)
  | inr more ↦ rw more (digits_onto-cons n b (n / b) (n % b) [])
]

module _ (b : ℕ) (base : 2 ≤ b) where
  shrinks : (fuel n : ℕ) → n < suc fuel → b ≤ n → n / b < fuel
  shrinks fuel n h le =
      let smaller : n / b < n = div-lt_self (omega arith) base in omega (arith, smaller)

  from_digits-digits_onto :
      (fuel n : ℕ) (ds : List ℕ)
      → n < fuel
      → from_digits b 0 (digits_onto fuel b n ds) ≡ from_digits b n ds
  unfolding digits_onto
  from_digits-digits_onto zero n ds h = absurd (omega arith)
  from_digits-digits_onto (suc fuel) n ds h = elim (Bool-cases (ltb n b)) [
    | inl last ↦ rw last (ap (λ m. from_digits b m ds) (omega arith))
    | inr more ↦ rw more (
        from_digits-digits_onto fuel (n / b) ((n % b) ∷ ds) (shrinks fuel n h (ltb→le n b more))
        ∙ ap (λ m. from_digits b m ds) (div-add-mod' n b))
  ]

  digits_onto-All :
      (fuel n : ℕ) (ds : List ℕ) → All (λ d. d < b) ds → All (λ d. d < b) (digits_onto fuel b n ds)
  unfolding digits_onto
  digits_onto-All zero n ds h = h
  digits_onto-All (suc fuel) n ds h = elim (Bool-cases (ltb n b)) [
    | inl last ↦ rw last (ltb→lt n b last, h)
    | inr more ↦ rw more (digits_onto-All fuel (n / b) ((n % b) ∷ ds) (omega arith, h))
  ]

  -- Reading what was written gives the number back.
  pub from_digits-to_digits : (n : ℕ) → from_digits b 0 (to_digits b n) ≡ n
  unfolding to_digits
  from_digits-to_digits n = from_digits-digits_onto (suc n) n [] (omega arith)

  pub to_digits-All : (n : ℕ) → All (λ d. d < b) (to_digits b n)
  unfolding to_digits
  to_digits-All n = digits_onto-All (suc n) n [] tt
