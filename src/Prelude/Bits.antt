-- ===== src/Prelude/Bits.antt =====
-- The binary digits of a number, and what the native operations on bits do to each of them.
use Prim.Native.Nat.{
  ℕ, zero, suc, ◌+◌, ◌-◌, ◌*◌, ◌/◌, ◌%◌, ◌≤◌, ◌<◌, min, max, bit_and, bit_or, bit_xor, digits,
  differ, bit_and-bitwise, bit_or-bitwise, bit_xor-bitwise,
}
use mathlib.Core.Path.{◌≡◌, refl, ap, ◌∙◌}
use native.Mathlib.Omega.{arith}
use loadmaster.Prelude.Tests.{◌==◌, if◌then◌else◌}

-- The digit at a place.
abbrev pub bit : ℕ → ℕ → ℕ
bit x zero = x % 2
bit x (suc place) = bit (x / 2) place

-- 2 ^ k, and its predecessor, which has k ones.
abbrev pub power : ℕ → ℕ
power zero = 1
power (suc k) = 2 * power k

pub power_pos : (k : ℕ) → 1 ≤ power k
power_pos zero = omega arith
power_pos (suc k) = omega (arith, power_pos k)

module _ (rest : ℕ → ℕ) (on_digits : ℕ → ℕ → ℕ)
    (law : (b : ℕ) → rest b ≡ rest (b / 2) * 2 + on_digits 0 (b % 2)) where
  -- Any count of digits serves that is not below the first number.
  same_digits :
      (n m a b : ℕ) → a ≤ n → a ≤ m → digits rest on_digits n a b ≡ digits rest on_digits m a b
  same_digits zero zero zero b p q = refl
  same_digits zero (suc m) zero b p q = refl
  same_digits (suc n) zero zero b p q = refl
  same_digits (suc n) (suc m) zero b p q = refl
  same_digits zero m (suc a) b p q = absurd (omega (arith, p))
  same_digits (suc n) zero (suc a) b p q = absurd (omega (arith, q))
  same_digits (suc n) (suc m) (suc a) b p q =
      ap (λ t. t * 2 + on_digits (suc a % 2) (b % 2))
        (same_digits n m (suc a / 2) (b / 2) (omega arith) (omega arith))

  -- The last digit apart.
  digits_apart :
      (a b : ℕ)
      → digits rest on_digits a a b
        ≡ digits rest on_digits (a / 2) (a / 2) (b / 2) * 2 + on_digits (a % 2) (b % 2)
  digits_apart zero b = law b
  digits_apart (suc a) b =
      ap (λ t. t * 2 + on_digits (suc a % 2) (b % 2))
        (same_digits a (suc a / 2) (suc a / 2) (b / 2) (omega arith) (omega arith))

and_apart : (a b : ℕ) → bit_and a b ≡ bit_and (a / 2) (b / 2) * 2 + min (a % 2) (b % 2)
and_apart a b = omega (
  arith,
  bit_and-bitwise a b,
  bit_and-bitwise (a / 2) (b / 2),
  digits_apart (λ (t : ℕ). 0) min (λ t. omega arith) a b,
)

or_apart : (a b : ℕ) → bit_or a b ≡ bit_or (a / 2) (b / 2) * 2 + max (a % 2) (b % 2)
or_apart a b = omega (
  arith,
  bit_or-bitwise a b,
  bit_or-bitwise (a / 2) (b / 2),
  digits_apart (λ (t : ℕ). t) max (λ t. omega arith) a b,
)

pub bit-bit_and : (place a b : ℕ) → bit (bit_and a b) place ≡ min (bit a place) (bit b place)
bit-bit_and zero a b = omega (arith, and_apart a b)
bit-bit_and (suc place) a b =
    let half : bit_and a b / 2 ≡ bit_and (a / 2) (b / 2) = omega (arith, and_apart a b) in
    ap (λ t. bit t place) half ∙ bit-bit_and place (a / 2) (b / 2)

pub bit-bit_or : (place a b : ℕ) → bit (bit_or a b) place ≡ max (bit a place) (bit b place)
bit-bit_or zero a b = omega (arith, or_apart a b)
bit-bit_or (suc place) a b =
    let half : bit_or a b / 2 ≡ bit_or (a / 2) (b / 2) = omega (arith, or_apart a b) in
    ap (λ t. bit t place) half ∙ bit-bit_or place (a / 2) (b / 2)

pub bit_zero : (place : ℕ) → bit 0 place ≡ 0
bit_zero zero = refl
bit_zero (suc place) = bit_zero place

-- A power of two has one digit.
pub bit-power : (k place : ℕ) → bit (power k) place ≡ (if k == place then 1 else 0)
bit-power zero zero = refl
bit-power zero (suc place) = bit_zero place ∙ ground arith
bit-power (suc k) zero = ground arith
bit-power (suc k) (suc place) =
    let half : 2 * power k / 2 ≡ power k = omega arith in
    ap (λ t. bit t place) half ∙ bit-power k place ∙ ground arith

-- Taken from a row of ones, a number has its digits turned.
pub bit-complement :
    (width place x : ℕ)
    → place < width
    → x < power width
    → bit (power width - 1 - x) place ≡ 1 - bit x place
bit-complement zero place x h lt = absurd (omega (arith, h))
bit-complement (suc width) zero x h lt = omega (arith, lt, power_pos width)
bit-complement (suc width) (suc place) x h lt =
    let half : (2 * power width - 1 - x) / 2 ≡ power width - 1 - x / 2 =
      omega (arith, lt, power_pos width) in
    ap (λ t. bit t place) half
    ∙ bit-complement width place (x / 2) (omega arith) (omega (arith, lt))

-- Under a mask without a bit nothing is left; `bound` is any count not below the number.
and_none : (bound a : ℕ) → a ≤ bound → bit_and a 0 ≡ 0
and_none zero zero h = bit_and-bitwise 0 0
and_none zero (suc a) h = absurd (omega (arith, h))
and_none (suc bound) a h = omega (arith, and_apart a 0, and_none bound (a / 2) (omega (arith, h)))

-- What is left of a number under a mask of one bit.
pub bit_and-power : (k a : ℕ) → bit_and a (power k) ≡ bit a k * power k
bit_and-power zero a = omega (arith, and_apart a 1, and_none (a / 2) (a / 2) (omega arith))
bit_and-power (suc k) a =
    let half : power (suc k) / 2 ≡ power k = omega arith in
    let even : power (suc k) % 2 ≡ 0 = omega arith in
    let apart : bit_and a (power (suc k)) ≡ bit_and (a / 2) (power k) * 2 =
      and_apart a (power (suc k)) ∙ rw (half, even) (omega arith) in
    omega (arith, apart, bit_and-power k (a / 2))

differ_mod : (x y : ℕ) → x < 2 → y < 2 → differ x y ≡ (x + y) % 2
differ_mod zero y h k = omega (arith, k)
differ_mod (suc zero) zero h k = refl
differ_mod (suc zero) (suc zero) h k = refl
differ_mod (suc zero) (suc (suc y)) h k = absurd (omega (arith, k))
differ_mod (suc (suc x)) y h k = absurd (omega (arith, h))

xor_apart : (a b : ℕ) → bit_xor a b ≡ bit_xor (a / 2) (b / 2) * 2 + (a % 2 + b % 2) % 2
xor_apart a b = omega (
  arith,
  bit_xor-bitwise a b,
  bit_xor-bitwise (a / 2) (b / 2),
  differ_mod (a % 2) (b % 2) (omega arith) (omega arith),
  digits_apart (λ (t : ℕ). t) differ
      (λ t. omega (arith, differ_mod 0 (t % 2) (omega arith) (omega arith))) a b,
)

-- An exclusive or has no more digits than its arguments.
pub bit_xor-lt : (k a b : ℕ) → a < power k → b < power k → bit_xor a b < power k
bit_xor-lt zero zero zero h g = omega arith
bit_xor-lt zero zero (suc b) h g = absurd (omega (arith, g))
bit_xor-lt zero (suc a) b h g = absurd (omega (arith, h))
bit_xor-lt (suc k) a b h g =
    omega (arith, xor_apart a b, bit_xor-lt k (a / 2) (b / 2) (omega (arith, h)) (omega (arith, g)))

xor_twice :
    (a b c : ℕ)
    → bit_xor (bit_xor a b) c
      ≡ bit_xor (bit_xor (a / 2) (b / 2)) (c / 2) * 2 + ((a % 2 + b % 2) % 2 + c % 2) % 2
xor_twice a b c =
    let half : bit_xor a b / 2 ≡ bit_xor (a / 2) (b / 2) = omega (arith, xor_apart a b) in
    let last : bit_xor a b % 2 ≡ (a % 2 + b % 2) % 2 = omega (arith, xor_apart a b) in
    xor_apart (bit_xor a b) c ∙ rw (half, last) refl

-- Made twice with the same number, it gives the first one back.
pub bit_xor-undoes : (k a b : ℕ) → a < power k → b < power k → bit_xor (bit_xor a b) b ≡ a
bit_xor-undoes zero zero zero h g = refl
bit_xor-undoes zero zero (suc b) h g = absurd (omega (arith, g))
bit_xor-undoes zero (suc a) b h g = absurd (omega (arith, h))
bit_xor-undoes (suc k) a b h g =
    omega (
      arith,
      xor_twice a b b,
      bit_xor-undoes k (a / 2) (b / 2) (omega (arith, h)) (omega (arith, g)),
    )

-- The order of two does not matter; `k` bounds the digits of the three numbers.
pub bit_xor-swap :
    (k a b c : ℕ)
    → a < power k
    → b < power k
    → c < power k
    → bit_xor (bit_xor a b) c ≡ bit_xor (bit_xor a c) b
bit_xor-swap zero zero zero zero h g f = refl
bit_xor-swap zero zero zero (suc c) h g f = absurd (omega (arith, f))
bit_xor-swap zero zero (suc b) c h g f = absurd (omega (arith, g))
bit_xor-swap zero (suc a) b c h g f = absurd (omega (arith, h))
bit_xor-swap (suc k) a b c h g f = omega (
  arith,
  xor_twice a b c,
  xor_twice a c b,
  bit_xor-swap k (a / 2) (b / 2) (c / 2) (omega (arith, h)) (omega (arith, g)) (omega (arith, f)),
)
