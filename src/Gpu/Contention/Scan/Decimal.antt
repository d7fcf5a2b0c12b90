-- ===== src/Gpu/Contention/Scan/Decimal.antt =====
-- A decimal `int` read back by TakeDecimal.
use loadmaster.Prelude.{
  ℕ, ◌+◌, ◌-◌, ◌*◌, ◌≤◌, ◌<◌, ◌≡◌, refl, ap, ◌∙◌, false, List, [], ◌∷◌, ◌++◌, map, some, Text,
  arith, ltb, All,
}
use loadmaster.Prelude.Digits.{from_digits, to_digits, from_digits-to_digits, to_digits-All}
use loadmaster.Prelude.Numbers.{
  int_max, digit_char, decimal, EndsNumber, StartsNumber, digit_char-is_digit, decimal-StartsNumber,
}
use loadmaster.Gpu.Contention.Scan.{scan_decimal, take_decimal}

from_digits-le : (acc : ℕ) (ds : List ℕ) → acc ≤ from_digits 10 acc ds
from_digits-le acc [] = omega arith
from_digits-le acc (d ∷ ds) = omega (arith, from_digits-le (acc * 10 + d) ds)

scan_digit_chars :
    (ds : List ℕ) (acc : ℕ) (rest : Text)
    → All (λ d. d < 10) ds
    → from_digits 10 acc ds ≤ int_max
    → EndsNumber rest
    → scan_decimal acc (map digit_char ds ++ rest) ≡ some (from_digits 10 acc ds, rest)
unfolding scan_decimal
scan_digit_chars [] acc [] a small e = refl
scan_digit_chars [] acc (c ∷ s) a small e = rw e refl
scan_digit_chars (d ∷ ds) acc rest a small e =
    let room : ltb int_max (acc * 10 + (digit_char d - b'0')) ≡ false =
      ground (arith, from_digits-le (acc * 10 + d) ds) in
    rw (digit_char-is_digit d a.0, room)
      (ap (λ v. scan_decimal v (map digit_char ds ++ rest)) (omega arith)
        ∙ scan_digit_chars ds (acc * 10 + d) rest a.1 small e)

take-scan : (t : Text) → StartsNumber t → take_decimal t ≡ scan_decimal 0 t
unfolding take_decimal
take-scan [] h = absurd h
take-scan (c ∷ s) h = rw h refl

-- A number that fits an `int`, in decimal, is read back with the text behind it.
pub take_decimal-decimal :
    (n : ℕ) (rest : Text)
    → n ≤ int_max
    → EndsNumber rest
    → take_decimal (decimal n ++ rest) ≡ some (n, rest)
take_decimal-decimal n rest small e =
    take-scan (decimal n ++ rest) (decimal-StartsNumber n rest)
    ∙ scan_digit_chars (to_digits 10 n) 0 rest (to_digits-All 10 (omega arith) n)
        (omega (arith, from_digits-to_digits 10 (omega arith) n)) e
    ∙ ap (λ v. some (v, rest)) (from_digits-to_digits 10 (omega arith) n)
