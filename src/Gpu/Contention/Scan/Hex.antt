-- ===== src/Gpu/Contention/Scan/Hex.antt =====
-- Hex digits written and read back.
use loadmaster.Prelude.{
  ℕ, zero, suc, ◌+◌, ◌-◌, ◌*◌, ◌/◌, ◌%◌, ◌^◌, ◌≤◌, ◌<◌, ◌≡◌, refl, ap, ◌∙◌, inl, inr, true, false,
  List, [], ◌∷◌, ◌++◌, map, some, Text, arith, ltb, ltb→le, if◌then◌else◌, Bool-cases, All, length,
}
use loadmaster.Prelude.Digits.{
  from_digits, digits_onto, to_digits, from_digits-to_digits, to_digits-All, to_digits-cons,
}
use loadmaster.Gpu.Contention.Scan.{is_xdigit, to_lower, hex_value, scan_hex, take_hex}

-- A digit of `%x`.
abbrev pub hex_char : ℕ → ℕ
hex_char d = if ltb d 10 then b'0' + d else b'a' + (d - 10)

abbrev pub pad : ℕ → List ℕ → List ℕ
pad zero ds = ds
pad (suc n) ds = 0 ∷ pad n ds

-- `%0<width>x`
unfoldable pub hex_text : ℕ → ℕ → Text
hex_text width n = map hex_char (pad (width - length (to_digits 16 n)) (to_digits 16 n))

hex_char-is_xdigit : (d : ℕ) → d < 16 → is_xdigit (hex_char d) ≡ true
hex_char-is_xdigit d h = ground arith

hex_char-hex_value : (d : ℕ) → d < 16 → hex_value (to_lower (hex_char d)) ≡ d
hex_char-hex_value d h = ground arith

-- The text goes on with no hex digit.
abbrev pub StopsHex : Text → Type 0
StopsHex [] = Unit
StopsHex (c ∷ s) = is_xdigit c ≡ false

scan_stop :
    (left value : ℕ) (rest : Text) → StopsHex rest → scan_hex left value rest ≡ some (value, rest)
unfolding scan_hex
scan_stop left value [] h = refl
scan_stop zero value (c ∷ s) h = rw h refl
scan_stop (suc left) value (c ∷ s) h = rw h refl

scan_written :
    (left value : ℕ) (ds : List ℕ) (rest : Text)
    → All (λ d. d < 16) ds
    → length ds ≤ left
    → StopsHex rest
    → scan_hex left value (map hex_char ds ++ rest) ≡ some (from_digits 16 value ds, rest)
unfolding scan_hex
scan_written left value [] rest a l h = scan_stop left value rest h
scan_written zero value (d ∷ ds) rest a l h = absurd (omega arith)
scan_written (suc left) value (d ∷ ds) rest a l h =
    rw (hex_char-is_xdigit d a.0, hex_char-hex_value d a.0)
      (scan_written left (value * 16 + d) ds rest a.1 (omega arith) h)

take_written :
    (left d : ℕ) (ds : List ℕ) (rest : Text)
    → All (λ x. x < 16) (d ∷ ds)
    → length (d ∷ ds) ≤ left
    → StopsHex rest
    → take_hex left (map hex_char (d ∷ ds) ++ rest)
      ≡ some (from_digits 16 0 (d ∷ ds) % 2 ^ 32, rest)
unfolding take_hex
take_written left d ds rest a l h =
    rw (hex_char-is_xdigit d a.0, scan_written left 0 (d ∷ ds) rest a l h) refl

pad-All : (n : ℕ) (ds : List ℕ) → All (λ d. d < 16) ds → All (λ d. d < 16) (pad n ds)
pad-All zero ds a = a
pad-All (suc n) ds a = (omega arith, pad-All n ds a)

from_digits-pad : (n : ℕ) (ds : List ℕ) → from_digits 16 0 (pad n ds) ≡ from_digits 16 0 ds
from_digits-pad zero ds = refl
from_digits-pad (suc n) ds = from_digits-pad n ds

length-pad : (n : ℕ) (ds : List ℕ) → length (pad n ds) ≡ n + length ds
length-pad zero ds = omega arith
length-pad (suc n) ds = omega (arith, length-pad n ds)

take_digits :
    (left : ℕ) (ds : List ℕ) (rest : Text)
    → All (λ x. x < 16) ds
    → 0 < length ds
    → length ds ≤ left
    → StopsHex rest
    → take_hex left (map hex_char ds ++ rest) ≡ some (from_digits 16 0 ds % 2 ^ 32, rest)
take_digits left [] rest a some_digits l h = absurd (omega arith)
take_digits left (d ∷ ds) rest a some_digits l h = take_written left d ds rest a l h

to_digits-nonempty : (n : ℕ) → 0 < length (to_digits 16 n)
to_digits-nonempty n = let (d, ds, e) = to_digits-cons 16 n in rw e (omega arith)

-- 16 to the power of `k + 1`.
abbrev pub pow16 : ℕ → ℕ
pow16 zero = 16
pow16 (suc k) = 16 * pow16 k

length-digits_onto :
    (fuel k n : ℕ) (ds : List ℕ)
    → n < pow16 k
    → length (digits_onto fuel 16 n ds) ≤ suc k + length ds
unfolding digits_onto
length-digits_onto zero k n ds h = omega arith
length-digits_onto (suc fuel) zero n ds h = elim (Bool-cases (ltb n 16)) [
  | inl last ↦ rw last (omega arith)
  | inr more ↦ absurd (omega (arith, ltb→le n 16 more))
]
length-digits_onto (suc fuel) (suc k) n ds h = elim (Bool-cases (ltb n 16)) [
  | inl last ↦ rw last (omega arith)
  | inr more ↦
      rw more (omega (arith, length-digits_onto fuel k (n / 16) ((n % 16) ∷ ds) (omega arith)))
]

length-to_digits : (k n : ℕ) → n < pow16 k → length (to_digits 16 n) ≤ suc k
unfolding to_digits
length-to_digits k n h = omega (arith, length-digits_onto (suc n) k n [] h)

-- A number of at most `k + 1` hex digits, written in a field of `width`, is read back, when the
-- reader takes as many digits and the text goes on with none.
pub take_hex-hex_text :
    (left width k n : ℕ) (rest : Text)
    → n < pow16 k
    → suc k ≤ left
    → width ≤ left
    → StopsHex rest
    → take_hex left (hex_text width n ++ rest) ≡ some (n % 2 ^ 32, rest)
unfolding hex_text
take_hex-hex_text left width k n rest small room wide stop =
    let ds = to_digits 16 n in
    let padded = pad (width - length ds) ds in
    let size = length-pad (width - length ds) ds in
    let value : from_digits 16 0 padded ≡ n =
      from_digits-pad (width - length ds) ds ∙ from_digits-to_digits 16 (omega arith) n in
    take_digits left padded rest (pad-All (width - length ds) ds (to_digits-All 16 (omega arith) n))
      (omega (arith, size, to_digits-nonempty n)) (omega (arith, size, length-to_digits k n small))
      stop
    ∙ ap (λ m. some (m % 2 ^ 32, rest)) value
