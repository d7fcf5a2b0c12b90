-- ===== src/Gpu/Contention/Scan.antt =====
-- TakeHex, TakeChar, TakePrefix and TakeDecimal, src/gpu/contention/parse.cc. A success is what
-- was read and the text after it; a failure is `none`, after which no caller looks at the text.
pub mod Hex
pub mod Decimal
use mathlib.Core.Option
use loadmaster.Prelude.{
  ℕ, zero, suc, ◌+◌, ◌-◌, ◌*◌, ◌%◌, ◌^◌, Bool, true, false, ◌&&◌, ◌||◌, List, [], ◌∷◌, Option, none,
  some, Text, leb, ltb, ◌==◌, if◌then◌else◌,
}
use loadmaster.Prelude.Numbers.{int_max, is_digit}

-- `std::isxdigit`
abbrev pub is_xdigit : ℕ → Bool
is_xdigit c = (leb b'0' c && leb c b'9') || (leb b'A' c && leb c b'F') || (leb b'a' c && leb c b'f')

-- `std::tolower`
abbrev pub to_lower : ℕ → ℕ
to_lower c = if leb b'A' c && leb c b'Z' then c + 32 else c

-- `c <= '9' ? c - '0' : c - 'a' + 10`, of a lower-case digit.
abbrev pub hex_value : ℕ → ℕ
hex_value c = if leb c b'9' then c - b'0' else c - b'a' + 10

-- The loop: `left` is `max_digits - n`.
pub scan_hex : ℕ → ℕ → Text → Option (ℕ × Text)
scan_hex left value [] = some (value, [])
scan_hex zero value (c ∷ s) = if is_xdigit c then none else some (value, c ∷ s)
scan_hex (suc left) value (c ∷ s) =
    let rest = scan_hex left (value * 16 + hex_value (to_lower c)) s in
    if is_xdigit c then rest else some (value, c ∷ s)

-- `static_cast<uint32_t>(value)`
abbrev pub truncated : ℕ × Text → ℕ × Text
truncated (value, rest) = (value % 2 ^ 32, rest)

unfoldable pub take_hex : ℕ → Text → Option (ℕ × Text)
unfolding scan_hex
take_hex max_digits [] = none
take_hex max_digits (c ∷ s) =
    if is_xdigit c then Option.map truncated (scan_hex max_digits 0 (c ∷ s)) else none

abbrev pub take_char : ℕ → Text → Option Text
take_char c [] = none
take_char c (x ∷ s) = if x == c then some s else none

abbrev pub take_prefix : Text → Text → Option Text
take_prefix [] s = some s
take_prefix (p ∷ prefix) [] = none
take_prefix (p ∷ prefix) (x ∷ s) = if x == p then take_prefix prefix s else none

-- The loop of `TakeDecimal`, which fails as soon as the value is over INT32_MAX.
pub scan_decimal : ℕ → Text → Option (ℕ × Text)
unfolding is_digit
scan_decimal value [] = some (value, [])
scan_decimal value (c ∷ s) =
    let rest = scan_decimal (value * 10 + (c - b'0')) s in
    if is_digit c
    then if ltb int_max (value * 10 + (c - b'0')) then none else rest
    else some (value, c ∷ s)

unfoldable pub take_decimal : Text → Option (ℕ × Text)
unfolding scan_decimal
take_decimal [] = none
take_decimal (c ∷ s) = if is_digit c then scan_decimal 0 (c ∷ s) else none
