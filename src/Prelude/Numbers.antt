-- ===== src/Prelude/Numbers.antt =====
-- `std::from_chars` for an `int` in base 10, and the decimal text of an integer.
use Prim.Native.Nat.{ℕ, suc, ◌+◌, ◌-◌, ◌*◌, ◌^◌, ◌≤◌, ◌<◌}
use mathlib.Core.Path.{◌≡◌, refl, ap, ◌∙◌}
use mathlib.Core.Logic.{inl, inr}
use mathlib.Core.Bool.{Bool, true, false, ◌&&◌}
use mathlib.Core.List.{List, [], ◌∷◌, ◌++◌, map}
use native.Mathlib.Omega.{arith}
use loadmaster.Prelude.Tests.{leb, ◌==◌, if◌then◌else◌, Bool-cases}
use loadmaster.Prelude.Lists.{All}
use loadmaster.Prelude.Texts.{Text}
use loadmaster.Prelude.Int.{ℤ, pos, negsuc, pos_part, neg_part, sub_ℕ}
use loadmaster.Prelude.Digits.{
  from_digits, to_digits, from_digits-to_digits, to_digits-All, to_digits-cons,
}

abbrev pub int_max : ℕ
int_max = 2 ^ 31 - 1

-- The values of an `int`.
abbrev pub IsInt : ℤ → Type 0
IsInt z = (pos_part z ≤ int_max) × (neg_part z ≤ suc int_max)

unfoldable pub is_digit : ℕ → Bool
is_digit c = leb b'0' c && leb c b'9'

-- The value of the digits in front, behind digits of value `acc`, and the text after them.
unfoldable pub scan_digits : ℕ → Text → ℕ × Text
scan_digits acc [] = (acc, [])
scan_digits acc (c ∷ s) =
    let rest = scan_digits (acc * 10 + (c - b'0')) s in if is_digit c then rest else (acc, c ∷ s)

pub data IntResult : Type 0 where
  parsed : ℤ → Text → IntResult
  invalid_argument result_out_of_range : IntResult

abbrev magnitude : Bool → ℕ → ℤ
magnitude negative n = if negative then sub_ℕ 0 n else pos n

abbrev in_range : Bool → ℕ → Text → IntResult
in_range negative n rest =
    if leb n (if negative then suc int_max else int_max)
    then parsed (magnitude negative n) rest
    else result_out_of_range

-- The digits after the sign.
unsigned_chars : Bool → Text → IntResult
unsigned_chars negative [] = invalid_argument
unsigned_chars negative (c ∷ s) =
    let scanned = scan_digits 0 (c ∷ s) in
    if is_digit c then in_range negative scanned.0 scanned.1 else invalid_argument

-- `std::from_chars(first, last, value)`: a minus sign is read, a plus sign or a blank is not.
unfoldable pub from_chars : Text → IntResult
unfolding unsigned_chars scan_digits is_digit
from_chars [] = invalid_argument
from_chars (c ∷ s) = if c == b'-' then unsigned_chars true s else unsigned_chars false (c ∷ s)

abbrev pub digit_char : ℕ → ℕ
digit_char d = b'0' + d

abbrev pub decimal : ℕ → Text
decimal n = map digit_char (to_digits 10 n)

-- The decimal text of an integer, as `%d` prints it.
pub show_int : ℤ → Text
show_int (pos n) = decimal n
show_int (negsuc n) = b'-' ∷ decimal (suc n)

-- A text that no number goes on with.
abbrev pub EndsNumber : Text → Type 0
EndsNumber [] = Unit
EndsNumber (c ∷ s) = is_digit c ≡ false

pub digit_char-is_digit : (d : ℕ) → d < 10 → is_digit (digit_char d) ≡ true
unfolding is_digit
digit_char-is_digit d h = ground arith

scan-digit_chars :
    (ds : List ℕ) (acc : ℕ) (rest : Text)
    → All (λ d. d < 10) ds
    → EndsNumber rest
    → scan_digits acc (map digit_char ds ++ rest) ≡ (from_digits 10 acc ds, rest)
unfolding scan_digits
scan-digit_chars [] acc [] a e = refl
scan-digit_chars [] acc (c ∷ s) a e = rw e
scan-digit_chars (d ∷ ds) acc rest a e = rw (digit_char-is_digit d a.0) (
    scan-digit_chars ds (acc * 10 + (digit_char d - b'0')) rest a.1 e
    ∙ ap (λ v. (from_digits 10 v ds, rest)) (omega arith))

scan-decimal :
    (n : ℕ) (rest : Text) → EndsNumber rest → scan_digits 0 (decimal n ++ rest) ≡ (n, rest)
scan-decimal n rest e =
    scan-digit_chars (to_digits 10 n) 0 rest (to_digits-All 10 (omega arith) n) e
    ∙ ap (λ v. (v, rest)) (from_digits-to_digits 10 (omega arith) n)

abbrev pub StartsNumber : Text → Type 0
StartsNumber [] = ⊥
StartsNumber (c ∷ s) = is_digit c ≡ true

starts_with_digit :
    (ds : List ℕ) (rest : Text)
    → All (λ d. d < 10) ds
    → (d : ℕ) × (es : List ℕ) × (ds ≡ d ∷ es)
    → StartsNumber (map digit_char ds ++ rest)
starts_with_digit [] rest a (d, es, e) = cc
starts_with_digit (d ∷ ds) rest a h = digit_char-is_digit d a.0

pub decimal-StartsNumber : (n : ℕ) (rest : Text) → StartsNumber (decimal n ++ rest)
decimal-StartsNumber n rest =
    starts_with_digit (to_digits 10 n) rest (to_digits-All 10 (omega arith) n) (to_digits-cons 10 n)

unsigned-scan :
    (negative : Bool) (t rest : Text) (n : ℕ)
    → StartsNumber t
    → scan_digits 0 t ≡ (n, rest)
    → unsigned_chars negative t ≡ in_range negative n rest
unfolding unsigned_chars
unsigned-scan negative [] rest n h e = absurd h
unsigned-scan negative (c ∷ s) rest n h e = rw h (rw e)

from_chars_nil : from_chars [] ≡ invalid_argument
unfolding from_chars
from_chars_nil = refl

-- `from_chars` by its two cases, with the scan shut.
from_chars_lem :
    (c : ℕ) (s : Text)
    → from_chars (c ∷ s)
      ≡ (if c == b'-' then unsigned_chars true s else unsigned_chars false (c ∷ s))
unfolding from_chars
from_chars_lem c s = refl

from_chars_unsigned : (t : Text) → StartsNumber t → from_chars t ≡ unsigned_chars false t
unfolding is_digit
from_chars_unsigned [] h = absurd h
from_chars_unsigned (c ∷ s) h = from_chars_lem c s ∙ ground arith

in_range_pos : (n : ℕ) (rest : Text) → IsInt (pos n) → in_range false n rest ≡ parsed (pos n) rest
in_range_pos n rest i = ground arith

in_range_neg :
    (n : ℕ) (rest : Text) → IsInt (negsuc n) → in_range true (suc n) rest ≡ parsed (negsuc n) rest
in_range_neg n rest i = ground arith

-- Reading the text of an `int` gives it back, and stops where the text stops.
pub from_chars-show_int :
    (z : ℤ) (rest : Text)
    → IsInt z
    → EndsNumber rest
    → from_chars (show_int z ++ rest) ≡ parsed z rest
unfolding show_int
from_chars-show_int (pos n) rest i e =
    from_chars_unsigned (decimal n ++ rest) (decimal-StartsNumber n rest)
    ∙ unsigned-scan false (decimal n ++ rest) rest n (decimal-StartsNumber n rest)
        (scan-decimal n rest e)
    ∙ in_range_pos n rest i
from_chars-show_int (negsuc n) rest i e =
    from_chars_lem b'-' (decimal (suc n) ++ rest)
    ∙ unsigned-scan true (decimal (suc n) ++ rest) rest (suc n) (decimal-StartsNumber (suc n) rest)
        (scan-decimal (suc n) rest e)
    ∙ in_range_neg n rest i

in_range-IsInt :
    (negative : Bool) (n : ℕ) (r : Text) {z : ℤ} {rest : Text}
    → in_range negative n r ≡ parsed z rest
    → IsInt z
in_range-IsInt true n r h = ground arith
in_range-IsInt false n r h = ground arith

unsigned_chars-IsInt :
    (negative : Bool) (t : Text) {z : ℤ} {rest : Text}
    → unsigned_chars negative t ≡ parsed z rest
    → IsInt z
unfolding unsigned_chars
unsigned_chars-IsInt negative [] h = cc
unsigned_chars-IsInt negative (c ∷ s) h = elim (Bool-cases (is_digit c)) [
  | inl digit ↦ in_range-IsInt negative _ _ (rw digit at h)
  | inr other ↦ cc (rw other at h)
]

digit_chars-is_digit :
    (ds : List ℕ) → All (λ d. d < 10) ds → All (λ c. is_digit c ≡ true) (map digit_char ds)
digit_chars-is_digit [] a = tt
digit_chars-is_digit (d ∷ ds) a = (digit_char-is_digit d a.0, digit_chars-is_digit ds a.1)

-- The text of a non-negative number is made of digits.
pub show_int-is_digit : (n : ℕ) → All (λ c. is_digit c ≡ true) (show_int (pos n))
unfolding show_int
show_int-is_digit n = digit_chars-is_digit (to_digits 10 n) (to_digits-All 10 (omega arith) n)

map-ne-nil :
    (ds : List ℕ)
    → (d : ℕ) × (es : List ℕ) × (ds ≡ d ∷ es)
    → (c : ℕ) × (s : Text) × (map digit_char ds ≡ c ∷ s)
map-ne-nil ds (d, es, e) = (digit_char d, map digit_char es, ap (map digit_char) e)

pub show_int-cons : (z : ℤ) → (c : ℕ) × (s : Text) × (show_int z ≡ c ∷ s)
unfolding show_int
show_int-cons (pos n) = map-ne-nil (to_digits 10 n) (to_digits-cons 10 n)
show_int-cons (negsuc n) = (b'-', decimal (suc n), refl)

-- What is read is an `int`.
pub from_chars-IsInt : (t : Text) {z : ℤ} {rest : Text} → from_chars t ≡ parsed z rest → IsInt z
from_chars-IsInt [] h = cc from_chars_nil
from_chars-IsInt (c ∷ s) h = elim (Bool-cases (c == b'-')) [
  | inl minus ↦ unsigned_chars-IsInt true s (rw (from_chars_lem c s, minus) at h)
  | inr other ↦ unsigned_chars-IsInt false (c ∷ s) (rw (from_chars_lem c s, other) at h)
]
