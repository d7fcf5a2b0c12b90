-- ===== src/Gpu/Contention/LinuxFs.antt =====
-- src/gpu/contention/linux_fs.cc: BaseName and ListNumericDir, and the C library's `strtoul` by its
-- documented behaviour. The files are a parameter: what reading a file, a link or a directory gives.
use loadmaster.Prelude.{
  ℕ, ◌-◌, ◌%◌, ◌^◌, Bool, true, false, not, ◌&&◌, ◌||◌, Option, List, [], ◌∷◌, Text, length, leb,
  ltb, ◌==◌, if◌then◌else◌,
}
use loadmaster.Prelude.Numbers.{is_digit, scan_digits}

-- ReadFile, ReadLink and ListDir: a file that cannot be read is `none`, a link the empty text, a
-- directory the empty list.
pub record Files : Type 0 where
  pub read_file : Text → Option Text
  pub read_link : Text → Text
  pub list_dir : Text → List Text

-- `path.substr(path.find_last_of('/') + 1)`; `found` is what follows the last slash so far.
abbrev pub after_last_slash : Text → Text → Text
after_last_slash found [] = found
after_last_slash found (c ∷ s) = after_last_slash (if c == b'/' then s else found) s

abbrev pub base_name : Text → Text
base_name path = after_last_slash path path

abbrev pub is_empty : Text → Bool
is_empty [] = true
is_empty (c ∷ s) = false

-- `find_first_not_of("0123456789") == npos`
pub only_digits : Text → Bool
unfolding is_digit
only_digits [] = true
only_digits (c ∷ s) = is_digit c && only_digits s

unfoldable pub numeric_names : List Text → List ℕ
unfolding only_digits scan_digits
numeric_names [] = []
numeric_names (name ∷ names) =
    if is_empty name || ltb 9 (length name) || not (only_digits name)
    then numeric_names names
    else (scan_digits 0 name).0 ∷ numeric_names names

abbrev pub list_numeric_dir : Files → Text → List ℕ
list_numeric_dir files path = numeric_names (files.list_dir path)

-- `isspace`
unfoldable pub skip_isspace : Text → Text
skip_isspace [] = []
skip_isspace (c ∷ s) = if c == b' ' || (leb 9 c && leb c 13) then skip_isspace s else c ∷ s

-- The number as an `unsigned long`, on its sign: out of range it is the largest.
abbrev pub in_ulong : Bool → ℕ → ℕ
in_ulong negative n =
    if leb (2 ^ 64) n then 2 ^ 64 - 1 else if negative then (2 ^ 64 - n) % 2 ^ 64 else n

pub signed_ulong : Text → ℕ
unfolding scan_digits
signed_ulong [] = 0
signed_ulong (c ∷ s) =
    if c == b'-'
    then in_ulong true (scan_digits 0 s).0
    else if c == b'+'
    then in_ulong false (scan_digits 0 s).0
    else in_ulong false (scan_digits 0 (c ∷ s)).0

-- `strtoul(text, nullptr, 10)`
unfoldable pub strtoul : Text → ℕ
unfolding skip_isspace signed_ulong
strtoul text = signed_ulong (skip_isspace text)
