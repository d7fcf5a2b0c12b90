-- ===== src/Core/Options/Indices.antt =====
-- ParseGpuIndices, src/core/options.cc.
pub mod Distinct
pub mod RoundTrip
use loadmaster.Prelude.{
  ℕ, zero, suc, ◌+◌, Bool, true, false, not, ◌||◌, List, [], ◌∷◌, ◌++◌, Option, none, some, Text,
  codes, text_eq, ◌==◌, leb, if◌then◌else◌, length,
}
use loadmaster.Prelude.Int.{ℤ, pos, negsuc}
use loadmaster.Prelude.Numbers.{
  IntResult, parsed, invalid_argument, result_out_of_range, from_chars,
}

-- The text up to the first comma, and what follows it if there is one.
pub cut_at_comma : Text → Text × Option Text
cut_at_comma [] = ([], none)
cut_at_comma (c ∷ s) =
    let (token, rest) = cut_at_comma s in if c == b',' then ([], some s) else (c ∷ token, rest)

-- `ec == errc{}`, `ptr` at the end, and `idx >= 0`.
pub index_of : IntResult → Option ℕ
index_of (parsed (pos n) []) = some n
index_of (parsed (pos n) (c ∷ rest)) = none
index_of (parsed (negsuc n) rest) = none
index_of invalid_argument = none
index_of result_out_of_range = none

-- One token.
pub read_index : Text → Option ℕ
unfolding index_of
read_index t = index_of (from_chars t)

-- The end of a round: `out.push_back(idx)`, and on to what follows the comma.
pub push_index :
    (Text → List ℕ → Option (List ℕ)) → Option ℕ → Option Text → List ℕ → Option (List ℕ)
push_index again none r out = none
push_index again (some idx) none out = some (out ++ idx ∷ [])
push_index again (some idx) (some rest) out = again rest (out ++ idx ∷ [])

-- A round on a token; an empty one fails.
pub on_token : (Text → List ℕ → Option (List ℕ)) → Text × Option Text → List ℕ → Option (List ℕ)
unfolding read_index push_index
on_token again ([], r) out = none
on_token again (c ∷ token, r) out = push_index again (read_index (c ∷ token)) r out

-- The loop over the tokens. Each round takes a comma off the text: its length is fuel enough.
pub read_indices : ℕ → Text → List ℕ → Option (List ℕ)
unfolding on_token cut_at_comma
read_indices zero spec out = none
read_indices (suc fuel) spec out = on_token (read_indices fuel) (cut_at_comma spec) out

-- `std::sort`
pub insert_sorted : ℕ → List ℕ → List ℕ
insert_sorted x [] = x ∷ []
insert_sorted x (y ∷ ys) = if leb x y then x ∷ y ∷ ys else y ∷ insert_sorted x ys

pub sort : List ℕ → List ℕ
unfolding insert_sorted
sort [] = []
sort (x ∷ xs) = insert_sorted x (sort xs)

-- `std::unique(…) != end`: two equal neighbours.
pub has_equal_neighbours : List ℕ → Bool
has_equal_neighbours [] = false
has_equal_neighbours (x ∷ []) = false
has_equal_neighbours (x ∷ y ∷ ys) = x == y || has_equal_neighbours (y ∷ ys)

abbrev is_empty : List ℕ → Bool
is_empty [] = true
is_empty (x ∷ xs) = false

-- `Reject duplicates`, and the final test.
pub reject_duplicates : Option (List ℕ) → Option (List ℕ)
reject_duplicates none = none
reject_duplicates (some out) =
    if has_equal_neighbours (sort out) || is_empty out then none else some out

unfoldable pub parse_gpu_indices : Text → Option (List ℕ)
unfolding read_indices sort has_equal_neighbours reject_duplicates
parse_gpu_indices spec =
    if text_eq spec (codes "all")
    then some []
    else reject_duplicates (read_indices (suc (length spec)) spec [])
