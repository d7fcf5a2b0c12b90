-- ===== src/Core/Options/Indices/RoundTrip.antt =====
-- Which specs ParseGpuIndices accepts, and what it returns.
use mathlib.Core.List.{append-nil, append_assoc}
use mathlib.Core.Option.{some-injective}
use loadmaster.Prelude.{
  ℕ, zero, suc, ◌≤◌, ◌<◌, ◌≡◌, ◌≢◌, refl, ap, subst, ◌∙◌, ◌⊎◌, inl, inr, ◌||◌, true, false, List,
  [], ◌∷◌, ◌++◌, Option, none, some, arith, if◌then◌else◌, Bool-cases, All, All-append, length,
  length-append, Text, codes, text_eq, text_eq_iff,
}
use loadmaster.Prelude.Int.{ℤ, pos, negsuc}
use loadmaster.Prelude.Numbers.{
  int_max, is_digit, from_chars, IntResult, parsed, invalid_argument, result_out_of_range, show_int,
  from_chars-show_int, from_chars-IsInt, show_int-is_digit, show_int-cons,
}
use loadmaster.Core.Options.Indices.Distinct.{count, no_duplicates, distinct_accepted}
use loadmaster.Core.Options.Indices.{
  reject_duplicates, index_of, cut_at_comma, on_token, push_index, read_index, read_indices, sort,
  has_equal_neighbours, is_empty, parse_gpu_indices,
}

-- `0,2,3`
pub comma_list : List ℕ → Text
comma_list [] = []
comma_list (x ∷ []) = show_int (pos x)
comma_list (x ∷ y ∷ ys) = show_int (pos x) ++ (b',' ∷ comma_list (y ∷ ys))

abbrev Digits : Text → Type 0
Digits = All (λ c. is_digit c ≡ true)

cut-Digits : (t : Text) → Digits t → cut_at_comma t ≡ (t, none)
unfolding cut_at_comma is_digit
cut-Digits [] d = refl
cut-Digits (c ∷ t) d = ground (arith, cut-Digits t d.1, d.0)

cut-Digits_comma : (t rest : Text) → Digits t → cut_at_comma (t ++ (b',' ∷ rest)) ≡ (t, some rest)
unfolding cut_at_comma is_digit
cut-Digits_comma [] rest d = refl
cut-Digits_comma (c ∷ t) rest d = ground (arith, cut-Digits_comma t rest d.1, d.0)

read_index-show_int : (n : ℕ) → n ≤ int_max → read_index (show_int (pos n)) ≡ some n
unfolding read_index
read_index-show_int n h =
    let read : from_chars (show_int (pos n) ++ []) ≡ parsed (pos n) [] =
      from_chars-show_int (pos n) [] (h, omega arith) tt in
    let bare : from_chars (show_int (pos n)) ≡ parsed (pos n) [] = rw append-nil at read in rw bare

read_indices_lem :
    (fuel : ℕ) (spec : Text) (out : List ℕ)
    → read_indices (suc fuel) spec out ≡ on_token (read_indices fuel) (cut_at_comma spec) out
unfolding read_indices
read_indices_lem fuel spec out = refl

on_token_lem :
    (again : Text → List ℕ → Option (List ℕ)) (token : Text) (r : Option Text) (out : List ℕ)
    → token ≢ []
    → on_token again (token, r) out ≡ push_index again (read_index token) r out
unfolding on_token
on_token_lem again [] r out ne = absurd (ne refl)
on_token_lem again (c ∷ token) r out ne = refl

-- One round on a token that is a number.
read_indices-token :
    (fuel : ℕ) (spec token : Text) (r : Option Text) (out : List ℕ) (n : ℕ)
    → token ≢ []
    → cut_at_comma spec ≡ (token, r)
    → read_index token ≡ some n
    → read_indices (suc fuel) spec out ≡ push_index (read_indices fuel) (some n) r out
read_indices-token fuel spec token r out n ne cut read =
    rw (read_indices_lem, cut, on_token_lem (read_indices fuel) token r out ne, read) refl

show_int-ne-nil : (z : ℤ) → show_int z ≢ []
show_int-ne-nil z e = let (c, s, cons) = show_int-cons z in cc

read_comma_list :
    (fuel : ℕ) (x : ℕ) (xs out : List ℕ)
    → length xs < fuel
    → All (λ n. n ≤ int_max) (x ∷ xs)
    → read_indices fuel (comma_list (x ∷ xs)) out ≡ some (out ++ x ∷ xs)
unfolding comma_list push_index
read_comma_list zero x xs out h a = absurd (omega arith)
read_comma_list (suc fuel) x [] out h a =
    read_indices-token fuel _ (show_int (pos x)) none out x (show_int-ne-nil (pos x))
      (cut-Digits _ (show_int-is_digit x)) (read_index-show_int x a.0)
read_comma_list (suc fuel) x (y ∷ ys) out h a =
    read_indices-token fuel _ (show_int (pos x)) (some (comma_list (y ∷ ys))) out x
      (show_int-ne-nil (pos x)) (cut-Digits_comma _ _ (show_int-is_digit x))
      (read_index-show_int x a.0)
    ∙ read_comma_list fuel y ys (out ++ x ∷ []) (omega arith) a.1
    ∙ ap some (append_assoc out (x ∷ []) (y ∷ ys))

length-comma_list : (x : ℕ) (xs : List ℕ) → length xs ≤ length (comma_list (x ∷ xs))
unfolding comma_list
length-comma_list x [] = omega arith
length-comma_list x (y ∷ ys) =
    omega
      (arith, length-append (show_int (pos x)) (b',' ∷ comma_list (y ∷ ys)), length-comma_list y ys)

starts_with_digit-ne-All :
    (t rest : Text)
    → All (λ c. is_digit c ≡ true) t
    → t ≢ []
    → text_eq (t ++ rest) (codes "all") ≡ false
unfolding is_digit
starts_with_digit-ne-All [] rest d ne = absurd (ne refl)
starts_with_digit-ne-All (c ∷ t) rest d ne = ground (arith, d.0)

comma_list-ne-all : (x : ℕ) (xs : List ℕ) → text_eq (comma_list (x ∷ xs)) (codes "all") ≡ false
unfolding comma_list
comma_list-ne-all x [] =
    rw append-nil at (
      starts_with_digit-ne-All (show_int (pos x)) [] (show_int-is_digit x)
        (show_int-ne-nil (pos x)))
comma_list-ne-all x (y ∷ ys) =
    starts_with_digit-ne-All (show_int (pos x)) (b',' ∷ comma_list (y ∷ ys)) (show_int-is_digit x)
      (show_int-ne-nil (pos x))

-- The whole function, with the loop and the test for duplicates shut.
parse_gpu_indices_lem :
    (spec : Text)
    → parse_gpu_indices spec ≡ (
        if text_eq spec (codes "all")
        then some []
        else reject_duplicates (read_indices (suc (length spec)) spec []))
unfolding parse_gpu_indices
parse_gpu_indices_lem spec = refl

reject_duplicates-distinct :
    (x : ℕ) (xs : List ℕ)
    → ((a : ℕ) → count a (x ∷ xs) ≤ 1)
    → reject_duplicates (some (x ∷ xs)) ≡ some (x ∷ xs)
unfolding reject_duplicates
reject_duplicates-distinct x xs distinct = rw (distinct_accepted (x ∷ xs) distinct)

-- A non-empty list of distinct device indices that fit an `int`, written with commas, is read
-- back as it was.
pub parse-comma_list :
    (x : ℕ) (xs : List ℕ)
    → All (λ n. n ≤ int_max) (x ∷ xs)
    → ((a : ℕ) → count a (x ∷ xs) ≤ 1)
    → parse_gpu_indices (comma_list (x ∷ xs)) ≡ some (x ∷ xs)
parse-comma_list x xs small distinct =
    rw
      (
        parse_gpu_indices_lem,
        comma_list-ne-all x xs,
        read_comma_list (suc (length (comma_list (x ∷ xs)))) x xs []
            (omega (arith, length-comma_list x xs)) small,
      )
      (reject_duplicates-distinct x xs distinct)

index_of-le :
    (t : Text) (r : IntResult) {n : ℕ} → from_chars t ≡ r → index_of r ≡ some n → n ≤ int_max
unfolding index_of
index_of-le t (parsed (pos m) []) e h = ground (arith, from_chars-IsInt t e)
index_of-le t (parsed (pos m) (c ∷ rest)) e h = cc
index_of-le t (parsed (negsuc m) rest) e h = cc
index_of-le t invalid_argument e h = cc
index_of-le t result_out_of_range e h = cc

read_index-le : (t : Text) {n : ℕ} → read_index t ≡ some n → n ≤ int_max
unfolding read_index
read_index-le t h = index_of-le t (from_chars t) refl h

-- The numbers read so far are `int`s, and there is one.
abbrev Ints : Option (List ℕ) → Type 0
Ints none = Unit
Ints (some xs) = All (λ n. n ≤ int_max) xs

on_token-Ints :
    (again : Text → List ℕ → Option (List ℕ)) (cut : Text × Option Text) (out : List ℕ)
    → ((rest : Text) (ys : List ℕ) → All (λ n. n ≤ int_max) ys → Ints (again rest ys))
    → All (λ n. n ≤ int_max) out
    → Ints (on_token again cut out)
unfolding on_token
on_token-Ints again ([], r) out keep a = tt
on_token-Ints again (c ∷ token, r) out keep a = push (read_index (c ∷ token)) r refl
  where
    push :
        (i : Option ℕ) (r : Option Text)
        → read_index (c ∷ token) ≡ i
        → Ints (push_index again i r out)
    push none r e = tt
    push (some n) none e = All-append _ out (n ∷ []) a (read_index-le (c ∷ token) e, tt)
    push (some n) (some rest) e =
        keep rest (out ++ n ∷ []) (All-append _ out (n ∷ []) a (read_index-le (c ∷ token) e, tt))

read_indices-Ints :
    (fuel : ℕ) (spec : Text) (out : List ℕ)
    → All (λ n. n ≤ int_max) out
    → Ints (read_indices fuel spec out)
read_indices-Ints zero spec out a = unfold read_indices in tt
read_indices-Ints (suc fuel) spec out a =
    rw read_indices_lem
      (on_token-Ints (read_indices fuel) (cut_at_comma spec) out (read_indices-Ints fuel) a)

-- A selection of devices: some, none of them twice, each an `int`.
pub record IsSelection (xs : List ℕ) : Type 0 where
  pub nonempty : xs ≢ []
  pub ints : All (λ n. n ≤ int_max) xs
  pub distinct : (a : ℕ) → count a xs ≤ 1

none-ne-some : (xs : List ℕ) → ◌≡◌ {A = Option (List ℕ)} none (some xs) → ⊥
none-ne-some xs h = cc

is_empty-false : (xs : List ℕ) → is_empty xs ≡ false → xs ≢ []
is_empty-false [] h e = cc
is_empty-false (x ∷ xs) h e = cc

reject_duplicates-IsSelection :
    (r : Option (List ℕ)) {xs : List ℕ} → Ints r → reject_duplicates r ≡ some xs → IsSelection xs
unfolding reject_duplicates
reject_duplicates-IsSelection none i h = cc
reject_duplicates-IsSelection (some out) i h =
    elim (Bool-cases (has_equal_neighbours (sort out) || is_empty out)) [
      | inl refused ↦ absurd (none-ne-some _ (rw refused at h))
      | inr kept ↦ subst IsSelection (some-injective _ _ (rw kept at h)) (record {
        nonempty = is_empty-false out (ground arith);
        ints = i;
        distinct = no_duplicates out (ground arith);
      })
    ]

-- What is accepted is `all`, which selects nothing in particular, or a non-empty list of
-- distinct indices, each of them an `int`.
pub parse_gpu_indices_sound :
    (spec : Text) {xs : List ℕ}
    → parse_gpu_indices spec ≡ some xs
    → ((spec ≡ codes "all") × ([] ≡ xs)) ⊎ IsSelection xs
parse_gpu_indices_sound spec h = elim (Bool-cases (text_eq spec (codes "all"))) [
  | inl everything ↦ inl (
    (text_eq_iff spec (codes "all")).0 everything,
    some-injective _ _ (rw (parse_gpu_indices_lem spec, everything) at h),
  )
  | inr listed ↦ inr (
      reject_duplicates-IsSelection (read_indices (suc (length spec)) spec [])
        (read_indices-Ints (suc (length spec)) spec [] tt)
        (rw (parse_gpu_indices_lem spec, listed) at h))
]
