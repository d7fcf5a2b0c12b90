-- ===== src/Core/Options/Indices/Distinct.antt =====
-- The test for duplicates: two equal neighbours in the sorted list.
use loadmaster.Prelude.{
  ℕ, suc, ◌≤◌, ◌<◌, ◌≡◌, refl, inl, inr, true, false, List, [], ◌∷◌, arith, ◌==◌, leb,
  if◌then◌else◌, Bool-cases, All, leb→le, leb→lt,
}
use loadmaster.Core.Options.Indices.{insert_sorted, sort, has_equal_neighbours}

-- How often `a` stands in a list.
abbrev pub count : ℕ → List ℕ → ℕ
count a [] = 0
count a (x ∷ xs) = if x == a then suc (count a xs) else count a xs

count-insert_sorted : (a x : ℕ) (ys : List ℕ) → count a (insert_sorted x ys) ≡ count a (x ∷ ys)
unfolding insert_sorted
count-insert_sorted a x [] = refl
count-insert_sorted a x (y ∷ ys) = ground (arith, count-insert_sorted a x ys)

count-sort : (a : ℕ) (xs : List ℕ) → count a (sort xs) ≡ count a xs
unfolding sort
count-sort a [] = refl
count-sort a (x ∷ xs) = ground (arith, count-insert_sorted a x (sort xs), count-sort a xs)

abbrev IsSorted : List ℕ → Type 0
IsSorted [] = Unit
IsSorted (x ∷ xs) = All (λ y. x ≤ y) xs × IsSorted xs

All-insert_sorted :
    (b x : ℕ) (ys : List ℕ) → b ≤ x → All (λ y. b ≤ y) ys → All (λ y. b ≤ y) (insert_sorted x ys)
unfolding insert_sorted
All-insert_sorted b x [] h a = (h, tt)
All-insert_sorted b x (y ∷ ys) h a = elim (Bool-cases (leb x y)) [
  | inl here ↦ rw here (h, a)
  | inr later ↦ rw later (a.0, All-insert_sorted b x ys h a.1)
]

All-le_trans : (b x : ℕ) (ys : List ℕ) → b ≤ x → All (λ y. x ≤ y) ys → All (λ y. b ≤ y) ys
All-le_trans b x [] h a = tt
All-le_trans b x (y ∷ ys) h a = (omega arith, All-le_trans b x ys h a.1)

insert_sorted-IsSorted : (x : ℕ) (ys : List ℕ) → IsSorted ys → IsSorted (insert_sorted x ys)
unfolding insert_sorted
insert_sorted-IsSorted x [] s = (tt, tt)
insert_sorted-IsSorted x (y ∷ ys) s = elim (Bool-cases (leb x y)) [
  | inl here ↦ rw here ((leb→le x y here, All-le_trans x y ys (leb→le x y here) s.0), s)
  | inr later ↦
      let below : y < x = leb→lt x y later in
      rw later (All-insert_sorted y x ys (omega arith) s.0, insert_sorted-IsSorted x ys s.1)
]

sort-IsSorted : (xs : List ℕ) → IsSorted (sort xs)
unfolding sort
sort-IsSorted [] = tt
sort-IsSorted (x ∷ xs) = insert_sorted-IsSorted x (sort xs) (sort-IsSorted xs)

count_below : (a b : ℕ) (xs : List ℕ) → a < b → All (λ y. b ≤ y) xs → count a xs ≡ 0
count_below a b [] h s = refl
count_below a b (x ∷ xs) h s = ground (arith, count_below a b xs h s.1)

sorted_distinct :
    (xs : List ℕ) → IsSorted xs → has_equal_neighbours xs ≡ false → (a : ℕ) → count a xs ≤ 1
unfolding has_equal_neighbours
sorted_distinct [] s h a = omega arith
sorted_distinct (x ∷ []) s h a = ground arith
sorted_distinct (x ∷ y ∷ ys) s h a =
    let rest : has_equal_neighbours (y ∷ ys) ≡ false = ground arith in
    ground (arith, count_below x y (y ∷ ys), sorted_distinct (y ∷ ys) s.1 rest a)

neighbours_twice : (xs : List ℕ) → has_equal_neighbours xs ≡ true → (a : ℕ) × (2 ≤ count a xs)
unfolding has_equal_neighbours
neighbours_twice [] h = cc
neighbours_twice (x ∷ []) h = cc
neighbours_twice (x ∷ y ∷ ys) h = elim (Bool-cases (x == y)) [
  | inl same ↦ (x, ground arith)
  | inr other ↦ let (a, twice) = neighbours_twice (y ∷ ys) (rw other at h) in (a, ground arith)
]

-- Sorting leaves equal neighbours exactly if some number is listed twice.
pub no_duplicates :
    (xs : List ℕ) → has_equal_neighbours (sort xs) ≡ false → (a : ℕ) → count a xs ≤ 1
no_duplicates xs h a =
    omega (arith, sorted_distinct (sort xs) (sort-IsSorted xs) h a, count-sort a xs)

pub distinct_accepted :
    (xs : List ℕ) → ((a : ℕ) → count a xs ≤ 1) → has_equal_neighbours (sort xs) ≡ false
distinct_accepted xs h = elim (Bool-cases (has_equal_neighbours (sort xs))) [
  | inl found ↦
      let (a, twice) = neighbours_twice (sort xs) found in
      absurd (omega (arith, twice, count-sort a xs, h a))
  | inr none_found ↦ none_found
]
