-- ===== src/Util/RollingSampler/Tests.antt =====
-- A sampler of natural numbers with room for four, whose mean is rounded to the nearest.
use loadmaster.Prelude.{ℕ, ◌+◌, ◌-◌, ◌*◌, ◌/◌, ◌≤◌, ◌≡◌, refl, [], ◌∷◌, arith}
use loadmaster.Util.RollingSampler.{Sampler, new_sampler, insert_value, insert_values}
use loadmaster.Util.RollingSampler.Mean.{IsExact, MeanOfLast, insert_values-MeanOfLast}

abbrev plus : ℕ → ℕ → ℕ
plus a b = a + b

abbrev minus : ℕ → ℕ → ℕ
minus a b = a - b

abbrev rounded : ℕ → ℕ → ℕ
rounded sum count = (2 * sum + count) / (2 * count)

abbrev room_for_4 : Sampler ℕ
room_for_4 = new_sampler 0 plus minus rounded 4

-- The mean of the last four is 35.5.
mean_of_last_4 :
    (insert_values 0 plus minus rounded (10 ∷ 20 ∷ 30 ∷ 40 ∷ 52 ∷ []) room_for_4).mean_cached ≡ 36
unfolding insert_value
mean_of_last_4 = refl

plus-IsExact : IsExact plus minus
plus-IsExact = record {
  comm = λ a b. omega arith;
  assoc = λ a b c. omega arith;
  cancel = λ a b. omega arith;
}

one_at_least : 1 ≤ 4
one_at_least = omega arith

insert_values-MeanOfLast_example :
    MeanOfLast 0 plus minus rounded 4
      (10 ∷ 20 ∷ 30 ∷ 40 ∷ 52 ∷ [])
      (insert_values 0 plus minus rounded (10 ∷ 20 ∷ 30 ∷ 40 ∷ 52 ∷ []) room_for_4)
insert_values-MeanOfLast_example =
    insert_values-MeanOfLast 0 plus minus rounded plus-IsExact 4 10 (20 ∷ 30 ∷ 40 ∷ 52 ∷ [])
      one_at_least
