-- ===== src/Gpu/Contention/Gate/Smaller.antt =====
-- The second loop of `Update`, on a state in decreasing order.
use loadmaster.Prelude.{
  ◌≡◌, ◌⊎◌, inl, inr, Bool, true, false, List, [], ◌∷◌, ◌++◌, arith, Bool-cases, All, All-append,
}
use loadmaster.Gpu.Contention.Gate.{Sighting, IsOrder, keep_front, pop_smaller}
use loadmaster.Gpu.Contention.Gate.Window.{Dominated, Decreasing}

module _ {Share : Type 0} (le : Share → Share → Bool) (o : IsOrder le) where
  keep_front-All :
      (P : Sighting Share → Type 0) (v : Share) (x : Sighting Share) (rest : List (Sighting Share))
      → P x
      → All P rest
      → All P (keep_front le v x rest)
  keep_front-All P v x [] p a = elim (Bool-cases (le x.share v)) [
    | inl small ↦ rw small tt
    | inr large ↦ rw large (p, tt)
  ]
  keep_front-All P v x (y ∷ ys) p a = (p, a)

  pub pop_smaller-All :
      (P : Sighting Share → Type 0) (v : Share) (xs : List (Sighting Share))
      → All P xs
      → All P (pop_smaller le v xs)
  unfolding pop_smaller
  pop_smaller-All P v [] a = tt
  pop_smaller-All P v (x ∷ xs) a =
      keep_front-All P v x (pop_smaller le v xs) a.0 (pop_smaller-All P v xs a.1)

  not_le : (a b : Share) → le a b ≡ false → le b a ≡ true
  not_le a b h = elim (o.total a b) [ inl up ↦ absurd (ground arith) | inr down ↦ down ]

  -- What stays in front is larger than what is pushed, and still in order.
  keep_front-Decreasing :
      (v : Share) (x : Sighting Share) (rest : List (Sighting Share))
      → All (λ y. le y.share x.share ≡ true) rest
      → All (λ y. le v y.share ≡ true) rest
      → Decreasing le rest
      → All (λ y. le v y.share ≡ true) (keep_front le v x rest)
        × Decreasing le (keep_front le v x rest)
  keep_front-Decreasing v x [] a b d = elim (Bool-cases (le x.share v)) [
    | inl small ↦ rw small (tt, tt)
    | inr large ↦ rw large ((not_le x.share v large, tt), (tt, tt))
  ]
  keep_front-Decreasing v x (y ∷ ys) a b d = ((o.trans v y.share x.share b.0 a.0, b), (a, d))

  pub pop_smaller-Decreasing :
      (v : Share) (xs : List (Sighting Share))
      → Decreasing le xs
      → All (λ y. le v y.share ≡ true) (pop_smaller le v xs) × Decreasing le (pop_smaller le v xs)
  unfolding pop_smaller
  pop_smaller-Decreasing v [] d = (tt, tt)
  pop_smaller-Decreasing v (x ∷ xs) d =
      let rest = pop_smaller-Decreasing v xs d.1 in
      keep_front-Decreasing v x (pop_smaller le v xs) (pop_smaller-All _ v xs d.0) rest.0 rest.1

  -- What covered a sighting still does, or what is pushed is as large.
  keep_front-Dominated :
      (v : Share) (h x : Sighting Share) (rest : List (Sighting Share))
      → Dominated le h (x ∷ rest)
      → Dominated le h (keep_front le v x rest) ⊎ (le h.share v ≡ true)
  keep_front-Dominated v h x [] d = elim (Bool-cases (le x.share v)) [
    | inl small ↦ elim d [
      | inl (larger, later) ↦ inr (o.trans h.share x.share v larger small)
      | inr none_left ↦ absurd none_left
    ]
    | inr large ↦ rw large (inl d)
  ]
  keep_front-Dominated v h x (y ∷ ys) d = inl d

  pub pop_smaller-Dominated :
      (v : Share) (h : Sighting Share) (xs : List (Sighting Share))
      → Dominated le h xs
      → Dominated le h (pop_smaller le v xs) ⊎ (le h.share v ≡ true)
  unfolding pop_smaller
  pop_smaller-Dominated v h [] d = absurd d
  pop_smaller-Dominated v h (x ∷ xs) d = elim d [
    | inl here ↦ keep_front-Dominated v h x (pop_smaller le v xs) (inl here)
    | inr further ↦ elim (pop_smaller-Dominated v h xs further) [
      | inl kept ↦ keep_front-Dominated v h x (pop_smaller le v xs) (inr kept)
      | inr small ↦ inr small
    ]
  ]

  pub Dominated-left :
      (h : Sighting Share) (xs ys : List (Sighting Share))
      → Dominated le h xs
      → Dominated le h (xs ++ ys)
  Dominated-left h [] ys d = absurd d
  Dominated-left h (x ∷ xs) ys d = elim d [
    | inl here ↦ inl here
    | inr further ↦ inr (Dominated-left h xs ys further)
  ]

  pub Dominated-right :
      (h : Sighting Share) (xs ys : List (Sighting Share))
      → Dominated le h ys
      → Dominated le h (xs ++ ys)
  Dominated-right h [] ys d = d
  Dominated-right h (x ∷ xs) ys d = inr (Dominated-right h xs ys d)

  pub Decreasing-snoc :
      (xs : List (Sighting Share)) (z : Sighting Share)
      → All (λ y. le z.share y.share ≡ true) xs
      → Decreasing le xs
      → Decreasing le (xs ++ z ∷ [])
  Decreasing-snoc [] z a d = (tt, tt)
  Decreasing-snoc (x ∷ xs) z a d =
      (All-append _ xs (z ∷ []) d.0 (a.0, tt), Decreasing-snoc xs z a.1 d.1)
