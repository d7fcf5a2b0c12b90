-- ===== src/Cpu/Workers/Split.antt =====
-- The split of a load over the workers loses nothing and is even.
use loadmaster.Prelude.{
  ℕ, zero, suc, ◌+◌, ◌-◌, ◌*◌, ◌/◌, ◌%◌, ◌≤◌, ◌<◌, min, ◌≡◌, refl, sym, subst, ◌⊎◌, inl, inr,
  Bool-cases, tests, List, [], ◌∷◌, arith, ltb, length, All, sum,
}
use loadmaster.Prelude.Int.{ℤ, pos, negsuc}
use loadmaster.Cpu.Workers.{
  schedule_interval_ms, clamp_load, capacity_of, assign_loads, set_total_load,
}

length-assign_loads :
    (base remainder i : ℕ) (ws : List ℕ) → length (assign_loads base remainder i ws) ≡ length ws
unfolding assign_loads
length-assign_loads base remainder i [] = omega arith
length-assign_loads base remainder i (w ∷ ws) =
    omega (arith, length-assign_loads base remainder (suc i) ws)

sum-assign_loads :
    (base remainder i : ℕ) (ws : List ℕ)
    → sum (assign_loads base remainder i ws) ≡ base * length ws + min (length ws) (remainder - i)
unfolding assign_loads
sum-assign_loads base remainder i [] = omega arith
sum-assign_loads base remainder i (w ∷ ws) =
    ground (arith, sum-assign_loads base remainder (suc i) ws)

assign_loads-near :
    (base remainder i : ℕ) (ws : List ℕ)
    → All (λ l. (base ≤ l) × (l ≤ base + min remainder 1)) (assign_loads base remainder i ws)
unfolding assign_loads
assign_loads-near base remainder i [] = tt
assign_loads-near base remainder i (w ∷ ws) =
    ((ground arith, ground arith), assign_loads-near base remainder (suc i) ws)

quotient_remainder : (n d : ℕ) → n / suc d * suc d + n % suc d ≡ n
quotient_remainder n d = omega arith

ceiling_le : (k d r : ℕ) → (100 + k) * suc d + r ≤ suc d * 100 → (k ≡ 0) × (r ≡ 0)
ceiling_le zero d r h = (omega arith, omega arith)
ceiling_le (suc k) d r h = absurd (omega arith)

fits_ceiling : (q d r : ℕ) → q * suc d + r ≤ suc d * 100 → q + min r 1 ≤ 100
fits_ceiling q d r h = elim (compare_to q) [
  | inl small ↦ omega arith
  | inr (k, over) ↦
      let exact = ceiling_le k d r (subst (λ x. x * suc d + r ≤ suc d * 100) over h) in
      omega (arith, exact.0, exact.1)
]
  where
    compare_to : (a : ℕ) → (a < 100) ⊎ ((k : ℕ) × (a ≡ 100 + k))
    compare_to a = elim (Bool-cases (ltb a 100)) [
      | inl below ↦ inl (omega tests)
      | inr above ↦ inr (a - 100, omega tests)
    ]

clamp_load-le : (total : ℤ) (capacity : ℕ) → clamp_load total capacity ≤ capacity
clamp_load-le (pos n) capacity = omega arith
clamp_load-le (negsuc n) capacity = omega arith

clamp_load-zero : (total : ℤ) → clamp_load total 0 ≡ 0
clamp_load-zero total = omega (arith, clamp_load-le total 0)

-- Some load that all workers have, or all but one unit of.
abbrev pub IsEven : List ℕ → Type 0
IsEven ws = (base : ℕ) × All (λ l. (base ≤ l) × (l ≤ base + 1)) ws

near-IsEven :
    (base remainder : ℕ) (xs : List ℕ)
    → All (λ l. (base ≤ l) × (l ≤ base + min remainder 1)) xs
    → All (λ l. (base ≤ l) × (l ≤ base + 1)) xs
near-IsEven base remainder [] a = tt
near-IsEven base remainder (x ∷ xs) a =
    ((a.0.0, omega (arith, a.0.1)), near-IsEven base remainder xs a.1)

near-le :
    (base remainder : ℕ) (xs : List ℕ)
    → base + min remainder 1 ≤ 100
    → All (λ l. (base ≤ l) × (l ≤ base + min remainder 1)) xs
    → All (λ l. l ≤ 100) xs
near-le base remainder [] h a = tt
near-le base remainder (x ∷ xs) h a = (omega (arith, a.0.1), near-le base remainder xs h a.1)

-- The total, clamped to what the workers can burn, is split over them without loss: they stay as
-- many, their loads add up to it, no two differ by more than 1, and none is over 100.
pub set_total_load-split :
    (total : ℤ) (ws : List ℕ)
    → let loads = set_total_load total ws in
      (length loads ≡ length ws)
      × (sum loads ≡ clamp_load total (capacity_of (length ws)))
      × IsEven loads
      × All (λ l. l ≤ schedule_interval_ms) loads
unfolding set_total_load
set_total_load-split total [] = (refl, sym (clamp_load-zero total), (0, tt), tt)
set_total_load-split total (w ∷ ws) =
    let load = clamp_load total (capacity_of (suc (length ws))) in
    let b = load / suc (length ws) in
    let r = load % suc (length ws) in
    let loads = assign_loads b r 0 (w ∷ ws) in
    let near = assign_loads-near b r 0 (w ∷ ws) in
    let exact = quotient_remainder load (length ws) in
    let room = clamp_load-le total (capacity_of (suc (length ws))) in
    (
      length-assign_loads b r 0 (w ∷ ws),
      omega (arith, sum-assign_loads b r 0 (w ∷ ws), exact),
      (b, near-IsEven b r loads near),
      near-le b r loads (fits_ceiling b (length ws) r (omega (arith, exact, room))) near,
    )
