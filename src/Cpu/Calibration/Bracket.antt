-- ===== src/Cpu/Calibration/Bracket.antt =====
-- The search on a machine whose timing is steady.
use loadmaster.Prelude.{
  ℕ, zero, suc, ◌-◌, ◌*◌, ◌≤◌, ◌<◌, ◌≡◌, ◌⊎◌, refl, inl, inr, Bool-cases, arith, tests, true, false,
  ltb, ltb→le, ltb→lt, ==_iff, ◌==◌,
}
use loadmaster.Cpu.Calibration.{
  Search, start_search, loop_count_max, granularity_ns, test_iterations, midpoint, narrow, bisect,
}

-- Every measurement tells on which side of `exact` the count is: the machine takes at most 1 ms
-- for `exact` loops, and longer for more.
abbrev pub IsSteady : (ℕ → ℕ → ℕ) → ℕ → Type 0
IsSteady measure exact =
    ((i n : ℕ) → n ≤ exact → measure i n ≤ granularity_ns)
    × ((i n : ℕ) → exact < n → granularity_ns < measure i n)

-- The bracket holds the exact count and is as narrow as the iterations so far made it.
pub record Brackets (exact width : ℕ) (s : Search) : Type 0 where
  pub above : s.low ≤ exact
  pub below : exact < s.high
  pub base : (s.base_loop_count ≡ s.low) ⊎ (s.base_loop_count ≡ s.high)
  pub narrow_enough : s.high - s.low ≤ width

narrow-Brackets :
    (measure : ℕ → ℕ → ℕ) (exact width iteration : ℕ) (s : Search)
    → IsSteady measure exact
    → Brackets exact (2 * width) s
    → Brackets exact width
        (narrow s (midpoint s.low s.high) (measure iteration (midpoint s.low s.high)))
unfolding narrow
narrow-Brackets measure exact width iteration s steady b =
    let mid = midpoint s.low s.high in
    elim (Bool-cases (ltb granularity_ns (measure iteration mid))) [
      | inl long ↦ rw long (record {
        above = b.above;
        below = too_long mid long;
        base = inr refl;
        narrow_enough = omega (arith, b.narrow_enough);
      })
      | inr short ↦ rw short (record {
        above = short_enough mid short;
        below = b.below;
        base = inl refl;
        narrow_enough = omega (arith, b.narrow_enough);
      })
    ]
  where
    too_long : (n : ℕ) → ltb granularity_ns (measure iteration n) ≡ true → exact < n
    too_long n h = elim (Bool-cases (ltb exact n)) [
      | inl over ↦ omega tests
      | inr fits ↦ absurd (omega (tests, steady.0 iteration n (ltb→le exact n fits)))
    ]

    short_enough : (n : ℕ) → ltb granularity_ns (measure iteration n) ≡ false → n ≤ exact
    short_enough n h = elim (Bool-cases (ltb exact n)) [
      | inl over ↦ absurd (omega (tests, steady.1 iteration n (ltb→lt exact n over)))
      | inr fits ↦ omega tests
    ]

-- The width that so many halvings bring down to `width`.
abbrev doubled : ℕ → ℕ → ℕ
doubled zero width = width
doubled (suc n) width = 2 * doubled n width

-- A bracket whose middle was measured last has no further to go.
stopped-Brackets :
    (exact wide width : ℕ) (s : Search)
    → 1 ≤ width
    → midpoint s.low s.high ≡ s.base_loop_count
    → Brackets exact wide s
    → Brackets exact width s
stopped-Brackets exact wide width s w same b = record {
  above = b.above;
  below = b.below;
  base = b.base;
  narrow_enough = elim b.base [
    | inl at_low ↦ omega (arith, b.above, b.below)
    | inr at_high ↦ absurd (omega (arith, b.above, b.below))
  ];
}

bisect-Brackets_from :
    (measure : ℕ → ℕ → ℕ) (exact width left iteration : ℕ) (s : Search)
    → IsSteady measure exact
    → 1 ≤ width
    → Brackets exact (doubled left width) s
    → Brackets exact width (bisect measure left iteration s)
unfolding bisect
bisect-Brackets_from measure exact width zero iteration s steady w b = b
bisect-Brackets_from measure exact width (suc left) iteration s steady w b =
    elim (Bool-cases (midpoint s.low s.high == s.base_loop_count)) [
      | inl same ↦ rw same (stopped-Brackets exact _ width s w ((==_iff _ _).0 same) b)
      | inr fresh ↦ rw fresh (
          bisect-Brackets_from measure exact width left (suc iteration) _ steady w
            (narrow-Brackets measure exact (doubled left width) iteration s steady b))
    ]

-- On a machine that takes 1 ms for `exact` loops, a count in range, the 16 measurements at most
-- leave a bracket around `exact` no wider than 382 loops.
pub bisect-Brackets :
    (measure : ℕ → ℕ → ℕ) (exact : ℕ)
    → IsSteady measure exact
    → exact < loop_count_max
    → Brackets exact 382 (bisect measure test_iterations 0 start_search)
bisect-Brackets measure exact steady lt =
    bisect-Brackets_from measure exact 382 test_iterations 0 start_search steady (omega arith)
      (record { above = omega arith; below = lt; base = inl refl; narrow_enough = omega arith })
