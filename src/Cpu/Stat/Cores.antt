-- ===== src/Cpu/Stat/Cores.antt =====
-- The tightest limit on the cores.
use loadmaster.Prelude.{
  ℕ, zero, suc, ◌+◌, ◌^◌, ◌≤◌, ◌<◌, ◌≡◌, refl, sym, ap, ◌∙◌, ◌⊎◌, inl, inr, max, Bool, true, false,
  Option, none, some, List, Text, length, arith, leb, ltb, ◌&&◌, if◌then◌else◌, Bool-cases,
}
use loadmaster.Cpu.Stat.{
  tightened, tighten, up_to_slash, parent, is_top, cpu_max_file, limit_on, walk, core_count,
  cgroup_of,
}
use loadmaster.Cpu.Stat.Above.{
  IsAbove, parent_on-IsAbove, IsAbove-parent_on, top-IsAbove, top-nonempty, Enough,
  parent_on-Enough,
}

-- A limit that counts: a positive `int`.
abbrev pub IsLimit : ℕ → Type 0
IsLimit limit = (1 ≤ limit) × (limit < 2 ^ 31)

module _ (first_line : Text → Option Text) where
  abbrev pub limit_of : Text → Option ℕ
  limit_of group = limit_on (first_line (cpu_max_file group))

  -- The tightest of a count and the limits of a group and those above it.
  pub record Tightest (path : Text) (start n : ℕ) : Type 0 where
    pub honoured :
        (group : Text) (limit : ℕ)
        → IsAbove path group
        → limit_of group ≡ some limit
        → IsLimit limit
        → n ≤ limit
    pub within : 1 ≤ start → n ≤ start
    pub attained :
        (n ≡ start)
        ⊎ ((group : Text) × (limit : ℕ) × IsAbove path group
            × (limit_of group ≡ some limit)
            × IsLimit limit
            × (n ≡ limit))

  -- What a file's limit makes of a count, on what was read.
  record Tightened (found : Option ℕ) (count n : ℕ) : Type 0 where
    obeys : (limit : ℕ) → found ≡ some limit → IsLimit limit → (n ≤ limit) × (1 ≤ n)
    below : 1 ≤ count → (n ≤ count) × (1 ≤ n)
    reason : (n ≡ count) ⊎ ((limit : ℕ) × (found ≡ some limit) × IsLimit limit × (n ≡ limit))

  tested :
      (b : Bool) (limit count : ℕ)
      → (b ≡ true → IsLimit limit)
      → (IsLimit limit → b ≡ true)
      → Tightened (some limit) count (if b then tightened count limit else count)
  tested true limit zero f g = record {
    obeys = λ l e h. ground (arith, e, h);
    below = λ h. absurd (omega (arith, h));
    reason = inr (limit, refl, f refl, refl);
  }
  tested true limit (suc n) f g = record {
    obeys = λ l e h. ground (arith, e, h);
    below = λ h. omega (arith, f refl);
    reason = elim (Bool-cases (leb (suc n) limit)) [
      | inl small ↦ inl (ground (arith, small))
      | inr large ↦ inr (limit, refl, f refl, ground (arith, large))
    ];
  }
  tested false limit count f g = record {
    obeys = λ l e h. absurd (ground (arith, e, h, g));
    below = λ h. omega (arith, h);
    reason = inl refl;
  }

  tighten-Tightened : (found : Option ℕ) (count : ℕ) → Tightened found count (tighten found count)
  tighten-Tightened none count = record {
    obeys = λ l e. cc;
    below = λ h. omega (arith, h);
    reason = inl refl;
  }
  tighten-Tightened (some limit) count =
      tested (ltb 0 limit && ltb limit (2 ^ 31)) limit count (λ e. ground (arith, e))
        (λ h. ground (arith, h))

  top-Tightest :
      (path : Text) (count n : ℕ)
      → is_top path ≡ true
      → Tightened (limit_of path) count n
      → Tightest path count n
  top-Tightest path count n t h = record {
    honoured = λ group limit a e l.
        (h.obeys limit (ap limit_of (sym (top-IsAbove path group t a)) ∙ e) l).0;
    within = λ k. (h.below k).0;
    attained = elim h.reason [
      | inl same ↦ inl same
      | inr (limit, e, l, same) ↦ inr (path, limit, inl refl, e, l, same)
    ];
  }

  step-Tightest :
      (path : Text) (count t n : ℕ)
      → is_top path ≡ false
      → Tightened (limit_of path) count t
      → Tightest (parent path) t n
      → Tightest path count n
  step-Tightest path count t n low h r = record {
    honoured = λ group limit a e l. elim (IsAbove-parent_on path group a) [
      | inl same ↦
          let here = h.obeys limit (ap limit_of (sym same) ∙ e) l in
          omega (arith, here, r.within here.1)
      | inr further ↦ r.honoured group limit further e l
    ];
    within = λ k. let here = h.below k in omega (arith, here, r.within here.1);
    attained = elim r.attained [
      | inl same ↦ elim h.reason [
        | inl kept ↦ inl (same ∙ kept)
        | inr (limit, e, l, taken) ↦ inr (path, limit, inl refl, e, l, same ∙ taken)
      ]
      | inr (group, limit, a, e, l, taken) ↦ inr (
        group,
        limit,
        parent_on-IsAbove path group (up_to_slash path) refl (top-nonempty path low) a,
        e,
        l,
        taken,
      )
    ];
  }

  walk-Tightest :
      (fuel : ℕ) (path : Text) (count : ℕ)
      → Enough fuel path
      → (n : ℕ) × (walk first_line fuel path count ≡ some n) × Tightest path count n
  unfolding walk
  walk-Tightest zero path count e = absurd (omega (arith, e.0))
  walk-Tightest (suc fuel) path count e =
      let t = tighten (limit_of path) count in
      let h : Tightened (limit_of path) count t = tighten-Tightened (limit_of path) count in
      elim (Bool-cases (is_top path)) [
        | inl top ↦ (t, rw top refl, top-Tightest path count t top h)
        | inr low ↦
            let room : length path + 2 ≤ suc fuel = ground (arith, e.1, low) in
            let (n, ran, r) =
              walk-Tightest fuel (parent path) t
                (parent_on-Enough fuel path (up_to_slash path) refl room (top-nonempty path low)) in
            (n, rw low ran, step-Tightest path count t n low h r)
      ]

-- CoreCount always ends, whatever the files say, with at least one core: the tightest of the
-- hardware's concurrency within the affinity set and the limits of our group and of every group
-- above it. That the files' limits are positive `int`s is part of what counts as one.
pub core_count-Tightest :
    (first_line : Text → Option Text) (hardware : ℕ) (affinity : Option ℕ) (cgroup : List Text)
    → (n : ℕ) × (core_count first_line hardware affinity cgroup ≡ some (max n 1))
      × Tightest first_line (cgroup_of cgroup) (tighten affinity hardware) n
unfolding core_count
core_count-Tightest first_line hardware affinity cgroup =
    let path = cgroup_of cgroup in
    let (n, ran, r) =
      walk-Tightest first_line (suc (suc (length path))) path (tighten affinity hardware)
        (omega arith, inr (omega arith)) in
    (n, rw ran refl, r)
