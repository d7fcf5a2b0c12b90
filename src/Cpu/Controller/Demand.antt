-- ===== src/Cpu/Controller/Demand.antt =====
-- What a LoadController does in an update: how its integral moves, and what it demands.
use native.Mathlib.Nat.{le-div_iff_mul-le, div-lt_iff_lt-mul, div-eq_of_lt}
use loadmaster.Prelude.{
  ℕ, suc, ◌+◌, ◌-◌, ◌*◌, ◌/◌, ◌≤◌, ◌<◌, ◌≡◌, ◌⊎◌, refl, ap, Bool, true, false, List, [], ◌∷◌, arith,
  Bool-cases, inl, inr,
}
use loadmaster.Prelude.Int.{ℤ, pos, pos_part, neg_part, sub_ℕ, ◌≤ℤ◌, ◌<ℤ◌, ltb_ℤ}
use loadmaster.Cpu.Controller.{
  Measured, Controlled, plus, minus, clamp, round, is_saturated, load, part, feedforward_of,
  error_of, integrate, update, after_updates,
}

-- The load of the other processes.
abbrev pub others : Measured → ℕ
others m =
    pos_part m.system_avg
    + neg_part m.process_avg
    - (neg_part m.system_avg + pos_part m.process_avg)

-- The target less the others' load, with `p - q` added, is above the capacity, or below zero.
abbrev pub Above : ℕ → ℕ → Measured → ℕ → ℕ → Type 0
Above unit n m p q = n * (50 * unit) + 50 * others m + q < m.target * (50 * unit) + p

abbrev pub Below : ℕ → Measured → ℕ → ℕ → Type 0
Below unit m p q = m.target * (50 * unit) + p < 50 * others m + q

-- The output that the integral would come to is beyond the end that the error pushes towards.
abbrev pub Pinned : ℕ → ℕ → Measured → ℤ → Type 0
Pinned unit n m before =
    let p = pos_part before + (m.target * unit + neg_part m.system_avg) in
    let q = neg_part before + pos_part m.system_avg in
    (Above unit n m p q × (m.system_avg <ℤ load unit m.target))
    ⊎ (Below unit m p q × (load unit m.target <ℤ m.system_avg))

-- The integral moves by kCpuLoadControllerKi times the error.
abbrev pub Follows : ℕ → Measured → ℤ → ℤ → Type 0
Follows unit m before after =
    pos_part after + neg_part before + pos_part m.system_avg
    ≡ neg_part after + pos_part before + (m.target * unit + neg_part m.system_avg)

-- It stops at the end of its range that the error pushes towards.
abbrev pub Stops : ℕ → ℕ → Measured → ℤ → Type 0
Stops unit n m after =
    ((after ≡ part unit n) × (m.system_avg <ℤ load unit m.target))
    ⊎ ((after ≡ minus (pos 0) (part unit n)) × (load unit m.target <ℤ m.system_avg))

abbrev pub InRange : ℤ → ℤ → Type 0
InRange cap x = (minus (pos 0) cap ≤ℤ x) × (x ≤ℤ cap)

pub record Moves (unit n : ℕ) (m : Measured) (before after : ℤ) : Type 0 where
  pub in_range : InRange (part unit n) after
  pub moved :
      (Pinned unit n m before × (after ≡ before))
      ⊎ ((¬ Pinned unit n m before) × (Follows unit m before after ⊎ Stops unit n m after))

abbrev saturated : ℕ → ℕ → Measured → ℤ → Bool
saturated unit n m before =
    is_saturated (part unit n) (plus (feedforward_of unit m) (plus before (error_of unit m)))
      (error_of unit m)

sub_ℕ-parts : (a b : ℕ) → pos_part (sub_ℕ a b) + b ≡ neg_part (sub_ℕ a b) + a
sub_ℕ-parts a b = ground arith

sub_ℕ-pos_part : (a b : ℕ) → pos_part (sub_ℕ a b) ≡ a - b
sub_ℕ-pos_part a b = ground arith

-- What the code compares the capacity and zero with, as a difference.
raw_parts :
    (unit : ℕ) (m : Measured) (i : ℤ)
    → let raw = plus (feedforward_of unit m) i in
      pos_part raw + (50 * others m + neg_part i)
      ≡ neg_part raw + (m.target * (50 * unit) + pos_part i)
raw_parts unit m i =
    let o =
      sub_ℕ-pos_part (pos_part m.system_avg + neg_part m.process_avg)
        (neg_part m.system_avg + pos_part m.process_avg) in
    let f = feedforward_of unit m in
    let g =
      sub_ℕ-parts (m.target * (50 * unit) + 0)
        (0 + 50 * pos_part (minus m.system_avg m.process_avg)) in
    omega (arith, o, g, sub_ℕ-parts (pos_part f + pos_part i) (neg_part f + neg_part i))

-- The output that an integral comes to, and the same with the next integral.
candidate_parts :
    (unit : ℕ) (m : Measured) (before : ℤ)
    → let raw = plus (feedforward_of unit m) (plus before (error_of unit m)) in
      pos_part raw + (50 * others m + (neg_part before + pos_part m.system_avg))
      ≡ neg_part raw
        + (m.target * (50 * unit) + (pos_part before + (m.target * unit + neg_part m.system_avg)))
candidate_parts unit m before =
    let e = error_of unit m in
    omega (
      arith,
      raw_parts unit m (plus before e),
      sub_ℕ-parts (pos_part before + pos_part e) (neg_part before + neg_part e),
      sub_ℕ-parts (m.target * unit + neg_part m.system_avg) (0 + pos_part m.system_avg),
    )

error_parts :
    (unit : ℕ) (m : Measured)
    → pos_part (error_of unit m) + pos_part m.system_avg
      ≡ neg_part (error_of unit m) + (m.target * unit + neg_part m.system_avg)
error_parts unit m =
    omega (arith, sub_ℕ-parts (m.target * unit + neg_part m.system_avg) (0 + pos_part m.system_avg))

-- The two ends.
abbrev AtEnd : ℤ → ℤ → ℤ → Type 0
AtEnd cap raw error = ((cap <ℤ raw) × (pos 0 <ℤ error)) ⊎ ((raw <ℤ pos 0) × (error <ℤ pos 0))

saturated-AtEnd : (cap raw error : ℤ) → is_saturated cap raw error ≡ true → AtEnd cap raw error
saturated-AtEnd cap raw error e = ground (arith, e)

AtEnd-saturated : (cap raw error : ℤ) → AtEnd cap raw error → is_saturated cap raw error ≡ true
AtEnd-saturated cap raw error e = ground (arith, e)

saturated-Pinned :
    (unit n : ℕ) (m : Measured) (before : ℤ)
    → saturated unit n m before ≡ true
    → Pinned unit n m before
saturated-Pinned unit n m before e =
    let c = candidate_parts unit m before in
    let d = error_parts unit m in
    elim (saturated-AtEnd (part unit n) _ (error_of unit m) e) [
      | inl (above, below_target) ↦ inl (omega (arith, c, above), omega (arith, d, below_target))
      | inr (below, above_target) ↦ inr (omega (arith, c, below), omega (arith, d, above_target))
    ]

Pinned-saturated :
    (unit n : ℕ) (m : Measured) (before : ℤ)
    → Pinned unit n m before
    → saturated unit n m before ≡ true
Pinned-saturated unit n m before e =
    let c = candidate_parts unit m before in
    let d = error_parts unit m in
    AtEnd-saturated (part unit n) _ (error_of unit m) (elim e [
      | inl (above, below_target) ↦ inl (omega (arith, c, above), omega (arith, d, below_target))
      | inr (below, above_target) ↦ inr (omega (arith, c, below), omega (arith, d, above_target))
    ])

clamp-InRange : (n : ℕ) (x : ℤ) → InRange (pos n) (clamp x (minus (pos 0) (pos n)) (pos n))
clamp-InRange n x = ground arith

clamp-free :
    (unit n : ℕ) (m : Measured) (before : ℤ)
    → InRange (part unit n) before
    → let after =
        clamp (plus before (error_of unit m)) (minus (pos 0) (part unit n)) (part unit n) in
      Follows unit m before after ⊎ Stops unit n m after
clamp-free unit n m before h =
    let c = plus before (error_of unit m) in
    elim (Bool-cases (ltb_ℤ c (minus (pos 0) (part unit n)))) [
      | inl low ↦ rw low (inr (inr (refl, ground (arith, low, h))))
      | inr e ↦ elim (Bool-cases (ltb_ℤ (part unit n) c)) [
        | inl high ↦ rw (e, high) (inr (inl (refl, ground (arith, high, h))))
        | inr f ↦ rw (e, f) (inl (ground arith))
      ]
    ]

integrate-Moves :
    (unit n : ℕ) (m : Measured) (before : ℤ)
    → InRange (part unit n) before
    → Moves unit n m before (integrate unit (part unit n) m before)
integrate-Moves unit n m before h = elim (Bool-cases (saturated unit n m before)) [
  | inl e ↦ rw e (record { in_range = h; moved = inl (saturated-Pinned unit n m before e, refl) })
  | inr e ↦ rw e (record {
    in_range = clamp-InRange (n * (50 * unit)) (plus before (error_of unit m));
    moved = inr (λ p. cc (Pinned-saturated unit n m before p, e), clamp-free unit n m before h);
  })
]

-- Rounding to a whole percent.
round-exact : (n k r : ℕ) → r < k → (n * k + r) / k ≡ n
round-exact n k r h =
    let low : n ≤ (n * k + r) / k = (le-div_iff_mul-le (omega arith)).1 (omega arith) in
    let high : (n * k + r) / k < suc n = (div-lt_iff_lt-mul (omega arith)).1 (grind arith) in
    omega (arith, low, high)

-- The demand of an integral: none or all of the capacity beyond its ends, and else the percentage
-- nearest to the target less the others' load with the integral added.
abbrev pub Demands : ℕ → ℕ → Measured → ℤ → ℕ → Type 0
Demands unit n m integral demand =
    let p = pos_part integral in
    let q = neg_part integral in
    (Below unit m p q × (demand ≡ 0))
    ⊎ ((Above unit n m p q × (demand ≡ n))
        ⊎ ((¬ Below unit m p q)
            × (¬ Above unit n m p q)
            × (demand
                ≡ (m.target * (50 * unit) + p - (50 * others m + q) + 25 * unit) / (50 * unit))))

one_sided : (x : ℤ) → pos 0 ≤ℤ x → neg_part x ≡ 0
one_sided x h = ground (arith, h)

ltb_ℤ-true : (x y : ℤ) → ltb_ℤ x y ≡ true → x <ℤ y
ltb_ℤ-true x y e = ground (arith, e)

ltb_ℤ-false : (x y : ℤ) → ltb_ℤ x y ≡ false → y ≤ℤ x
ltb_ℤ-false x y e = ground (arith, e)

demand-Demands :
    (unit n : ℕ) (m : Measured) (i : ℤ)
    → 1 ≤ unit
    → Demands unit n m i (round unit (clamp (plus (feedforward_of unit m) i) (pos 0) (part unit n)))
demand-Demands unit n m i u =
    let raw = plus (feedforward_of unit m) i in
    let r = raw_parts unit m i in
    elim (Bool-cases (ltb_ℤ raw (pos 0))) [
      | inl low ↦
          let below : Below unit m (pos_part i) (neg_part i) =
            omega (arith, r, ltb_ℤ-true raw (pos 0) low) in
          rw low (inl (below, div-eq_of_lt (omega arith)))
      | inr e ↦
          let some_left : pos 0 ≤ℤ raw = ltb_ℤ-false raw (pos 0) e in
          elim (Bool-cases (ltb_ℤ (part unit n) raw)) [
            | inl high ↦
                let above : Above unit n m (pos_part i) (neg_part i) =
                  omega (arith, r, ltb_ℤ-true (part unit n) raw high) in
                rw (e, high)
                  (inr (inl (above, round-exact n (50 * unit) (25 * unit) (omega arith))))
            | inr f ↦
                let value : pos_part raw
                    ≡ m.target * (50 * unit) + pos_part i - (50 * others m + neg_part i) =
                  omega (arith, r, some_left, one_sided raw some_left) in
                let within = ltb_ℤ-false (part unit n) raw f in
                rw (e, f)
                  (inr (
                    inr (
                      (λ h. absurd (omega (arith, r, some_left))),
                      (λ h. absurd (omega (arith, r, within))),
                      ap (λ x. (x + 25 * unit) / (50 * unit)) value,
                    )))
          ]
    ]

at-most : (n k x r : ℕ) → r < k → x ≤ n * k → (x + r) / k ≤ n
at-most n k x r h le =
    let below : (x + r) / k < suc n = (div-lt_iff_lt-mul (omega arith)).1 (grind arith) in
    omega (arith, below)

Demands-le :
    (unit n : ℕ) (m : Measured) (i : ℤ) (demand : ℕ)
    → 1 ≤ unit
    → Demands unit n m i demand
    → demand ≤ n
Demands-le unit n m i demand u (inl (below, e)) = omega (arith, e)
Demands-le unit n m i demand u (inr (inl (above, e))) = omega (arith, e)
Demands-le unit n m i demand u (inr (inr (not_below, not_above, e))) =
    rw e (at-most n (50 * unit) _ (25 * unit) (omega arith) (omega (arith, not_above)))

-- What an update is to do: at a capacity above zero, move the integral and demand by it.
pub record Controls (unit n : ℕ) (m : Measured) (before : ℤ) (c : Controlled) : Type 0 where
  pub moves : Moves unit n m before c.integral
  pub demands : Demands unit n m c.integral c.demand
  pub bounded : c.demand ≤ n

update-Controls :
    (unit n : ℕ) (m : Measured) (before : ℤ)
    → 1 ≤ unit
    → InRange (part unit (suc n)) before
    → Controls unit (suc n) m before (update unit (suc n) m before)
unfolding update
update-Controls unit n m before u h =
    let next = integrate unit (part unit (suc n)) m before in
    let d = demand-Demands unit (suc n) m next u in
    record {
      moves = integrate-Moves unit (suc n) m before h;
      demands = d;
      bounded = Demands-le unit (suc n) m next _ u d;
    }

after_updates-InRange :
    (unit n : ℕ) (ms : List Measured)
    → 1 ≤ unit
    → InRange (part unit (suc n)) (after_updates unit (suc n) ms).integral
unfolding after_updates
after_updates-InRange unit n [] u = ground arith
after_updates-InRange unit n (m ∷ earlier) u =
    (update-Controls unit n m (after_updates unit (suc n) earlier).integral u
      (after_updates-InRange unit n earlier u)).moves.in_range

-- After any updates, whatever was measured, the next one does this, in exact numbers and at a
-- capacity above zero. While the output that the integral would come to is beyond the end that the
-- error pushes towards, the integral stays as it was. Else it moves by a fiftieth of the target
-- less the system's load, or stops at the capacity or its negation, if that is the end that the
-- error pushes towards; it is never outside these two. The demand is the whole percentage nearest
-- to the target less the load of others with the integral added, a half upwards, none if that is
-- below zero, and the capacity if it is above; it is never more than the capacity.
pub after_updates-Controls :
    (unit n : ℕ) (m : Measured) (earlier : List Measured)
    → 1 ≤ unit
    → Controls unit
        (suc n)
        m
        (after_updates unit (suc n) earlier).integral
        (after_updates unit (suc n) (m ∷ earlier))
unfolding after_updates
after_updates-Controls unit n m earlier u =
    update-Controls unit n m (after_updates unit (suc n) earlier).integral u
      (after_updates-InRange unit n earlier u)
