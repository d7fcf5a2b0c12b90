-- ===== src/Gpu/Contention/Nvml/Counting.antt =====
-- How NvmlSource counts the processes that the library lists.
use loadmaster.Prelude.{
  ℕ, zero, suc, ◌+◌, ◌≤◌, ◌≡◌, refl, ap, ◌↔◌, ◌⊎◌, inl, inr, Bool, true, false, not, ◌||◌, Option,
  List, [], ◌∷◌, arith, length, ◌==◌, if◌then◌else◌, Bool-cases,
}
use loadmaster.Gpu.Contention.Monitor.{idle, busy, Observation}
use loadmaster.Gpu.Contention.Nvml.{
  Counted, count_pids, discount_on, discount, verdict_on, with_measure,
}

-- The entries of other processes than ours, and whether ours is listed.
abbrev pub foreign : ℕ → List ℕ → List ℕ
foreign self_pid [] = []
foreign self_pid (pid ∷ pids) =
    if pid == self_pid then foreign self_pid pids else pid ∷ foreign self_pid pids

abbrev pub contains : ℕ → List ℕ → Bool
contains n [] = false
contains n (x ∷ xs) = (x == n) || contains n xs

-- What the loop comes to: `seen` and `n` are what it starts with, `known` whether a pid was kept.
record Tallied (self_pid : ℕ) (pids : List ℕ) (c d : Counted) : Type 0 where
  number : d.others ≡ c.others + length (foreign self_pid pids)
  seen : d.self_seen ≡ (c.self_seen || contains self_pid pids)
  named :
      ((length (foreign self_pid pids) ≡ 0) × (d.other_pid ≡ c.other_pid))
      ⊎ (contains d.other_pid (foreign self_pid pids) ≡ true)

count_pids-Tallied :
    (self_pid : ℕ) (pids : List ℕ) (c : Counted)
    → Tallied self_pid pids c (count_pids self_pid pids c)
count_pids-Tallied self_pid [] c = record {
  number = omega arith;
  seen = ground arith;
  named = inl (refl, refl);
}
count_pids-Tallied self_pid (pid ∷ pids) c = elim (Bool-cases (pid == self_pid)) [
  | inl ours ↦
      let next : Counted = record c { self_seen = true } in
      let t : Tallied self_pid pids next (count_pids self_pid pids next) =
        count_pids-Tallied self_pid pids next in
      let same : count_pids self_pid (pid ∷ pids) c ≡ count_pids self_pid pids next =
        ap
          (λ b.
            count_pids self_pid pids
              (if b then next else record c { others = suc c.others; other_pid = pid }))
          ours in
      rw same (record {
        number = rw ours t.number;
        seen = rw ours (ground (arith, t.seen));
        named = rw ours t.named;
      })
  | inr other ↦
      let next : Counted = record c { others = suc c.others; other_pid = pid } in
      let t : Tallied self_pid pids next (count_pids self_pid pids next) =
        count_pids-Tallied self_pid pids next in
      let same : count_pids self_pid (pid ∷ pids) c ≡ count_pids self_pid pids next =
        ap (λ b. count_pids self_pid pids (if b then record c { self_seen = true } else next))
          other in
      rw same (record {
        number = rw other (omega (arith, t.number));
        seen = rw other t.seen;
        named = inr (rw other (ground (arith, t.named)));
      })
]

-- A device is busy if another process is listed beside ours, and, when ours is not listed under its
-- number, if two are; the process named is one of them; else it is idle.
pub record Counts {Share : Type 0} (self_pid : ℕ) (pids : List ℕ) (r : Observation Share)
    : Type 0 where
  pub busy_iff :
      (r.verdict ≡ busy)
      ↔ ((if contains self_pid pids then 1 else 2) ≤ length (foreign self_pid pids))
  pub named : r.verdict ≡ busy → contains r.pid (foreign self_pid pids) ≡ true
  pub known : (r.verdict ≡ busy) ⊎ (r.verdict ≡ idle)

module _ {Share : Type 0} (o : Observation Share) where
  abbrev pub judged : Counted → Observation Share
  judged c = record o { verdict = verdict_on c.others; pid = c.other_pid }

  discount_on-Counts :
      (self_pid : ℕ) (pids : List ℕ) (anonymous : Bool) (n : ℕ) (c : Counted)
      → c.others ≡ n
      → n ≡ length (foreign self_pid pids)
      → not (contains self_pid pids) ≡ anonymous
      → ((n ≡ 0) ⊎ (contains c.other_pid (foreign self_pid pids) ≡ true))
      → Counts self_pid pids (judged (discount_on anonymous n c))
  discount_on-Counts self_pid pids true zero c e l a k = record {
    busy_iff = ground (arith, e, l, a);
    named = λ b. ground (arith, e, b);
    known = ground (arith, e);
  }
  discount_on-Counts self_pid pids true (suc zero) c e l a k = record {
    busy_iff = ground (arith, l, a);
    named = λ b. cc;
    known = inr refl;
  }
  discount_on-Counts self_pid pids true (suc (suc n)) c e l a k = record {
    busy_iff = ground (arith, l, a);
    named = λ b. ground (arith, k);
    known = inl refl;
  }
  discount_on-Counts self_pid pids false zero c e l a k = record {
    busy_iff = ground (arith, e, l, a);
    named = λ b. ground (arith, e, b);
    known = ground (arith, e);
  }
  discount_on-Counts self_pid pids false (suc n) c e l a k = record {
    busy_iff = ground (arith, e, l, a);
    named = λ b. ground (arith, k);
    known = ground (arith, e);
  }

  pub counted-Counts :
      (self_pid : ℕ) (pids : List ℕ)
      → Counts self_pid pids (
          judged (
            discount
              (count_pids self_pid pids (record { others = 0; other_pid = 0; self_seen = false }))))
  counted-Counts self_pid pids =
      let start : Counted = record { others = 0; other_pid = 0; self_seen = false } in
      let c = count_pids self_pid pids start in
      let t : Tallied self_pid pids start c = count_pids-Tallied self_pid pids start in
      discount_on-Counts self_pid pids (not c.self_seen) c.others c refl (omega (arith, t.number))
        (ground (arith, t.seen)) (ground (arith, t.named, t.number))

  pub with_measure-Counts :
      (self_pid : ℕ) (pids : List ℕ) (n : ℕ) (measured : Option Share) (r : Observation Share)
      → Counts self_pid pids r
      → Counts self_pid pids (with_measure n measured r)
  with_measure-Counts self_pid pids zero measured r h = h
  with_measure-Counts self_pid pids (suc n) measured r h = record {
    busy_iff = h.busy_iff;
    named = h.named;
    known = h.known;
  }
