-- ===== src/Gpu/Contention/Gate/Most.antt =====
-- `Update` is the largest share of a sliding window.
use loadmaster.Prelude.{
  ℕ, ◌≤◌, ◌≡◌, refl, inl, inr, Bool, true, List, [], ◌∷◌, ◌++◌, Option, none, some, arith,
  Bool-cases, All, All-append, All-weaken,
}
use loadmaster.Gpu.Contention.Gate.{
  Sighting, IsOrder, pop_old, front_share, keep_front, pop_smaller, push_sighting, update,
}
use loadmaster.Gpu.Contention.Gate.Window.{
  Call, sightings, note, Chronological, InWindow, run, IsMost, Dominated, Represents, FrontIn,
  All-pop_old, pop_old-Decreasing, pop_old-Dominated, pop_old-FrontIn, All-both,
}
use loadmaster.Gpu.Contention.Gate.Smaller.{
  pop_smaller-All, pop_smaller-Decreasing, pop_smaller-Dominated, Dominated-left, Dominated-right,
  Decreasing-snoc,
}

module _ {Share : Type 0} (le : Share → Share → Bool) (o : IsOrder le) where
  reflexive : (v : Share) → le v v ≡ true
  reflexive v = elim (o.total v v) [ inl h ↦ h | inr h ↦ h ]

  Represents-later :
      (hs : List (Sighting Share)) (before now : ℕ) (seen : List (Sighting Share))
      → before ≤ now
      → Represents le hs before seen
      → Represents le hs now seen
  Represents-later hs before now seen later r = record {
    past = All-weaken _ _ hs (λ h p. omega arith) r.past;
    known = r.known;
    covered = All-weaken _ _ hs (λ h c w. c (omega arith)) r.covered;
    ordered = r.ordered;
  }

  -- Old sightings leave: what is left still represents all of them.
  pop_old-Represents :
      (hs : List (Sighting Share)) (now : ℕ) (seen : List (Sighting Share))
      → Represents le hs now seen
      → Represents le hs now (pop_old now seen)
  pop_old-Represents hs now seen r = record {
    past = r.past;
    known = All-pop_old le _ now seen r.known;
    covered = All-weaken _ _ hs (λ h c w. pop_old-Dominated le now h seen w (c w)) r.covered;
    ordered = pop_old-Decreasing le now seen r.ordered;
  }

  still_covered :
      (v : Share) (now : ℕ) (h : Sighting Share) (seen : List (Sighting Share))
      → h.at ≤ now
      → Dominated le h seen
      → Dominated le h (pop_smaller le v seen ++ record { at = now; share = v } ∷ [])
  still_covered v now h seen p d = elim (pop_smaller-Dominated le o v h seen d) [
    | inl kept ↦ Dominated-left le o h _ _ kept
    | inr small ↦ Dominated-right le o h (pop_smaller le v seen) _ (inl (small, p))
  ]

  push-Represents :
      (hs : List (Sighting Share)) (now : ℕ) (v : Share) (seen : List (Sighting Share))
      → Represents le hs now seen
      → Represents le
          (record { at = now; share = v } ∷ hs)
          now
          (pop_smaller le v seen ++ record { at = now; share = v } ∷ [])
  push-Represents hs now v seen r =
      let smaller = pop_smaller-Decreasing le o v seen r.ordered in
      record {
        past = (omega arith, r.past);
        known =
            All-append _ (pop_smaller le v seen) _
              (pop_smaller-All le o _ v seen (All-weaken _ _ seen (λ x k. inr k) r.known))
              (inl refl, tt);
        covered = (
          λ w. Dominated-right le o _ (pop_smaller le v seen) _ (inl (reflexive v, omega arith)),
          All-both le _ _ _ hs (λ h p c w. still_covered v now h seen p (c w)) r.past r.covered,
        );
        ordered = Decreasing-snoc le o (pop_smaller le v seen) _ smaller.0 smaller.1;
      }

  keep_front-FrontIn :
      (now : ℕ) (v : Share) (x : Sighting Share) (rest : List (Sighting Share))
      → InWindow now x
      → FrontIn le now (keep_front le v x rest ++ record { at = now; share = v } ∷ [])
  keep_front-FrontIn now v x [] w = elim (Bool-cases (le x.share v)) [
    | inl small ↦ rw small (omega arith)
    | inr large ↦ rw large w
  ]
  keep_front-FrontIn now v x (y ∷ ys) w = w

  push-FrontIn :
      (now : ℕ) (v : Share) (seen : List (Sighting Share))
      → FrontIn le now seen
      → FrontIn le now (pop_smaller le v seen ++ record { at = now; share = v } ∷ [])
  unfolding pop_smaller
  push-FrontIn now v [] f = omega arith
  push-FrontIn now v (x ∷ xs) f = keep_front-FrontIn now v x (pop_smaller le v xs) f

  update-Represents :
      (hs : List (Sighting Share)) (seen : List (Sighting Share)) (others : Option Share) (now : ℕ)
      → Represents le hs now seen
      → Represents le (note others now hs) now (update le seen others now).seen
        × FrontIn le now (update le seen others now).seen
  unfolding update push_sighting
  update-Represents hs seen none now r =
      (pop_old-Represents hs now seen r, pop_old-FrontIn le now seen)
  update-Represents hs seen (some v) now r = (
    push-Represents hs now v (pop_old now seen) (pop_old-Represents hs now seen r),
    push-FrontIn now v (pop_old now seen) (pop_old-FrontIn le now seen),
  )

  run-Represents :
      (calls : List (Call Share)) (now : ℕ)
      → All (λ c. c.now ≤ now) calls
      → Chronological calls
      → Represents le (sightings calls) now (run le calls)
  unfolding run
  run-Represents [] now a t = record { past = tt; known = tt; covered = tt; ordered = tt }
  run-Represents (c ∷ earlier) now a t =
      Represents-later (sightings (c ∷ earlier)) c.now now (run le (c ∷ earlier)) a.0 (
        (update-Represents (sightings earlier) (run le earlier) c.others c.now
          (run-Represents earlier c.now t.0 t.1)).0)

  Dominated-le :
      (h : Sighting Share) (s : Share) (xs : List (Sighting Share))
      → All (λ y. le y.share s ≡ true) xs
      → Dominated le h xs
      → le h.share s ≡ true
  Dominated-le h s [] a d = absurd d
  Dominated-le h s (x ∷ xs) a d = elim d [
    | inl (larger, later) ↦ o.trans h.share x.share s larger a.0
    | inr further ↦ Dominated-le h s xs a.1 further
  ]

  front-IsMost :
      (hs : List (Sighting Share)) (now : ℕ) (seen : List (Sighting Share))
      → Represents le hs now seen
      → FrontIn le now seen
      → IsMost le hs now (front_share seen)
  front-IsMost hs now [] r f = All-weaken _ _ hs (λ h c w. c w) r.covered
  front-IsMost hs now (x ∷ xs) r f = (
    (x, r.known.0, f, refl),
    All-weaken _ _ hs
        (λ h c w. Dominated-le h x.share (x ∷ xs) (reflexive x.share, r.ordered.0) (c w)) r.covered,
  )

  update_level :
      (seen : List (Sighting Share)) (others : Option Share) (now : ℕ)
      → (update le seen others now).level ≡ front_share (update le seen others now).seen
  unfolding update
  update_level seen others now = refl

  -- Whatever the calls so far, on a clock that never steps back and with shares in a total order,
  -- a call of `Update` returns the most that was seen within 30 s: `nullopt` exactly when no
  -- sighting is that recent, else the share of a recent sighting that no recent one exceeds.
  pub update-IsMost :
      (calls : List (Call Share)) (c : Call Share)
      → Chronological (c ∷ calls)
      → IsMost le (sightings (c ∷ calls)) c.now (update le (run le calls) c.others c.now).level
  update-IsMost calls c t =
      let r =
        update-Represents (sightings calls) (run le calls) c.others c.now
          (run-Represents calls c.now t.0 t.1) in
      rw (update_level (run le calls) c.others c.now) (
        front-IsMost (sightings (c ∷ calls)) c.now (update le (run le calls) c.others c.now).seen
          r.0 r.1)
