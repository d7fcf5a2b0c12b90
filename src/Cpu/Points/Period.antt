-- ===== src/Cpu/Points/Period.antt =====
-- One period of the walk: every point once.
use mathlib.Core.List.{append_assoc}
use loadmaster.Prelude.{
  ℕ, suc, ◌+◌, ◌≤◌, ◌≡◌, refl, sym, ap, ◌∙◌, false, List, [], ◌∷◌, ◌++◌, arith, ◌==◌, length,
  length-append, get_or-append_length,
}
use loadmaster.Core.Options.Indices.Distinct.{count}
use loadmaster.Cpu.Points.{
  Walk, Shuffled, interval_ms, increased, shuffle_schedule_points, is_early, take_point,
  update_load_target,
}

-- What the code relies on of `std::shuffle`: it permutes.
pub record IsShuffle {Generator : Type 0} (shuffle : Generator → List ℕ → Shuffled Generator)
    : Type 0 where
  pub keeps_length : (g : Generator) (xs : List ℕ) → length (shuffle g xs).points ≡ length xs
  pub keeps_points :
      (g : Generator) (xs : List ℕ) (a : ℕ) → count a (shuffle g xs).points ≡ count a xs

module _ {Generator : Type 0} (shuffle : Generator → List ℕ → Shuffled Generator) where
  -- The targets after each of the calls, at the times given.
  unfoldable pub targets : Walk Generator → List ℕ → List ℕ
  unfolding update_load_target
  targets w [] = []
  targets w (t ∷ ts) =
      (update_load_target shuffle w t).load_target ∷ targets (update_load_target shuffle w t) ts

  unfoldable pub walk : Walk Generator → List ℕ → Walk Generator
  unfolding update_load_target
  walk w [] = w
  walk w (t ∷ ts) = walk (update_load_target shuffle w t) ts

  -- Each call at least an interval after the one before.
  abbrev pub Spaced : ℕ → List ℕ → Type 0
  Spaced last [] = Unit
  Spaced last (t ∷ ts) = (last + interval_ms ≤ t) × Spaced t ts

  -- The walk stands in front of `suffix`.
  record At (prefix suffix : List ℕ) (w : Walk Generator) : Type 0 where
    pub points : w.schedule_points ≡ prefix ++ suffix
    pub index : w.point_idx ≡ length prefix

  increased_last :
      (prefix : List ℕ) (x : ℕ) → increased (length prefix) (length (prefix ++ x ∷ [])) ≡ 0
  increased_last prefix x = ground (arith, length-append prefix (x ∷ []))

  increased_inner :
      (prefix : List ℕ) (x y : ℕ) (rest : List ℕ)
      → increased (length prefix) (length (prefix ++ x ∷ y ∷ rest)) ≡ length (prefix ++ x ∷ [])
  increased_inner prefix x y rest =
      ground (arith, length-append prefix (x ∷ y ∷ rest), length-append prefix (x ∷ []))

  -- A call that is due, with nothing to shuffle.
  update-plain :
      (w : Walk Generator) (t : ℕ)
      → is_early shuffle w t ≡ false
      → (w.point_idx == 0) ≡ false
      → update_load_target shuffle w t ≡ take_point shuffle w t
  unfolding update_load_target
  update-plain w t due inner = rw (due, inner) refl

  update-shuffled :
      (w : Walk Generator) (t : ℕ)
      → is_early shuffle w t ≡ false
      → w.point_idx ≡ 0
      → update_load_target shuffle w t ≡ take_point shuffle (shuffle_schedule_points shuffle w) t
  unfolding update_load_target
  update-shuffled w t due first = rw (due, first) refl

  -- What the rest of a period does, from the point `x` on.
  record Rest (prefix : List ℕ) (x : ℕ) (rest : List ℕ) (taken : Walk Generator) (ts : List ℕ)
      : Type 0 where
    pub targets_rest : targets taken ts ≡ rest
    pub index_end : (walk taken ts).point_idx ≡ 0
    pub points_end : (walk taken ts).schedule_points ≡ prefix ++ x ∷ rest

  targets-cons :
      (w w2 : Walk Generator) (t : ℕ) (ts : List ℕ)
      → update_load_target shuffle w t ≡ w2
      → targets w (t ∷ ts) ≡ w2.load_target ∷ targets w2 ts
  unfolding targets
  targets-cons w w2 t ts e = ap (λ v. v.load_target ∷ targets v ts) e

  walk-cons :
      (w w2 : Walk Generator) (t : ℕ) (ts : List ℕ)
      → update_load_target shuffle w t ≡ w2
      → walk w (t ∷ ts) ≡ walk w2 ts
  unfolding walk
  walk-cons w w2 t ts e = ap (λ v. walk v ts) e

  taken_target :
      (prefix : List ℕ) (x : ℕ) (rest : List ℕ) (w : Walk Generator) (t : ℕ)
      → At prefix (x ∷ rest) w
      → (take_point shuffle w t).load_target ≡ x
  taken_target prefix x rest w t at =
      rw (at.index, at.points) (get_or-append_length prefix x rest 0)

  taken-At :
      (prefix : List ℕ) (x y : ℕ) (rest : List ℕ) (w : Walk Generator) (t : ℕ)
      → At prefix (x ∷ y ∷ rest) w
      → At (prefix ++ x ∷ []) (y ∷ rest) (take_point shuffle w t)
  taken-At prefix x y rest w t at = record {
    points = rw append_assoc at.points;
    index = rw (at.index, at.points) (increased_inner prefix x y rest);
  }

  not_first : (prefix : List ℕ) (x n : ℕ) → n ≡ length (prefix ++ x ∷ []) → (n == 0) ≡ false
  not_first prefix x n h = ground (arith, length-append prefix (x ∷ []))

  walk-Rest :
      (prefix : List ℕ) (x : ℕ) (rest : List ℕ) (w : Walk Generator) (t : ℕ) (ts : List ℕ)
      → At prefix (x ∷ rest) w
      → Spaced t ts
      → length ts ≡ length rest
      → Rest prefix x rest (take_point shuffle w t) ts
  unfolding targets walk
  walk-Rest prefix x [] w t [] at spaced same = record {
    targets_rest = refl;
    index_end = rw (at.index, at.points) (increased_last prefix x);
    points_end = at.points;
  }
  walk-Rest prefix x [] w t (t2 ∷ ts) at spaced same = absurd (omega arith)
  walk-Rest prefix x (y ∷ rest) w t [] at spaced same = absurd (omega arith)
  walk-Rest prefix x (y ∷ rest) w t (t2 ∷ ts) at spaced same =
      let next = taken-At prefix x y rest w t at in
      let step =
        update-plain (take_point shuffle w t) t2 (ground arith) (not_first prefix x _ next.index) in
      let r =
        walk-Rest (prefix ++ x ∷ []) y rest (take_point shuffle w t) t2 ts next spaced.1
          (omega arith) in
      record {
        targets_rest =
            targets-cons (take_point shuffle w t) _ t2 ts step
            ∙ ap (λ l. l ∷ targets (take_point shuffle (take_point shuffle w t) t2) ts)
                (taken_target (prefix ++ x ∷ []) y rest (take_point shuffle w t) t2 next)
            ∙ ap (λ l. y ∷ l) r.targets_rest;
        index_end =
            ap (λ v. v.point_idx) (walk-cons (take_point shuffle w t) _ t2 ts step) ∙ r.index_end;
        points_end =
            ap (λ v. v.schedule_points) (walk-cons (take_point shuffle w t) _ t2 ts step)
            ∙ r.points_end
            ∙ append_assoc prefix (x ∷ []) (y ∷ rest);
      }

  uncons : (xs : List ℕ) (n : ℕ) → suc n ≡ length xs → (x : ℕ) × (rest : List ℕ) × (xs ≡ x ∷ rest)
  uncons [] n h = absurd (omega arith)
  uncons (x ∷ rest) n h = (x, rest, refl)

  -- From the start of a period, as many calls as there are points, each an interval or more after
  -- the one before, take every point of the schedule exactly as often as it stands there, and end
  -- at the start of a period on the same points: the average load of a period is that of the
  -- schedule, whatever the shuffles.
  pub period-takes_all :
      IsShuffle shuffle
      → (w : Walk Generator) (t : ℕ) (ts : List ℕ) → w.point_idx ≡ 0
      → is_early shuffle w t ≡ false
      → Spaced t ts
      → length (t ∷ ts) ≡ length w.schedule_points
      → ((a : ℕ) → count a (targets w (t ∷ ts)) ≡ count a w.schedule_points)
        × ((walk w (t ∷ ts)).point_idx ≡ 0)
        × ((a : ℕ) → count a (walk w (t ∷ ts)).schedule_points ≡ count a w.schedule_points)
  unfolding shuffle_schedule_points
  period-takes_all law w t ts start due spaced same =
      let w1 = shuffle_schedule_points shuffle w in
      let (x, rest, split) =
        uncons w1.schedule_points (length ts)
          (same ∙ sym (law.keeps_length w.generator w.schedule_points)) in
      let at : At [] (x ∷ rest) w1 = record { points = split; index = start } in
      let step = update-shuffled w t due start in
      let r =
        walk-Rest [] x rest w1 t ts at spaced
          (omega (arith, ap length split, law.keeps_length w.generator w.schedule_points)) in
      let all_targets =
        targets-cons w _ t ts step
        ∙ ap (λ l. l ∷ targets (take_point shuffle w1 t) ts) (taken_target [] x rest w1 t at)
        ∙ ap (λ l. x ∷ l) r.targets_rest
        ∙ sym split in
      let all_points =
        ap (λ v. v.schedule_points) (walk-cons w _ t ts step) ∙ r.points_end ∙ sym split in
      (
        λ a. ap (count a) all_targets ∙ law.keeps_points w.generator w.schedule_points a,
        ap (λ v. v.point_idx) (walk-cons w _ t ts step) ∙ r.index_end,
        λ a. ap (count a) all_points ∙ law.keeps_points w.generator w.schedule_points a,
      )
