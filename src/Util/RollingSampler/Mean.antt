-- ===== src/Util/RollingSampler/Mean.antt =====
-- The mean of a RollingSampler is that of the last values inserted.
use loadmaster.Prelude.{
  ℕ, suc, ◌+◌, ◌≤◌, ◌<◌, min, ◌≡◌, refl, sym, ap, subst, ◌∙◌, Bool, true, false, List, [], ◌∷◌,
  ◌++◌, arith, ltb, length, length-append, get_or, get_or-append_length, set, Bool-cases, inl, inr,
}
use mathlib.Core.List.{append-nil, append_assoc}
use loadmaster.Util.RollingSampler.{
  Sampler, new_sampler, put_on, with_mean, insert_value, insert_values,
}

-- What the running sum relies on: sums may be taken in any order, and a value that was added is
-- taken out again.
pub record IsExact {Value : Type 0} (add sub : Value → Value → Value) : Type 0 where
  pub comm : (a b : Value) → add a b ≡ add b a
  pub assoc : (a b c : Value) → add a (add b c) ≡ add (add a b) c
  pub cancel : (a b : Value) → sub (add a b) a ≡ b

set-append_length :
    {Value : Type 0} (before : List Value) (x : Value) (rest : List Value) (v : Value)
    → set (before ++ x ∷ rest) (length before) v ≡ before ++ v ∷ rest
set-append_length [] x rest v = refl
set-append_length (y ∷ before) x rest v = ap (λ ys. y ∷ ys) (set-append_length before x rest v)

module _ {Value : Type 0} (zero_value : Value) (add sub : Value → Value → Value)
    (mean : Value → ℕ → Value) where
  abbrev pub total : List Value → Value
  total [] = zero_value
  total (x ∷ xs) = add x (total xs)

  -- The values inserted: those that were dropped, and the window, oldest first. In the buffer the
  -- newer part of the window stands before the older one.
  pub record Tracks (capacity : ℕ) (inserted : List Value) (s : Sampler Value) : Type 0 where
    pub dropped : List Value
    pub older : List Value
    pub newer : List Value
    pub all_values : dropped ++ (older ++ newer) ≡ inserted
    pub stored : s.values ≡ newer ++ older
    pub at_oldest : s.index ≡ length newer
    pub sized : s.capacity ≡ capacity
    pub below : length newer < capacity
    pub bounded : length newer + length older ≤ capacity
    pub filling : length newer + length older < capacity → (newer ≡ []) × (dropped ≡ [])
    pub summed : s.sum ≡ total (older ++ newer)

  module _ (exact : IsExact add sub) where
    total-concat : (xs : List Value) (v : Value) → add (total xs) v ≡ total (xs ++ v ∷ [])
    total-concat [] v = exact.comm zero_value v
    total-concat (x ∷ xs) v = sym (exact.assoc x (total xs) v) ∙ ap (add x) (total-concat xs v)

    -- With room left, the value goes to the end.
    put_on-filling :
        (capacity : ℕ) (inserted : List Value) (v : Value) (s : Sampler Value)
        → length s.values < capacity
        → Tracks capacity inserted s
        → Tracks capacity (inserted ++ v ∷ []) (put_on zero_value add sub mean true v s)
    put_on-filling capacity inserted v s room t =
        let size : length s.values ≡ length t.newer + length t.older =
          ap length t.stored ∙ length-append t.newer t.older in
        let (no_newer, no_dropped) = t.filling (omega (arith, size)) in
        let window : t.older ≡ inserted =
          sym (append-nil t.older)
          ∙ ap (λ xs. t.older ++ xs) (sym no_newer)
          ∙ ap (λ xs. xs ++ (t.older ++ t.newer)) (sym no_dropped)
          ∙ t.all_values in
        let counted = length-append t.older (v ∷ []) in
        let old_size : length t.newer ≡ 0 = ap length no_newer in
        record {
          dropped = [];
          older = t.older ++ v ∷ [];
          newer = [];
          all_values = append-nil (t.older ++ v ∷ []) ∙ ap (λ xs. xs ++ v ∷ []) window;
          stored = ap (λ xs. xs ++ v ∷ []) (t.stored ∙ ap (λ xs. xs ++ t.older) no_newer);
          at_oldest = t.at_oldest ∙ old_size;
          sized = t.sized;
          below = omega (arith, room);
          bounded = omega (arith, counted, room, size, old_size);
          filling = λ f. (refl, refl);
          summed =
              ap (λ x. add x v)
                (t.summed
                  ∙ ap (λ xs. total (t.older ++ xs)) no_newer
                  ∙ ap total (append-nil t.older))
              ∙ total-concat t.older v
              ∙ ap total (sym (append-nil (t.older ++ v ∷ [])));
        }

    -- Without room, it replaces the oldest value, `o`.
    module _ (capacity : ℕ) (inserted : List Value) (v : Value) (s : Sampler Value)
        (dropped : List Value) (o : Value) (others newer : List Value)
        (all_values : dropped ++ (o ∷ others ++ newer) ≡ inserted)
        (stored : s.values ≡ newer ++ o ∷ others) (at_oldest : s.index ≡ length newer)
        (sized : s.capacity ≡ capacity) (full : length newer + suc (length others) ≡ capacity)
        (summed : s.sum ≡ total (o ∷ others ++ newer)) where
      oldest : get_or s.values s.index zero_value ≡ o
      oldest =
          ap (λ xs. get_or xs s.index zero_value) stored
          ∙ ap (λ i. get_or (newer ++ o ∷ others) i zero_value) at_oldest
          ∙ get_or-append_length newer o others zero_value

      replaced : set s.values s.index v ≡ newer ++ v ∷ others
      replaced =
          ap (λ xs. set xs s.index v) stored
          ∙ ap (λ i. set (newer ++ o ∷ others) i v) at_oldest
          ∙ set-append_length newer o others v

      resummed :
          add (sub s.sum (get_or s.values s.index zero_value)) v
          ≡ total ((others ++ newer) ++ v ∷ [])
      resummed =
          ap (λ x. add (sub s.sum x) v) oldest
          ∙ ap (λ x. add (sub x o) v) summed
          ∙ ap (λ x. add x v) (exact.cancel o (total (others ++ newer)))
          ∙ total-concat (others ++ newer) v

      moved : (dropped ++ o ∷ []) ++ ((others ++ newer) ++ v ∷ []) ≡ inserted ++ v ∷ []
      moved =
          append_assoc dropped (o ∷ []) ((others ++ newer) ++ v ∷ [])
          ∙ sym (append_assoc dropped (o ∷ others ++ newer) (v ∷ []))
          ∙ ap (λ xs. xs ++ v ∷ []) all_values

    put_on-full :
        (capacity : ℕ) (inserted : List Value) (v : Value) (s : Sampler Value)
        (dropped older newer : List Value)
        → dropped ++ (older ++ newer) ≡ inserted
        → s.values ≡ newer ++ older
        → s.index ≡ length newer
        → s.capacity ≡ capacity
        → length newer < capacity
        → length newer + length older ≡ capacity
        → s.sum ≡ total (older ++ newer)
        → Tracks capacity (inserted ++ v ∷ []) (put_on zero_value add sub mean false v s)
    put_on-full capacity inserted v s dropped [] newer all_values stored at sized below full
          summed =
        absurd (omega arith)
    put_on-full capacity inserted v s dropped (o ∷ []) newer all_values stored at sized below full
          summed =
        let counted = length-append newer (v ∷ []) in
        record {
          dropped = dropped ++ o ∷ [];
          older = newer ++ v ∷ [];
          newer = [];
          all_values =
              ap (λ xs. (dropped ++ o ∷ []) ++ xs) (append-nil (newer ++ v ∷ []))
              ∙ moved capacity inserted v s dropped o [] newer all_values stored at sized full
                  summed;
          stored =
              replaced capacity inserted v s dropped o [] newer all_values stored at sized full
                summed;
          at_oldest = ground (arith, at, sized, full);
          sized = sized;
          below = omega (arith, full);
          bounded = omega (arith, counted, full);
          filling = λ f. absurd (omega (arith, counted, full, f));
          summed =
              resummed capacity inserted v s dropped o [] newer all_values stored at sized full
                summed
              ∙ ap total (sym (append-nil (newer ++ v ∷ [])));
        }
    put_on-full capacity inserted v s dropped (o ∷ p ∷ ps) newer all_values stored at sized below
          full summed =
        let counted = length-append newer (v ∷ []) in
        record {
          dropped = dropped ++ o ∷ [];
          older = p ∷ ps;
          newer = newer ++ v ∷ [];
          all_values =
              ap (λ xs. (dropped ++ o ∷ []) ++ xs) (sym (append_assoc (p ∷ ps) newer (v ∷ [])))
              ∙ moved capacity inserted v s dropped o (p ∷ ps) newer all_values stored at sized full
                  summed;
          stored =
              replaced capacity inserted v s dropped o (p ∷ ps) newer all_values stored at sized
                full summed
              ∙ sym (append_assoc newer (v ∷ []) (p ∷ ps));
          at_oldest = ground (arith, at, sized, full, counted);
          sized = sized;
          below = omega (arith, counted, full);
          bounded = omega (arith, counted, full);
          filling = λ f. absurd (omega (arith, counted, full, f));
          summed =
              resummed capacity inserted v s dropped o (p ∷ ps) newer all_values stored at sized
                full summed
              ∙ ap total (append_assoc (p ∷ ps) newer (v ∷ []));
        }

    put_on-Tracks :
        (capacity : ℕ) (inserted : List Value) (v : Value) (s : Sampler Value) (has_room : Bool)
        → ltb (length s.values) s.capacity ≡ has_room
        → Tracks capacity inserted s
        → Tracks capacity (inserted ++ v ∷ []) (put_on zero_value add sub mean has_room v s)
    put_on-Tracks capacity inserted v s true e t =
        put_on-filling capacity inserted v s (ground (arith, e, t.sized)) t
    put_on-Tracks capacity inserted v s false e t =
        let size : length s.values ≡ length t.newer + length t.older =
          ap length t.stored ∙ length-append t.newer t.older in
        let full : capacity ≤ length s.values = ground (arith, e, t.sized) in
        put_on-full capacity inserted v s t.dropped t.older t.newer t.all_values t.stored
          t.at_oldest t.sized t.below (omega (arith, size, full, t.bounded)) t.summed

    -- The mean is that of the sum over the count.
    abbrev IsMeasured : Sampler Value → Type 0
    IsMeasured s = s.mean_cached ≡ mean s.sum (length s.values)

    with_mean-Tracks :
        (capacity : ℕ) (inserted : List Value) (s : Sampler Value)
        → Tracks capacity inserted s
        → Tracks capacity inserted (with_mean zero_value add sub mean s)
    with_mean-Tracks capacity inserted s t = record {
      dropped = t.dropped;
      older = t.older;
      newer = t.newer;
      all_values = t.all_values;
      stored = t.stored;
      at_oldest = t.at_oldest;
      sized = t.sized;
      below = t.below;
      bounded = t.bounded;
      filling = t.filling;
      summed = t.summed;
    }

    insert_value-Tracks :
        (capacity : ℕ) (inserted : List Value) (v : Value) (s : Sampler Value)
        → Tracks capacity inserted s
        → Tracks capacity (inserted ++ v ∷ []) (insert_value zero_value add sub mean v s)
          × IsMeasured (insert_value zero_value add sub mean v s)
    unfolding insert_value
    insert_value-Tracks capacity inserted v s t =
        let has_room = ltb (length s.values) s.capacity in
        (
          with_mean-Tracks capacity (inserted ++ v ∷ [])
              (put_on zero_value add sub mean has_room v s)
              (put_on-Tracks capacity inserted v s has_room refl t),
          refl,
        )

    insert_values-Tracks :
        (capacity : ℕ) (inserted vs : List Value) (v : Value) (s : Sampler Value)
        → Tracks capacity inserted s
        → Tracks capacity (inserted ++ v ∷ vs) (insert_values zero_value add sub mean (v ∷ vs) s)
          × IsMeasured (insert_values zero_value add sub mean (v ∷ vs) s)
    insert_values-Tracks capacity inserted [] v s t = insert_value-Tracks capacity inserted v s t
    insert_values-Tracks capacity inserted (w ∷ vs) v s t =
        let (next, measured) = insert_value-Tracks capacity inserted v s t in
        let u = insert_value zero_value add sub mean v s in
        let (tracks, last) = insert_values-Tracks capacity (inserted ++ v ∷ []) vs w u next in
        (
          subst (λ xs. Tracks capacity xs (insert_values zero_value add sub mean (w ∷ vs) u))
              (append_assoc inserted (v ∷ []) (w ∷ vs)) tracks,
          last,
        )

    new_sampler-Tracks :
        (capacity : ℕ)
        → 1 ≤ capacity
        → Tracks capacity [] (new_sampler zero_value add sub mean capacity)
    new_sampler-Tracks capacity h = record {
      dropped = [];
      older = [];
      newer = [];
      all_values = refl;
      stored = refl;
      at_oldest = refl;
      sized = refl;
      below = h;
      bounded = omega arith;
      filling = λ f. (refl, refl);
      summed = refl;
    }

  -- The window of a sampler over what was inserted: the last `capacity` values, or all if there
  -- were fewer, whose mean it gives.
  pub record MeanOfLast (capacity : ℕ) (inserted : List Value) (s : Sampler Value) : Type 0 where
    pub dropped : List Value
    pub window : List Value
    pub split : dropped ++ window ≡ inserted
    pub counted : length window ≡ min capacity (length inserted)
    pub given : s.mean_cached ≡ mean (total window) (length window)

  Tracks-MeanOfLast :
      (capacity : ℕ) (inserted : List Value) (s : Sampler Value)
      → Tracks capacity inserted s
      → s.mean_cached ≡ mean s.sum (length s.values)
      → MeanOfLast capacity inserted s
  Tracks-MeanOfLast capacity inserted s t e =
      let size : length s.values ≡ length t.newer + length t.older =
        ap length t.stored ∙ length-append t.newer t.older in
      let window_size = length-append t.older t.newer in
      let whole : length t.dropped + length (t.older ++ t.newer) ≡ length inserted =
        sym (length-append t.dropped (t.older ++ t.newer)) ∙ ap length t.all_values in
      record {
        dropped = t.dropped;
        window = t.older ++ t.newer;
        split = t.all_values;
        counted = elim (Bool-cases (ltb (length t.newer + length t.older) capacity)) [
          | inl f ↦
              let none_dropped : length t.dropped ≡ 0 =
                ap length (t.filling (ground (arith, f))).1 in
              omega (arith, window_size, whole, none_dropped, t.bounded)
          | inr f ↦
              let full : capacity ≤ length t.newer + length t.older = ground (arith, f) in
              omega (arith, window_size, whole, full, t.bounded)
        ];
        given =
            e
            ∙ ap (λ x. mean x (length s.values)) t.summed
            ∙ ap (mean (total (t.older ++ t.newer))) (omega (arith, size, window_size));
      }

  -- With exact sums, the mean that a sampler gives after any number of values is that of the last
  -- `capacity` of them, or of all if there were fewer; the capacity is at least 1.
  pub insert_values-MeanOfLast :
      (exact : IsExact add sub) (capacity : ℕ) (v : Value) (vs : List Value)
      → 1 ≤ capacity
      → MeanOfLast capacity (v ∷ vs) (
          insert_values zero_value add sub mean
            (v ∷ vs)
            (new_sampler zero_value add sub mean capacity))
  insert_values-MeanOfLast exact capacity v vs h =
      let (tracks, measured) =
        insert_values-Tracks exact capacity [] vs v (new_sampler zero_value add sub mean capacity)
          (new_sampler-Tracks exact capacity h) in
      Tracks-MeanOfLast capacity (v ∷ vs) _ tracks measured
