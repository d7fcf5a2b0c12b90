-- ===== src/Cpu/Stat/Above.antt =====
-- The groups above a path, and the walk from parent to parent through them.
use mathlib.Core.List.{append_assoc}
use loadmaster.Prelude.{
  ℕ, suc, ◌+◌, ◌≤◌, ◌≡◌, refl, sym, ap, ◌∙◌, subst, ◌⊎◌, inl, inr, Bool, true, false, Option, none,
  some, [], ◌∷◌, ◌++◌, Text, text_eq_iff, length, length-append, arith,
}
use loadmaster.Cpu.Stat.{with_first, up_to_slash, root, parent_on, is_top}

abbrev pub is_empty : Text → Bool
is_empty [] = true
is_empty (c ∷ s) = false

-- A group is the path itself, what stands before one of its slashes, or the root of the hierarchy.
abbrev pub IsAbove : Text → Text → Type 0
IsAbove path group =
    (group ≡ path)
    ⊎ (((is_empty path ≡ false) × (group ≡ root))
        ⊎ ((is_empty group ≡ false) × ((rest : Text) × (group ++ b'/' ∷ rest ≡ path))))

abbrev cut_on : Text → Option Text → Text
cut_on group none = group
cut_on group (some q) = group ++ b'/' ∷ q

with_first_slash : (found : Option Text) → with_first b'/' found ≡ some (cut_on [] found)
with_first_slash none = refl
with_first_slash (some q) = refl

up_to_slash-append :
    (group rest : Text)
    → up_to_slash (group ++ b'/' ∷ rest) ≡ some (cut_on group (up_to_slash rest))
unfolding up_to_slash
up_to_slash-append [] rest = with_first_slash (up_to_slash rest)
up_to_slash-append (c ∷ group) rest =
    ap (with_first c) (up_to_slash-append group rest) ∙ cut_on-cons c group (up_to_slash rest)
  where
    cut_on-cons :
        (c : ℕ) (group : Text) (found : Option Text)
        → some (c ∷ cut_on group found) ≡ some (cut_on (c ∷ group) found)
    cut_on-cons c group none = refl
    cut_on-cons c group (some q) = refl

-- What stands up to the last slash is a part of the path.
with_first-part :
    (c : ℕ) (s : Text) (found : Option Text) (p : Text)
    → ((q : Text) → found ≡ some q → (rest : Text) × (q ++ b'/' ∷ rest ≡ s))
    → with_first c found ≡ some p
    → (rest : Text) × (p ++ b'/' ∷ rest ≡ c ∷ s)
with_first-part c s none p k e = (s, ground (arith, e))
with_first-part c s (some q) p k e = let (rest, same) = k q refl in (rest, ground (arith, e, same))

up_to_slash-part :
    (path p : Text) → up_to_slash path ≡ some p → (rest : Text) × (p ++ b'/' ∷ rest ≡ path)
unfolding up_to_slash
up_to_slash-part [] p e = absurd (ground (arith, e))
up_to_slash-part (c ∷ s) p e =
    with_first-part c s (up_to_slash s) p (λ q k. up_to_slash-part s q k) e

no_part_of_root : (g : Text) (c : ℕ) (rest : Text) → c ∷ (g ++ b'/' ∷ rest) ≡ root → ⊥
no_part_of_root [] c rest e = cc e
no_part_of_root (d ∷ g) c rest e = cc e

pub parent_on-IsAbove :
    (path group : Text) (found : Option Text)
    → up_to_slash path ≡ found
    → is_empty path ≡ false
    → IsAbove (parent_on found) group
    → IsAbove path group
parent_on-IsAbove path group found e k (inr (inl (h, at_root))) = inr (inl (k, at_root))
parent_on-IsAbove path group none e k (inl at_root) = inr (inl (k, at_root))
parent_on-IsAbove path group (some []) e k (inl at_root) = inr (inl (k, at_root))
parent_on-IsAbove path group (some (c ∷ s)) e k (inl same) = inr (
    inr (
      ap is_empty same,
      (let (rest, part) = up_to_slash-part path (c ∷ s) e in
          (rest, ap (λ t. t ++ b'/' ∷ rest) same ∙ part)),
    ))
parent_on-IsAbove path [] found e k (inr (inr (h, (rest, part)))) = absurd (cc h)
parent_on-IsAbove path (c ∷ g) none e k (inr (inr (h, (rest, part)))) =
    absurd (no_part_of_root g c rest part)
parent_on-IsAbove path (c ∷ g) (some []) e k (inr (inr (h, (rest, part)))) =
    absurd (no_part_of_root g c rest part)
parent_on-IsAbove path (c ∷ g) (some (d ∷ s)) e k (inr (inr (h, (rest, part)))) =
    let (more, whole) = up_to_slash-part path (d ∷ s) e in
    inr (
      inr (
        h,
        (
          rest ++ b'/' ∷ more,
          sym (append_assoc (c ∷ g) (b'/' ∷ rest) (b'/' ∷ more))
              ∙ ap (λ t. t ++ b'/' ∷ more) part
              ∙ whole,
        ),
      ))

parent_on-nonempty : (found : Option Text) → is_empty (parent_on found) ≡ false
parent_on-nonempty none = refl
parent_on-nonempty (some []) = refl
parent_on-nonempty (some (c ∷ s)) = refl

cut_on-IsAbove :
    (c : ℕ) (g : Text) (found : Option Text)
    → IsAbove (parent_on (some (cut_on (c ∷ g) found))) (c ∷ g)
cut_on-IsAbove c g none = inl refl
cut_on-IsAbove c g (some q) = inr (inr (refl, (q, refl)))

-- What is above a path, and not the path, is above its parent.
pub IsAbove-parent_on :
    (path group : Text)
    → IsAbove path group
    → (group ≡ path) ⊎ IsAbove (parent_on (up_to_slash path)) group
IsAbove-parent_on path group (inl same) = inl same
IsAbove-parent_on path group (inr (inl (h, at_root))) =
    inr (inr (inl (parent_on-nonempty (up_to_slash path), at_root)))
IsAbove-parent_on path [] (inr (inr (h, (rest, part)))) = absurd (cc h)
IsAbove-parent_on path (c ∷ g) (inr (inr (h, (rest, part)))) = inr (
    subst (λ t. IsAbove (parent_on (up_to_slash t)) (c ∷ g)) part
      (subst (λ found. IsAbove (parent_on found) (c ∷ g)) (sym (up_to_slash-append (c ∷ g) rest))
        (cut_on-IsAbove c g (up_to_slash rest))))

pub top-IsAbove : (path group : Text) → is_top path ≡ true → IsAbove path group → group ≡ path
top-IsAbove path group t (inl same) = same
top-IsAbove [] group t (inr (inl (h, at_root))) = absurd (cc h)
top-IsAbove (c ∷ s) group t (inr (inl (h, at_root))) =
    at_root ∙ sym ((text_eq_iff (c ∷ s) root).0 t)
top-IsAbove path [] t (inr (inr (h, (rest, part)))) = absurd (cc h)
top-IsAbove [] (c ∷ g) t (inr (inr (h, (rest, part)))) = absurd (cc part)
top-IsAbove (d ∷ s) (c ∷ g) t (inr (inr (h, (rest, part)))) =
    absurd (no_part_of_root g c rest (part ∙ (text_eq_iff (d ∷ s) root).0 t))

pub top-nonempty : (path : Text) → is_top path ≡ false → is_empty path ≡ false
top-nonempty [] t = absurd (cc t)
top-nonempty (c ∷ s) t = refl

-- The walk ends at the root, and each parent but the root is shorter.
abbrev pub Enough : ℕ → Text → Type 0
Enough fuel path = (1 ≤ fuel) × ((is_top path ≡ true) ⊎ (length path + 2 ≤ fuel))

pub parent_on-Enough :
    (fuel : ℕ) (path : Text) (found : Option Text)
    → up_to_slash path ≡ found
    → length path + 2 ≤ suc fuel
    → is_empty path ≡ false
    → Enough fuel (parent_on found)
parent_on-Enough fuel [] found e h k = absurd (cc k)
parent_on-Enough fuel (d ∷ path) none e h k = (omega (arith, h), inl (ground arith))
parent_on-Enough fuel (d ∷ path) (some []) e h k = (omega (arith, h), inl (ground arith))
parent_on-Enough fuel (d ∷ path) (some (c ∷ s)) e h k =
    let (rest, part) = up_to_slash-part (d ∷ path) (c ∷ s) e in
    let size : length (d ∷ path) ≡ length (c ∷ s) + suc (length rest) =
      ap length (sym part) ∙ length-append (c ∷ s) (b'/' ∷ rest) in
    (omega (arith, h), inr (omega (arith, h, size)))
