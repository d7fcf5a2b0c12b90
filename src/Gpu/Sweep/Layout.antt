-- ===== src/Gpu/Sweep/Layout.antt =====
-- What `Reset` lays out: windows that tile each segment of the block.
use mathlib.Core.List.{append_assoc}
use loadmaster.Prelude.{
  ℕ, zero, suc, ◌+◌, ◌-◌, ◌*◌, ◌/◌, ◌%◌, ◌^◌, ◌≤◌, ◌<◌, min, ◌≡◌, refl, inl, inr, List, [], ◌∷◌,
  ◌++◌, subst, arith, tests, ltb, lt→ltb, Bool-cases, length, get_or, All, All-append,
  length-append, length-concat, get_or-append_length,
}
use loadmaster.Gpu.Sweep.{
  Window, MemSweep, u32_mod, u64_mod, window_max_bytes, word_bytes, push_window, segment_windows,
  all_windows, reset,
}

-- A window that the kernel can index: inside its segment, and short enough for 32-bit offsets.
pub record Fits (segments : List ℕ) (w : Window) : Type 0 where
  pub nonempty : 0 < w.words
  pub short : w.words ≤ 2 ^ 28
  pub inside : (w.offset_words + w.words) * 4 ≤ get_or segments w.segment 0
  pub exists : w.segment < length segments

-- The windows `ws` of segment `seg` follow one another with no gap, from word `start` to `end`.
abbrev pub Tiles : ℕ → ℕ → ℕ → List Window → Type 0
Tiles seg start end [] = start ≡ end
Tiles seg start end (w ∷ ws) =
    (w.segment ≡ seg) × (w.offset_words ≡ start) × Tiles seg (start + w.words) end ws

-- `ws` covers the segments from number `seg` on, each from its first whole word to its last.
abbrev pub Covers : ℕ → List ℕ → List Window → Type 0
Covers seg [] ws = ws ≡ []
Covers seg (bytes ∷ more) ws =
    (front : List Window) × (rest : List Window) × (ws ≡ front ++ rest)
    × Tiles seg 0 (bytes / 4) front
    × Covers (suc seg) more rest

-- The segments are in memory, so their sizes leave room for one more step of `offset`.
abbrev pub IsSegment : ℕ → Type 0
IsSegment bytes = bytes ≤ u64_mod - window_max_bytes

All-push_window :
    (segments : List ℕ) (seg offset words : ℕ) (rest : List Window)
    → seg < length segments
    → words ≤ 2 ^ 28
    → (offset + words) * 4 ≤ get_or segments seg 0
    → All (Fits segments) rest
    → All (Fits segments) (push_window seg offset words rest)
All-push_window segments seg offset words rest lt short inside all =
    elim (Bool-cases (ltb 0 words)) [
      | inl some_words ↦
          rw some_words
            (record { nonempty = omega tests; short = short; inside = inside; exists = lt }, all)
      | inr none_left ↦ rw none_left all
    ]

-- `offset += kGpuMemSweepWindowMaxBytes` does not wrap inside a segment.
next_offset :
    (bytes offset : ℕ)
    → IsSegment bytes
    → offset < bytes
    → (offset + window_max_bytes) % u64_mod ≡ offset + window_max_bytes
next_offset bytes offset b lt = omega arith

segment_windows-Fits :
    (fuel seg bytes offset : ℕ) (segments : List ℕ)
    → IsSegment bytes
    → get_or segments seg 0 ≡ bytes
    → seg < length segments
    → offset % window_max_bytes ≡ 0
    → All (Fits segments) (segment_windows fuel seg bytes offset)
unfolding segment_windows
segment_windows-Fits zero seg bytes offset segments b e lt o = tt
segment_windows-Fits (suc fuel) seg bytes offset segments b e lt o =
    elim (Bool-cases (ltb offset bytes)) [
      | inl more ↦
          let below : offset < bytes = omega tests in
          rw (more, next_offset bytes offset b below)
            (All-push_window segments seg _ _ _ lt (omega arith) (rw e (omega arith))
              (segment_windows-Fits fuel seg bytes _ segments b e lt (omega arith)))
      | inr done ↦ rw done tt
    ]

Tiles-push_window :
    (seg offset words end : ℕ) (rest : List Window)
    → Tiles seg (offset + words) end rest
    → Tiles seg offset end (push_window seg offset words rest)
Tiles-push_window seg offset zero end rest t = subst (λ n. Tiles seg n end rest) (omega arith) t
Tiles-push_window seg offset (suc words) end rest t =
    rw (lt→ltb 0 (suc words) (omega arith)) (refl, refl, t)

segment_windows-Tiles :
    (fuel seg bytes offset : ℕ)
    → IsSegment bytes
    → offset % window_max_bytes ≡ 0
    → bytes < offset + fuel * window_max_bytes
    → Tiles seg (min offset bytes / 4) (bytes / 4) (segment_windows fuel seg bytes offset)
unfolding segment_windows
segment_windows-Tiles zero seg bytes offset b o f = omega arith
segment_windows-Tiles (suc fuel) seg bytes offset b o f = elim (Bool-cases (ltb offset bytes)) [
  | inl more ↦
      let below : offset < bytes = omega tests in
      let here : min offset bytes / 4 ≡ offset / 4 = omega arith in
      let after : min (offset + window_max_bytes) bytes / 4
          ≡ offset / 4 + (min (bytes - offset) window_max_bytes / word_bytes) % u32_mod =
        omega arith in
      rw (more, next_offset bytes offset b below, here)
        (Tiles-push_window seg (offset / 4) ((min (bytes - offset) window_max_bytes / 4) % u32_mod)
          (bytes / 4) (segment_windows fuel seg bytes (offset + window_max_bytes))
          (rw (← after) (
            segment_windows-Tiles fuel seg bytes (offset + window_max_bytes) b (omega arith)
              (omega arith))))
  | inr done ↦ rw done (omega tests)
]

all_windows-Fits :
    (before rest : List ℕ)
    → All IsSegment rest
    → All (Fits (before ++ rest)) (all_windows (length before) rest)
unfolding all_windows
all_windows-Fits before [] a = tt
all_windows-Fits before (bytes ∷ more) a =
    All-append (Fits (before ++ bytes ∷ more)) (segment_windows _ (length before) bytes 0) _
      (segment_windows-Fits _ (length before) bytes 0 _ a.0
        (get_or-append_length before bytes more 0)
        (omega (arith, length-append before (bytes ∷ more))) refl)
      (subst (λ n. All (Fits (before ++ bytes ∷ more)) (all_windows n more))
        (length-concat before bytes)
        (rw append_assoc at (all_windows-Fits (before ++ bytes ∷ []) more a.1)))

min_zero : (n : ℕ) → min 0 n / 4 ≡ 0
min_zero n = omega arith

all_windows-Covers :
    (seg : ℕ) (segments : List ℕ)
    → All IsSegment segments
    → Covers seg segments (all_windows seg segments)
unfolding all_windows
all_windows-Covers seg [] a = refl
all_windows-Covers seg (bytes ∷ more) a = (
  segment_windows (bytes / window_max_bytes + 2) seg bytes 0,
  all_windows (suc seg) more,
  refl,
  rw (min_zero bytes) at
      (segment_windows-Tiles (bytes / window_max_bytes + 2) seg bytes 0 a.0 refl (omega arith)),
  all_windows-Covers (suc seg) more a.1,
)

-- For segments that leave room for one step of the offset below 2^64, the windows that `Reset`
-- makes are not empty, hold at most 2^28 words and lie inside their segments; in order they
-- cover every whole word of every segment, with no gap and no overlap; and the walk starts at
-- the first of them with nothing pending.
pub reset-Covers :
    (s : MemSweep) (segments : List ℕ)
    → All IsSegment segments
    → All (Fits segments) (reset s segments).windows
      × Covers 0 segments (reset s segments).windows
      × ((reset s segments).window ≡ 0)
      × ((reset s segments).cursor ≡ 0)
      × ((reset s segments).pending_bytes ≡ 0)
unfolding reset
reset-Covers s segments a =
    (all_windows-Fits [] segments a, all_windows-Covers 0 segments a, refl, refl, refl)
