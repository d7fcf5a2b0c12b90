-- ===== src/Gpu/Sweep/Windows.antt =====
-- The segments that the windows of a sweep name.
use loadmaster.Prelude.{
  ℕ, zero, suc, ◌+◌, ◌<◌, ◌≤◌, ◌/◌, ◌%◌, max, ◌≡◌, ◌≢◌, refl, ◌||◌, List, [], ◌∷◌, arith, ltb, ◌==◌,
  Bool-cases, inl, inr, length, get_or, All, All-append,
}
use loadmaster.Gpu.Sweep.{
  Window, MemSweep, no_window, push_window, segment_windows, all_windows, reset, skip, Launch,
  launch, charge, next, bytes_per_access, u64_mod,
}

abbrev pub IsBelow : ℕ → Window → Type 0
IsBelow n w = w.segment < n

push_window-IsBelow :
    (n seg offset words : ℕ) (rest : List Window)
    → seg < n
    → All (IsBelow n) rest
    → All (IsBelow n) (push_window seg offset words rest)
push_window-IsBelow n seg offset words rest h a = elim (Bool-cases (ltb 0 words)) [
  | inl e ↦ rw e (h, a)
  | inr e ↦ rw e a
]

segment_windows-IsBelow :
    (n fuel seg bytes offset : ℕ)
    → seg < n
    → All (IsBelow n) (segment_windows fuel seg bytes offset)
unfolding segment_windows
segment_windows-IsBelow n zero seg bytes offset h = tt
segment_windows-IsBelow n (suc fuel) seg bytes offset h = elim (Bool-cases (ltb offset bytes)) [
  | inl e ↦ rw e (push_window-IsBelow n seg _ _ _ h (segment_windows-IsBelow n fuel seg bytes _ h))
  | inr e ↦ rw e tt
]

all_windows-IsBelow :
    (n seg : ℕ) (segments : List ℕ)
    → seg + length segments ≤ n
    → All (IsBelow n) (all_windows seg segments)
unfolding all_windows
all_windows-IsBelow n seg [] h = tt
all_windows-IsBelow n seg (bytes ∷ more) h =
    All-append (IsBelow n) _ _ (segment_windows-IsBelow n _ seg bytes 0 (omega arith))
      (all_windows-IsBelow n (suc seg) more (omega arith))

-- A new layout names only its own segments.
pub reset-IsBelow :
    (s : MemSweep) (segments : List ℕ) → All (IsBelow (length segments)) (reset s segments).windows
unfolding reset
reset-IsBelow s segments = all_windows-IsBelow (length segments) 0 segments (omega arith)

in_window :
    (n i : ℕ) (ws : List Window)
    → All (IsBelow n) ws
    → (get_or ws i no_window).words ≢ 0
    → (get_or ws i no_window).segment < n
in_window n i [] a some_words = absurd (some_words refl)
in_window n zero (w ∷ ws) a some_words = a.0
in_window n (suc i) (w ∷ ws) a some_words = in_window n i ws a.1 some_words

-- A launch keeps the layout, and names a segment of it where it carries traffic.
pub record KeepsLayout (n : ℕ) (ws : List Window) (l : Launch) : Type 0 where
  pub kept : l.sweep.windows ≡ ws
  pub named : l.args.words ≢ 0 → l.args.segment < n

launch-KeepsLayout :
    (n : ℕ) (s : MemSweep) (i loops threads per_thread : ℕ)
    → All (IsBelow n) s.windows
    → KeepsLayout n s.windows (launch s (get_or s.windows i no_window) loops threads per_thread)
unfolding launch
launch-KeepsLayout n s i loops threads per_thread a = record {
  kept = ground arith;
  named = λ h. in_window n i s.windows a h;
}

charge-KeepsLayout :
    (n : ℕ) (s : MemSweep) (loops threads : ℕ)
    → All (IsBelow n) s.windows
    → KeepsLayout n s.windows (charge s loops threads)
unfolding charge
charge-KeepsLayout n s loops threads a =
    elim (Bool-cases (s.pending_bytes / bytes_per_access / threads == 0)) [
      | inl e ↦ rw e (record { kept = refl; named = λ h. absurd (h refl) })
      | inr e ↦ rw e (launch-KeepsLayout n s s.window loops threads _ a)
    ]

pub next-KeepsLayout :
    (n : ℕ) (s : MemSweep) (loop_count traffic threads : ℕ)
    → All (IsBelow n) s.windows
    → KeepsLayout n s.windows (next s loop_count traffic threads)
unfolding next
next-KeepsLayout n s loop_count traffic threads a =
    elim (Bool-cases (length s.windows == 0 || threads == 0)) [
      | inl nothing ↦ rw nothing (record { kept = refl; named = λ h. absurd (h refl) })
      | inr busy ↦
          let p = skip (length s.windows) s.windows threads s.window s.cursor in
          rw busy (elim (Bool-cases p.found) [
            | inl hit ↦ rw hit (
                charge-KeepsLayout n
                  (record s {
                    window = p.window;
                    cursor = p.cursor;
                    pending_bytes = (s.pending_bytes + traffic) % u64_mod;
                  })
                  (max loop_count 1) threads a)
            | inr miss ↦ rw miss (record { kept = refl; named = λ h. absurd (h refl) })
          ])
    ]
