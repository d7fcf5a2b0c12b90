-- ===== src/Gpu/Sweep/Tests.antt =====
-- Runs of MemSweep on a block of 32 bytes, and the theorems at it.
use loadmaster.Prelude.{◌+◌, ◌*◌, ◌≤◌, ◌<◌, ◌≡◌, refl, List, [], ◌∷◌, arith, All, get_or}
use loadmaster.Gpu.Sweep.{
  MemSweep, cleared, reset, segment_windows, all_windows, skip, next, charge, launch,
}
use loadmaster.Gpu.Sweep.Layout.{Fits, Covers, reset-Covers}
use loadmaster.Gpu.Sweep.Bounds.{IsValid, next-touches_inside}
use loadmaster.Gpu.Sweep.Kernel.{touched_word}
use loadmaster.Gpu.Sweep.Traffic.{Request, run_moves, run_moves-le-asked}

abbrev small : MemSweep
small = record {
  windows = record { segment = 0; offset_words = 0; words = 8 } ∷ [];
  window = 0;
  cursor = 0;
  pending_bytes = 0;
}

reset-small : reset cleared (32 ∷ []) ≡ small
unfolding reset segment_windows all_windows
reset-small = refl

-- Three iterations of two threads, 32 bytes of traffic: an access after every other iteration.
next-small :
    (next small 3 32 2).args
    ≡ record { segment = 0; offset_words = 0; words = 8; base = 0; stride = 2 }
unfolding next charge launch skip
next-small = refl

next-small_cursor : (next small 3 32 2).sweep.cursor ≡ 4
unfolding next charge launch skip
next-small_cursor = refl

small-IsValid : IsValid small
small-IsValid = record {
  usable = ((omega arith, omega arith), tt);
  current = λ _. omega arith;
  cursor = λ _. omega arith;
  pending = omega arith;
}

small-Fits : All (Fits (32 ∷ [])) small.windows
small-Fits = (
  record {
    nonempty = omega arith;
    short = omega arith;
    inside = omega arith;
    exists = omega arith;
  },
  tt,
)

reset-Covers_example :
    All (Fits (32 ∷ [])) (reset cleared (32 ∷ [])).windows
    × Covers 0 (32 ∷ []) (reset cleared (32 ∷ [])).windows
    × ((reset cleared (32 ∷ [])).window ≡ 0)
    × ((reset cleared (32 ∷ [])).cursor ≡ 0)
    × ((reset cleared (32 ∷ [])).pending_bytes ≡ 0)
reset-Covers_example = reset-Covers cleared (32 ∷ []) (omega arith, tt)

next-small_words : 0 < (next small 3 32 2).args.words
unfolding next charge launch skip
next-small_words = omega arith

next-touches_inside_example :
    touched_word (next small 3 32 2).args 2 1 5 * 4 + 4
    ≤ get_or (32 ∷ []) (next small 3 32 2).args.segment 0
next-touches_inside_example =
    next-touches_inside small (32 ∷ []) 3 32 2 1 5 small-IsValid small-Fits next-small_words
      (omega arith)

abbrev requests : List Request
requests =
    record { loop_count = 3; traffic = 32; threads = 2 }
    ∷ record { loop_count = 5; traffic = 40; threads = 3 }
    ∷ []

run_moves-le-asked_example : run_moves small requests ≤ 72
run_moves-le-asked_example = run_moves-le-asked small requests small-IsValid (omega arith)
