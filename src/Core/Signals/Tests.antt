-- ===== src/Core/Signals/Tests.antt =====
-- Runs of the latch and of the main loop's signals, with the numbers that Linux gives them.
use loadmaster.Prelude.{ℕ, ◌≡◌, refl, true, false, List, [], ◌∷◌, arith}
use loadmaster.Core.Signals.{Signalled, empty_bitmap, has, main_loop, handlers}
use loadmaster.Core.Signals.Latch.{sets, resets, operate, operate-has}
use loadmaster.Core.Signals.Handling.{main_loop-until_stop}

abbrev fresh : Signalled
fresh = record { pending = empty_bitmap; running = true }

-- SIGUSR1, then nothing, then SIGTERM, then SIGINT.
abbrev rounds : List (List ℕ)
rounds = (10 ∷ []) ∷ [] ∷ (15 ∷ []) ∷ (2 ∷ []) ∷ []

none_pending : has 2 0 ≡ false
unfolding has
none_pending = refl

none_pending_too : has 15 0 ≡ false
unfolding has
none_pending_too = refl

main_loop-until_stop_example : main_loop (handlers 2 15 10 12) fresh rounds ≡ 3
main_loop-until_stop_example =
    main_loop-until_stop 2 15 10 12 (omega arith, (omega arith, (omega arith, (omega arith, tt))))
      fresh rounds refl none_pending none_pending_too

-- Signal 15 comes twice and is dealt with; 2 comes after that.
operate-has_example : has 15 (operate (sets 2 ∷ resets 15 ∷ sets 15 ∷ sets 15 ∷ [])) ≡ false
operate-has_example =
    operate-has 15 (sets 2 ∷ resets 15 ∷ sets 15 ∷ sets 15 ∷ []) (omega arith)
      (omega arith, (omega arith, (omega arith, (omega arith, tt))))
