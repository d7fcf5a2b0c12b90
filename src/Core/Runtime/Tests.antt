-- ===== src/Core/Runtime/Tests.antt =====
-- The grid at a time, and the theorems at it.
use loadmaster.Prelude.{List, true, false, get_elem?, ◌≡◌, refl, [], ◌∷◌, arith}
use loadmaster.Core.Runtime.{next_scheduling_time}
use loadmaster.Core.Runtime.Lifecycle.{
  Creator, creates, no_manager, initialized, create_workers, scheduled, stop_requested, joined, run,
}
use loadmaster.Core.Runtime.Lifecycle.Balance.{started_of, joined_of, total, counts, run-balanced}
use loadmaster.Core.Runtime.Grid.{OneEach, ticks-OneEach}

next-late : next_scheduling_time 250000001 ≡ 300000000
unfolding next_scheduling_time
next-late = refl

next_250 : next_scheduling_time 250 ≡ 100000000
unfolding next_scheduling_time
next_250 = refl

ticks-OneEach_example : OneEach (250 ∷ 350000000 ∷ [])
unfolding next_scheduling_time
ticks-OneEach_example = ticks-OneEach (250 ∷ 350000000 ∷ []) (omega arith, tt)

-- The second manager fails to initialize, the third creator makes none.
abbrev creators : List Creator
creators = creates true ∷ creates false ∷ no_manager ∷ []

run-creators : run 1 creators ≡ (
  true,
  initialized 0
      ∷ initialized 1
      ∷ create_workers 0
      ∷ scheduled 0
      ∷ scheduled 0
      ∷ stop_requested 0
      ∷ joined 0
      ∷ [],
)
unfolding run
run-creators = refl

run-balanced_example :
    (total (started_of 0) (run 1 creators).1 ≡ counts (get_elem? creators 0))
    × (total (joined_of 0) (run 1 creators).1 ≡ counts (get_elem? creators 0))
run-balanced_example = run-balanced 1 creators 0
