-- ===== src/Gpu/Contention/Gate/Tests.antt =====
-- A gate over percentages, and the theorem at its calls.
use loadmaster.Prelude.{ℕ, ◌≡◌, refl, List, [], ◌∷◌, some, none, leb, arith}
use loadmaster.Gpu.Contention.Gate.{IsOrder, pop_old, pop_smaller, push_sighting, update}
use loadmaster.Gpu.Contention.Gate.Window.{Call, sightings, run, IsMost}
use loadmaster.Gpu.Contention.Gate.Most.{update-IsMost}

abbrev calls : List (Call ℕ)
calls =
    record { others = some 20; now = 31000 }
    ∷ record { others = some 40; now = 5000 }
    ∷ record { others = some 10; now = 1000 }
    ∷ []

abbrev quiet : Call ℕ
quiet = record { others = none; now = 36000 }

-- The 40 % are over 30 s ago: the later 20 % count.
level_after : (update leb (run leb calls) none 36000).level ≡ some 20
unfolding update run pop_old pop_smaller push_sighting
level_after = refl

leb-IsOrder : IsOrder leb
leb-IsOrder = record { total = λ a b. ground arith; trans = λ a b c h k. ground arith }

update-IsMost_example :
    IsMost leb (sightings (quiet ∷ calls)) 36000 (update leb (run leb calls) none 36000).level
update-IsMost_example = update-IsMost leb leb-IsOrder calls quiet (
  (omega arith, (omega arith, (omega arith, tt))),
  ((omega arith, (omega arith, tt)), ((omega arith, tt), (tt, tt))),
)
