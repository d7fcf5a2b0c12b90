-- ===== src/Memory/Tests.antt =====
-- The memory module on small inputs, and the theorems at them.
use loadmaster.Prelude.{
  ℕ, ◌*◌, ◌≤◌, ◌≡◌, refl, ◌⊎◌, true, false, List, [], ◌∷◌, Option, none, some, length,
}
use loadmaster.Memory.Block.{chunk_bytes, fill}
use loadmaster.Memory.Block.Fill.{write_prefix, fill_prefix}
use loadmaster.Memory.Manager.{
  initial, Draw, Event, tick, background, aligned, note_scheduled, schedule, schedule_idle,
  schedule_on, finish, finish_on, allocate_on, join,
}
use loadmaster.Memory.Manager.Owner.{ticks, background-inline}
use loadmaster.Memory.Manager.Spacing.{starts, AllApart, starts-AllApart}

abbrev three : List (Option ℕ)
three = none ∷ none ∷ none ∷ []

-- Byte i is seed xor i.
fill-three : fill 5 [] (some three) ≡ some (some 5 ∷ some 4 ∷ some 7 ∷ [])
unfolding fill
fill-three = refl

fill_prefix_example :
    (k : ℕ) × (k ≤ length three)
    × (fill 5 (true ∷ []) (some three) ≡ some (write_prefix 5 0 k three))
    × ((k ≡ length three) ⊎ ((m : ℕ) × (k ≡ m * chunk_bytes)))
fill_prefix_example = fill_prefix 5 (true ∷ []) three

abbrev small : Draw
small = record { raw_bytes = 100; seed = 7; fits = true }

abbrev large : Draw
large = record { raw_bytes = 40000000; seed = 7; fits = false }

-- An allocation at 0.1 s; the next tick that allocates is the one at 46.1 s.
abbrev events : List Event
events =
    tick 100 large
    ∷ tick 46100 small
    ∷ background false []
    ∷ tick 46000 small
    ∷ tick 46100 small
    ∷ []

starts-events : starts initial events ≡ 100 ∷ 46100 ∷ []
unfolding starts schedule schedule_on schedule_idle finish finish_on
starts-events = refl

starts-AllApart_example : AllApart (starts initial events)
starts-AllApart_example = starts-AllApart events

abbrev granted : Draw
granted = record large { fits = true }

background-inline_example :
    join (
      finish
        (ticks (schedule initial 100 granted) (record { now = 200; draw = small } ∷ []))
        true
        [])
    ≡ note_scheduled (allocate_on false (aligned 40000000) granted initial) 100
background-inline_example =
    background-inline initial 100 granted (record { now = 200; draw = small } ∷ []) refl refl refl
