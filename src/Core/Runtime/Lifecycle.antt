-- ===== src/Core/Runtime/Lifecycle.antt =====
-- The life cycle of the managers: Runtime::Run and its stages, src/core/runtime.cc. A manager is
-- known by the number of its creator. The signal that ends the main loop is pending at the tick
-- number `quit_at`, counted from 0; that tick still schedules.
pub mod Balance
use loadmaster.Prelude.{
  ℕ, zero, suc, Bool, true, false, List, [], ◌∷◌, ◌++◌, Option, none, some, map,
}

-- A creator: `nullptr`, one that returns `nullptr`, or a manager whose `Init` returns so.
pub data Creator : Type 0 where
  no_creator no_manager : Creator
  creates : Bool → Creator

-- What is called on a manager.
pub data Action : Type 0 where
  initialized create_workers scheduled stop_requested joined : ℕ → Action

-- The managers that are created, with what their `Init` will say.
abbrev pub create : ℕ → List Creator → List (ℕ × Bool)
create i [] = []
create i (no_creator ∷ more) = create (suc i) more
create i (no_manager ∷ more) = create (suc i) more
create i (creates ok ∷ more) = (i, ok) ∷ create (suc i) more

-- Those that fail to initialize are dropped.
abbrev pub keep_initialized : List (ℕ × Bool) → List ℕ
keep_initialized [] = []
keep_initialized ((i, true) ∷ more) = i ∷ keep_initialized more
keep_initialized ((i, false) ∷ more) = keep_initialized more

abbrev pub init_calls : List (ℕ × Bool) → List Action
init_calls [] = []
init_calls ((i, ok) ∷ more) = initialized i ∷ init_calls more

-- The ticks up to the one that sees the signal.
abbrev pub main_loop : ℕ → List ℕ → List Action
main_loop zero managers = map scheduled managers
main_loop (suc quit_at) managers = map scheduled managers ++ main_loop quit_at managers

-- `Run` behind `Init`: its result, and the calls.
abbrev pub drive : ℕ → List ℕ → Bool × List Action
drive quit_at [] = (false, [])
drive quit_at (m ∷ ms) = (
  true,
  map create_workers (m ∷ ms)
      ++ (main_loop quit_at (m ∷ ms) ++ (map stop_requested (m ∷ ms) ++ map joined (m ∷ ms))),
)

unfoldable pub run : ℕ → List Creator → Bool × List Action
run quit_at creators =
    let created = create 0 creators in
    let driven = drive quit_at (keep_initialized created) in
    (driven.0, init_calls created ++ driven.1)
