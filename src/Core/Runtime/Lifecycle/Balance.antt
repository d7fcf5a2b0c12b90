-- ===== src/Core/Runtime/Lifecycle/Balance.antt =====
-- Every manager that is driven is shut down.
use loadmaster.Prelude.{
  ℕ, zero, suc, ◌+◌, ◌<◌, true, false, Option, none, some, get_elem?, ◌≡◌, refl, Bool, List, [],
  ◌∷◌, ◌++◌, map, arith, ◌==◌, if◌then◌else◌,
}
use loadmaster.Core.Runtime.Lifecycle.{
  Creator, no_creator, no_manager, creates, Action, initialized, create_workers, scheduled,
  stop_requested, joined, create, keep_initialized, init_calls, main_loop, drive, run,
}

-- How often a stage's call on manager `i` stands in the calls.
abbrev pub started_of : ℕ → Action → ℕ
started_of i (initialized j) = 0
started_of i (create_workers j) = if j == i then 1 else 0
started_of i (scheduled j) = 0
started_of i (stop_requested j) = 0
started_of i (joined j) = 0

abbrev pub joined_of : ℕ → Action → ℕ
joined_of i (initialized j) = 0
joined_of i (create_workers j) = 0
joined_of i (scheduled j) = 0
joined_of i (stop_requested j) = 0
joined_of i (joined j) = if j == i then 1 else 0

abbrev pub total : (Action → ℕ) → List Action → ℕ
total f [] = 0
total f (a ∷ rest) = f a + total f rest

-- How often a number stands in a list.
abbrev pub times : ℕ → List ℕ → ℕ
times i [] = 0
times i (j ∷ js) = (if j == i then 1 else 0) + times i js

total-append :
    (f : Action → ℕ) (rest bs : List Action) → total f (rest ++ bs) ≡ total f rest + total f bs
total-append f [] bs = omega arith
total-append f (a ∷ rest) bs = omega (arith, total-append f rest bs)

module _ (f : Action → ℕ) where
  -- A stage that is not counted, and one that is.
  total-none :
      (stage : ℕ → Action) (ms : List ℕ) → ((j : ℕ) → f (stage j) ≡ 0) → total f (map stage ms) ≡ 0
  total-none stage [] h = refl
  total-none stage (m ∷ ms) h = omega (arith, h m, total-none stage ms h)

  total-once :
      (stage : ℕ → Action) (i : ℕ) (ms : List ℕ)
      → ((j : ℕ) → f (stage j) ≡ (if j == i then 1 else 0))
      → total f (map stage ms) ≡ times i ms
  total-once stage i [] h = refl
  total-once stage i (m ∷ ms) h = omega (arith, h m, total-once stage i ms h)

  total-init_calls :
      (created : List (ℕ × Bool))
      → ((j : ℕ) → f (initialized j) ≡ 0)
      → total f (init_calls created) ≡ 0
  total-init_calls [] h = refl
  total-init_calls ((i, ok) ∷ more) h = omega (arith, h i, total-init_calls more h)

  total-main_loop :
      (quit_at : ℕ) (ms : List ℕ)
      → ((j : ℕ) → f (scheduled j) ≡ 0)
      → total f (main_loop quit_at ms) ≡ 0
  total-main_loop zero ms h = total-none scheduled ms h
  total-main_loop (suc quit_at) ms h = omega (
    arith,
    total-append f (map scheduled ms) (main_loop quit_at ms),
    total-none scheduled ms h,
    total-main_loop quit_at ms h,
  )

-- 1 for a creator that makes a manager whose `Init` succeeds, and 0 for every other or none.
abbrev pub counts : Option Creator → ℕ
counts none = 0
counts (some no_creator) = 0
counts (some no_manager) = 0
counts (some (creates false)) = 0
counts (some (creates true)) = 1

-- No number below the first is given out.
times-below : (i n : ℕ) (cs : List Creator) → i < n → times i (keep_initialized (create n cs)) ≡ 0
times-below i n [] h = refl
times-below i n (no_creator ∷ cs) h = times-below i (suc n) cs (omega arith)
times-below i n (no_manager ∷ cs) h = times-below i (suc n) cs (omega arith)
times-below i n (creates false ∷ cs) h = times-below i (suc n) cs (omega arith)
times-below i n (creates true ∷ cs) h = ground (arith, times-below i (suc n) cs (omega arith))

-- The managers that are kept, counted by the creators themselves.
times-kept :
    (i n k : ℕ) (cs : List Creator)
    → i ≡ n + k
    → times i (keep_initialized (create n cs)) ≡ counts (get_elem? cs k)
times-kept i n k [] e = refl
times-kept i n zero (no_creator ∷ cs) e = times-below i (suc n) cs (omega arith)
times-kept i n zero (no_manager ∷ cs) e = times-below i (suc n) cs (omega arith)
times-kept i n zero (creates false ∷ cs) e = times-below i (suc n) cs (omega arith)
times-kept i n zero (creates true ∷ cs) e = ground (arith, times-below i (suc n) cs (omega arith))
times-kept i n (suc k) (no_creator ∷ cs) e = times-kept i (suc n) k cs (omega arith)
times-kept i n (suc k) (no_manager ∷ cs) e = times-kept i (suc n) k cs (omega arith)
times-kept i n (suc k) (creates false ∷ cs) e = times-kept i (suc n) k cs (omega arith)
times-kept i n (suc k) (creates true ∷ cs) e =
    ground (arith, times-kept i (suc n) k cs (omega arith))

total-run :
    (f : Action → ℕ) (quit_at : ℕ) (created : List (ℕ × Bool)) (ms : List ℕ)
    → total f (init_calls created ++ (drive quit_at ms).1)
      ≡ total f (init_calls created)
        + (total f (map create_workers ms)
            + (total f (main_loop quit_at ms)
                + (total f (map stop_requested ms) + total f (map joined ms))))
total-run f quit_at created [] =
    omega (arith, total-append f (init_calls created) [], empty quit_at)
  where
    empty : (n : ℕ) → total f (main_loop n []) ≡ 0
    empty zero = refl
    empty (suc n) = empty n
total-run f quit_at created (m ∷ ms) = omega (
  arith,
  total-append f (init_calls created) ((drive quit_at (m ∷ ms)).1),
  total-append f (map create_workers (m ∷ ms))
      (main_loop quit_at (m ∷ ms) ++ (map stop_requested (m ∷ ms) ++ map joined (m ∷ ms))),
  total-append f (main_loop quit_at (m ∷ ms)) (map stop_requested (m ∷ ms) ++ map joined (m ∷ ms)),
  total-append f (map stop_requested (m ∷ ms)) (map joined (m ∷ ms)),
)

-- However long the main loop runs, the workers of the manager of creator `i` are created once and
-- joined once if the creator makes a manager whose `Init` succeeds, and never if there is no such
-- creator, it makes no manager, or the manager's `Init` fails.
pub run-balanced :
    (quit_at : ℕ) (creators : List Creator) (i : ℕ)
    → (total (started_of i) (run quit_at creators).1 ≡ counts (get_elem? creators i))
      × (total (joined_of i) (run quit_at creators).1 ≡ counts (get_elem? creators i))
unfolding run
run-balanced quit_at creators i =
    let created = create 0 creators in
    let ms = keep_initialized created in
    let kept : times i ms ≡ counts (get_elem? creators i) =
      times-kept i 0 i creators (omega arith) in
    (
      omega (
        arith,
        kept,
        total-run (started_of i) quit_at created ms,
        total-init_calls (started_of i) created (λ j. refl),
        total-once (started_of i) create_workers i ms (λ j. refl),
        total-main_loop (started_of i) quit_at ms (λ j. refl),
        total-none (started_of i) stop_requested ms (λ j. refl),
        total-none (started_of i) joined ms (λ j. refl),
      ),
      omega (
        arith,
        kept,
        total-run (joined_of i) quit_at created ms,
        total-init_calls (joined_of i) created (λ j. refl),
        total-none (joined_of i) create_workers ms (λ j. refl),
        total-main_loop (joined_of i) quit_at ms (λ j. refl),
        total-none (joined_of i) stop_requested ms (λ j. refl),
        total-once (joined_of i) joined i ms (λ j. refl),
      ),
    )
