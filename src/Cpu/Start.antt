-- ===== src/Cpu/Start.antt =====
-- CpuResourceManagerDefault::Init and CpuResourceManagerRandomNormal::Init, src/cpu, up to the
-- number of workers that ConstructWorkerThreads makes; `none` is `return false`.
use mathlib.Core.Option.{some-injective}
use loadmaster.Prelude.{
  ℕ, zero, suc, ◌+◌, ◌-◌, ◌*◌, ◌/◌, ◌≤◌, ◌<◌, max, ◌≡◌, refl, subst, ltb→le, Bool, true, false,
  List, [], ◌∷◌, Option, none, some, arith, ltb, if◌then◌else◌, All, ◌==◌,
}
use loadmaster.Prelude.Int.{ℤ, pos, negsuc, ◌≤ℤ◌, ◌<ℤ◌, leb_ℤ, ltb_ℤ, pos_part, scale}
use loadmaster.Core.Options.{Options, max_load_per_core}
use loadmaster.Core.Options.Validity.{IsValid}

-- `(load + (kCpuMaxLoadPerCore - 1)) / kCpuMaxLoadPerCore` for a load that is not negative.
abbrev pub cores_for : ℕ → ℕ
cores_for load = (load + (max_load_per_core - 1)) / max_load_per_core

-- `-c` if given, else as many as the load needs.
abbrev pub thread_count : Options → ℕ → ℕ
thread_count o load = if ltb_ℤ (pos 0) o.cpu_count then pos_part o.cpu_count else cores_for load

unfoldable pub init_default : ℕ → Options → Option ℕ
init_default core_count o =
    if leb_ℤ o.cpu_load (pos 0)
    then none
    else if thread_count o (pos_part o.cpu_load) == 0
    then none
    else if ltb core_count (thread_count o (pos_part o.cpu_load))
    then none
    else some (thread_count o (pos_part o.cpu_load))

-- The loop that finds the peak of the schedule.
abbrev pub peak : List ℕ → ℕ
peak [] = 0
peak (load ∷ more) = max load (peak more)

unfoldable pub init_random_normal : ℕ → Options → List ℕ → Option ℕ
init_random_normal core_count o points =
    if leb_ℤ o.cpu_load (pos 0)
    then none
    else if thread_count o (peak points) == 0
    then none
    else if ltb core_count (thread_count o (peak points))
    then none
    else if ltb (thread_count o (peak points) * max_load_per_core) (peak points)
    then none
    else some (thread_count o (peak points))

==-false : (n : ℕ) → 0 < n → (n == 0) ≡ false
==-false n h = ground arith

ltb-false : (a b : ℕ) → b ≤ a → ltb a b ≡ false
ltb-false a b h = ground arith

-- Enough workers, and no more than there are cores.
pub record CanBurn (core_count load count : ℕ) : Type 0 where
  pub some_workers : 0 < count
  pub cores : count ≤ core_count
  pub capacity : load ≤ count * max_load_per_core

enough_workers :
    (core_count : ℕ) (load c : ℤ)
    → pos 0 <ℤ load
    → pos 0 ≤ℤ c
    → c ≤ℤ pos core_count
    → load ≤ℤ scale max_load_per_core (if ltb_ℤ (pos 0) c then c else pos core_count)
    → CanBurn core_count
        (pos_part load)
        (if ltb_ℤ (pos 0) c then pos_part c else cores_for (pos_part load))
enough_workers core_count (negsuc l) c some_load low high fits = absurd (omega arith)
enough_workers core_count (pos l) (negsuc n) some_load low high fits = absurd (omega arith)
enough_workers core_count (pos l) (pos zero) some_load low high fits = record {
  some_workers = omega arith;
  cores = omega arith;
  capacity = omega arith;
}
enough_workers core_count (pos l) (pos (suc n)) some_load low high fits = record {
  some_workers = ground arith;
  cores = ground arith;
  capacity = ground arith;
}

init_default_accepts :
    (core_count : ℕ) (o : Options)
    → pos 0 <ℤ o.cpu_load
    → CanBurn core_count (pos_part o.cpu_load) (thread_count o (pos_part o.cpu_load))
    → init_default core_count o ≡ some (thread_count o (pos_part o.cpu_load))
unfolding init_default
init_default_accepts core_count o some_load b =
    rw (not_idle, ==-false _ b.some_workers, ltb-false _ _ b.cores) refl
  where
    not_idle : leb_ℤ o.cpu_load (pos 0) ≡ false
    not_idle = ground arith

-- Options that were accepted and ask for a CPU load give enough workers for all of it, on no
-- more threads than the machine has cores: `Init` does not fail.
pub init_default-CanBurn :
    (core_count : ℕ) (o : Options)
    → IsValid core_count o
    → pos 0 <ℤ o.cpu_load
    → (count : ℕ) × (init_default core_count o ≡ some count)
      × CanBurn core_count (pos_part o.cpu_load) count
init_default-CanBurn core_count o v some_load =
    let burn =
      enough_workers core_count o.cpu_load o.cpu_count some_load v.in_range.count.0
        v.in_range.count.1 v.reachable in
    (thread_count o (pos_part o.cpu_load), init_default_accepts core_count o some_load burn, burn)

All-peak : (points : List ℕ) (bound : ℕ) → peak points ≤ bound → All (λ l. l ≤ bound) points
All-peak [] bound h = tt
All-peak (l ∷ more) bound h = (omega arith, All-peak more bound (omega arith))

positive : (n : ℕ) → (n == 0) ≡ false → 0 < n
positive n h = ground arith

guarded :
    (refused : Bool) (r : Option ℕ) (count : ℕ)
    → (if refused then none else r) ≡ some count
    → (refused ≡ false) × (r ≡ some count)
guarded true r count e = absurd (ground arith)
guarded false r count e = (refl, e)

-- What the checks of the random schedule are for: when `Init` succeeds, no point of the schedule
-- is more than the workers can burn, and they fit the cores.
pub init_random_normal-CanBurn :
    (core_count : ℕ) (o : Options) (points : List ℕ) (count : ℕ)
    → init_random_normal core_count o points ≡ some count
    → CanBurn core_count (peak points) count × All (λ l. l ≤ count * max_load_per_core) points
unfolding init_random_normal
init_random_normal-CanBurn core_count o points count e =
    let n = thread_count o (peak points) in
    let enabled = guarded _ _ count e in
    let threaded = guarded (n == 0) _ count enabled.1 in
    let on_cores = guarded (ltb core_count n) _ count threaded.1 in
    let reachable = guarded (ltb (n * max_load_per_core) (peak points)) _ count on_cores.1 in
    let same = some-injective _ _ reachable.1 in
    let burn : CanBurn core_count (peak points) count =
      subst (CanBurn core_count (peak points)) same (record {
        some_workers = positive n threaded.0;
        cores = ltb→le _ _ on_cores.0;
        capacity = ltb→le _ _ reachable.0;
      }) in
    (burn, All-peak points _ burn.capacity)
