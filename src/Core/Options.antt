-- ===== src/Core/Options.antt =====
-- core::Options, src/core/options.h and options.cc, with the level that `-L` sets.
-- Texts are lists of bytes. A failed run exits, so what it has set so far is dropped.
pub mod Arguments
pub mod Indices
pub mod Ensures
pub mod Validity
pub mod Process
mod Tests
use mathlib.Core.Option
use loadmaster.Prelude.{
  ℕ, ◌+◌, ◌*◌, ◌^◌, Bool, true, false, not, ◌&&◌, ◌||◌, List, [], ◌∷◌, Option, none, some, Text,
  codes, text_eq, if◌then◌else◌,
}
use loadmaster.Prelude.Int.{ℤ, pos, negsuc, scale, ltb_ℤ}
use Arguments.{CliArgument}
use Indices.{parse_gpu_indices}

pub data CpuAlgorithm : Type 0 where
  cpu_default cpu_random_normal : CpuAlgorithm

pub data GpuAlgorithm : Type 0 where
  gpu_default gpu_random_normal : GpuAlgorithm

pub data GpuVendor : Type 0 where
  auto nvidia amd apple intel opencl : GpuVendor

-- util::Logger::LogLevel
pub data LogLevel : Type 0 where
  unknown trace debug info warn error fatal off : LogLevel

-- kMebiByte, kDefaultCpuLoad, kCpuMaxLoadPerCore, kGpuMaxLoadPerDevice
abbrev pub mebi_byte : ℕ
mebi_byte = 2 ^ 20

abbrev pub default_cpu_load : ℕ
default_cpu_load = 200

abbrev pub max_load_per_core : ℕ
max_load_per_core = 100

abbrev pub max_load_per_device : ℕ
max_load_per_device = 100

pub record Options : Type 0 where
  pub cpu_load : ℤ
  pub cpu_count : ℤ
  pub cpu_algorithm : CpuAlgorithm
  pub memory_bytes : ℤ
  pub gpu_load : ℤ
  pub gpu_memory_bytes : ℤ
  pub gpu_indices : List ℕ
  pub gpu_vendor : GpuVendor
  pub gpu_algorithm : GpuAlgorithm

-- The options and the level of the default logger.
pub record Setup : Type 0 where
  pub options : Options
  pub level : LogLevel

abbrev pub default_options : Options
default_options = record {
  cpu_load = pos default_cpu_load;
  cpu_count = pos 0;
  cpu_algorithm = cpu_default;
  memory_bytes = pos 0;
  gpu_load = pos 0;
  gpu_memory_bytes = pos 0;
  gpu_indices = [];
  gpu_vendor = auto;
  gpu_algorithm = gpu_default;
}

abbrev pub default_setup : Setup
default_setup = record { options = default_options; level = warn }

-- `std::find_if` over a table of names.
pub find_pair {ℓ} : {A : Type ℓ} → Text → List (Text × A) → Option A
find_pair t [] = none
find_pair t ((name, a) ∷ rest) = if text_eq name t then some a else find_pair t rest

abbrev pub cpu_algorithms : List (Text × CpuAlgorithm)
cpu_algorithms = (codes "default", cpu_default) ∷ (codes "rand_normal", cpu_random_normal) ∷ []

abbrev pub gpu_algorithms : List (Text × GpuAlgorithm)
gpu_algorithms = (codes "default", gpu_default) ∷ (codes "rand_normal", gpu_random_normal) ∷ []

abbrev pub vendors : List (Text × GpuVendor)
vendors =
    (codes "auto", auto)
    ∷ (codes "nvidia", nvidia)
    ∷ (codes "amd", amd)
    ∷ (codes "apple", apple)
    ∷ (codes "intel", intel)
    ∷ (codes "opencl", opencl)
    ∷ []

-- The names that Logger::SetLevel knows.
abbrev pub levels : List (Text × LogLevel)
levels =
    (codes "trace", trace)
    ∷ (codes "debug", debug)
    ∷ (codes "info", info)
    ∷ (codes "warn", warn)
    ∷ (codes "error", error)
    ∷ (codes "fatal", fatal)
    ∷ (codes "off", off)
    ∷ (codes "all", trace)
    ∷ []

-- An option that is not given changes nothing; one that is given is checked and stored.
abbrev when_given {ℓ} : {A : Type ℓ} → Option A → Options → (A → Option Options) → Option Options
when_given none o f = some o
when_given (some v) o f = f v

pub set_cpu_load : CliArgument → Options → Option Options
set_cpu_load a o =
    when_given a.cpu_load o
      (λ v. if ltb_ℤ v (pos 0) then none else some (record o { cpu_load = v }))

pub set_cpu_count : ℕ → CliArgument → Options → Option Options
set_cpu_count core_count a o = when_given a.cpu_count o (λ v.
    if ltb_ℤ v (pos 0)
    then none
    else if ltb_ℤ (pos core_count) v
    then none
    else some (record o { cpu_count = v }))

-- The threads that the process may use: `-c` if given, else every core.
abbrev pub threads : ℕ → Options → ℤ
threads core_count o = if ltb_ℤ (pos 0) o.cpu_count then o.cpu_count else pos core_count

abbrev pub max_load : ℕ → Options → ℤ
max_load core_count o = scale max_load_per_core (threads core_count o)

-- A load that does not fit: the default one is capped, a given one is an error.
pub fit_cpu_load : ℕ → CliArgument → Options → Option Options
fit_cpu_load core_count a o =
    if ltb_ℤ (max_load core_count o) o.cpu_load
    then elim a.cpu_load [
      | none ↦ some (record o { cpu_load = max_load core_count o })
      | some v ↦ none
    ]
    else some o

pub set_cpu_algorithm : CliArgument → Options → Option Options
set_cpu_algorithm a o =
    when_given a.cpu_algorithm o
      (λ t. Option.map (λ x. record o { cpu_algorithm = x }) (find_pair t cpu_algorithms))

-- The input is in MiB.
pub set_memory : CliArgument → Options → Option Options
set_memory a o = when_given a.memory_mb o (λ mib.
    if ltb_ℤ mib (pos 0) then none else some (record o { memory_bytes = scale mebi_byte mib }))

-- Logger::SetLevel on the level that is in force.
pub set_level : CliArgument → LogLevel → Option LogLevel
set_level a level = elim a.log_level [ none ↦ some level | some t ↦ find_pair t levels ]

pub set_gpu_load : CliArgument → Options → Option Options
set_gpu_load a o = when_given a.gpu_load o (λ load.
    if ltb_ℤ load (pos 0) || ltb_ℤ (pos max_load_per_device) load
    then none
    else some (record o { gpu_load = load }))

pub set_gpu_memory : CliArgument → Options → Option Options
set_gpu_memory a o = when_given a.gpu_memory_mb o (λ mib.
    if ltb_ℤ mib (pos 0) then none else some (record o { gpu_memory_bytes = scale mebi_byte mib }))

pub set_gpu_indices : CliArgument → Options → Option Options
set_gpu_indices a o =
    when_given a.gpu_indices o
      (λ t. Option.map (λ xs. record o { gpu_indices = xs }) (parse_gpu_indices t))

pub set_gpu_vendor : CliArgument → Options → Option Options
set_gpu_vendor a o =
    when_given a.gpu_vendor o
      (λ t. Option.map (λ x. record o { gpu_vendor = x }) (find_pair t vendors))

pub set_gpu_algorithm : CliArgument → Options → Option Options
set_gpu_algorithm a o =
    when_given a.gpu_algorithm o
      (λ t. Option.map (λ x. record o { gpu_algorithm = x }) (find_pair t gpu_algorithms))

infixl 5 ◌>>=◌
abbrev pub ◌>>=◌ {ℓ κ} : {A : Type ℓ} {B : Type κ} → Option A → (A → Option B) → Option B
none >>= f = none
some a >>= f = f a

-- The checks of ProcessCliArguments, in its order; `none` is `return false`.
unfoldable pub process : ℕ → Setup → CliArgument → Option Setup
unfolding set_cpu_load set_cpu_count fit_cpu_load set_cpu_algorithm set_memory set_level
    set_gpu_load set_gpu_memory set_gpu_indices set_gpu_vendor set_gpu_algorithm find_pair
process core_count s a = do
  o1 ← set_cpu_load a s.options
  o2 ← set_cpu_count core_count a o1
  o3 ← fit_cpu_load core_count a o2
  o4 ← set_cpu_algorithm a o3
  o5 ← set_memory a o4
  level ← set_level a s.level
  o6 ← set_gpu_load a o5
  o7 ← set_gpu_memory a o6
  o8 ← set_gpu_indices a o7
  o9 ← set_gpu_vendor a o8
  o10 ← set_gpu_algorithm a o9
  some (record { options = o10; level = level })
