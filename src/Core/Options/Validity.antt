-- ===== src/Core/Options/Validity.antt =====
-- The options that a run starts with, and that each check keeps them in range.
use loadmaster.Prelude.{
  ℕ, ◌*◌, ◌≤◌, ◌≡◌, refl, sym, ◌⊎◌, inl, inr, false, ◌||◌, List, [], Option, none, some, arith,
  Bool-cases, Text,
}
use loadmaster.Prelude.Int.{ℤ, pos, negsuc, scale, ◌≤ℤ◌, ltb_ℤ}
use loadmaster.Prelude.Numbers.{int_max, IsInt}
use loadmaster.Core.Options.Arguments.{CliArgument}
use loadmaster.Core.Options.Indices.{parse_gpu_indices}
use loadmaster.Core.Options.Indices.RoundTrip.{IsSelection, parse_gpu_indices_sound}
use loadmaster.Core.Options.Ensures.{
  Ensures, Ensures-when_given, Ensures-unless, Ensures-map, Given, given_int,
}
use loadmaster.Core.Options.{
  Options, mebi_byte, max_load_per_device, max_load, max_load_per_core, threads, cpu_algorithms,
  gpu_algorithms, vendors, find_pair, set_cpu_load, set_cpu_count, fit_cpu_load, set_cpu_algorithm,
  set_memory, set_gpu_load, set_gpu_memory, set_gpu_indices, set_gpu_vendor, set_gpu_algorithm,
}

-- A size that came from a number of MiB that fits an `int`: it fits an int64_t.
abbrev pub IsMiB : ℤ → Type 0
IsMiB b = (n : ℕ) × (b ≡ pos (mebi_byte * n)) × (n ≤ int_max)

-- Every option in its range, but for the CPU load that may not fit the threads.
pub record InRange (core_count : ℕ) (o : Options) : Type 0 where
  pub load : pos 0 ≤ℤ o.cpu_load
  pub count : (pos 0 ≤ℤ o.cpu_count) × (o.cpu_count ≤ℤ pos core_count)
  pub memory : IsMiB o.memory_bytes
  pub gpu_load : (pos 0 ≤ℤ o.gpu_load) × (o.gpu_load ≤ℤ pos max_load_per_device)
  pub gpu_memory : IsMiB o.gpu_memory_bytes
  pub indices : (o.gpu_indices ≡ []) ⊎ IsSelection o.gpu_indices

pub record IsValid (core_count : ℕ) (o : Options) : Type 0 where
  pub in_range : InRange core_count o
  pub reachable : o.cpu_load ≤ℤ max_load core_count o

selected : (t : Text) (xs : List ℕ) → parse_gpu_indices t ≡ some xs → (xs ≡ []) ⊎ IsSelection xs
selected t xs e = elim (parse_gpu_indices_sound t e) [
  | inl (all, empty) ↦ inl (sym empty)
  | inr s ↦ inr s
]

scaled_MiB : (v : ℤ) → IsInt v → ltb_ℤ v (pos 0) ≡ false → IsMiB (scale mebi_byte v)
scaled_MiB (pos n) i h = (n, refl, i.0)
scaled_MiB (negsuc n) i h = absurd (ground arith)

scale-nonneg : (n : ℕ) (z : ℤ) → pos 0 ≤ℤ z → pos 0 ≤ℤ scale n z
scale-nonneg n (pos a) h = omega arith
scale-nonneg n (negsuc a) h = absurd (omega arith)

max_load-nonneg : (core_count : ℕ) (o : Options) → pos 0 ≤ℤ max_load core_count o
max_load-nonneg core_count o = scale-nonneg max_load_per_core (threads core_count o) (ground arith)

module _ (core_count : ℕ) where
  abbrev I : Options → Type 0
  I = InRange core_count

  pub set_cpu_load-InRange : (a : CliArgument) (o : Options) → I o → Ensures I (set_cpu_load a o)
  unfolding set_cpu_load
  set_cpu_load-InRange a o i = Ensures-when_given I o a.cpu_load _ i (λ v.
      Ensures-unless I (ltb_ℤ v (pos 0)) _ (λ fine. record {
        load = ground arith;
        count = i.count;
        memory = i.memory;
        gpu_load = i.gpu_load;
        gpu_memory = i.gpu_memory;
        indices = i.indices;
      }))

  pub set_cpu_count-InRange :
      (a : CliArgument) (o : Options) → I o → Ensures I (set_cpu_count core_count a o)
  unfolding set_cpu_count
  set_cpu_count-InRange a o i = Ensures-when_given I o a.cpu_count _ i (λ v.
      Ensures-unless I (ltb_ℤ v (pos 0)) _ (λ low.
        Ensures-unless I (ltb_ℤ (pos core_count) v) _ (λ high. record {
          load = i.load;
          count = (ground arith, ground arith);
          memory = i.memory;
          gpu_load = i.gpu_load;
          gpu_memory = i.gpu_memory;
          indices = i.indices;
        })))

  pub fit_cpu_load-IsValid :
      (a : CliArgument) (o : Options)
      → I o
      → Ensures (IsValid core_count) (fit_cpu_load core_count a o)
  unfolding fit_cpu_load
  fit_cpu_load-IsValid a o i = elim (Bool-cases (ltb_ℤ (max_load core_count o) o.cpu_load)) [
    | inl over ↦ rw over (cap a.cpu_load)
    | inr fits ↦ rw fits (record { in_range = i; reachable = ground arith })
  ]
    where
      cap :
          (given : Option ℤ)
          → Ensures (IsValid core_count) (elim given as (λ _. Option Options) [
            | none ↦ some (record o { cpu_load = max_load core_count o })
            | some v ↦ none
          ])
      cap none = record {
        in_range = record {
          load = max_load-nonneg core_count o;
          count = i.count;
          memory = i.memory;
          gpu_load = i.gpu_load;
          gpu_memory = i.gpu_memory;
          indices = i.indices;
        };
        reachable = omega arith;
      }
      cap (some v) = tt

  abbrev V : Options → Type 0
  V = IsValid core_count

  pub set_cpu_algorithm-IsValid :
      (a : CliArgument) (o : Options) → V o → Ensures V (set_cpu_algorithm a o)
  unfolding set_cpu_algorithm
  set_cpu_algorithm-IsValid a o i = Ensures-when_given V o a.cpu_algorithm _ i (λ t.
      Ensures-map V _ (find_pair t cpu_algorithms) (λ x e. record {
        in_range = record {
          load = i.in_range.load;
          count = i.in_range.count;
          memory = i.in_range.memory;
          gpu_load = i.in_range.gpu_load;
          gpu_memory = i.in_range.gpu_memory;
          indices = i.in_range.indices;
        };
        reachable = i.reachable;
      }))

  pub set_memory-IsValid :
      (a : CliArgument) (o : Options) → Given IsInt a.memory_mb → V o → Ensures V (set_memory a o)
  unfolding set_memory
  set_memory-IsValid a o g i = given_int V o a.memory_mb _ g i (λ v int.
      Ensures-unless V (ltb_ℤ v (pos 0)) _ (λ fine. record {
        in_range = record {
          load = i.in_range.load;
          count = i.in_range.count;
          memory = scaled_MiB v int fine;
          gpu_load = i.in_range.gpu_load;
          gpu_memory = i.in_range.gpu_memory;
          indices = i.in_range.indices;
        };
        reachable = i.reachable;
      }))

  pub set_gpu_load-IsValid : (a : CliArgument) (o : Options) → V o → Ensures V (set_gpu_load a o)
  unfolding set_gpu_load
  set_gpu_load-IsValid a o i = Ensures-when_given V o a.gpu_load _ i (λ v.
      Ensures-unless V (ltb_ℤ v (pos 0) || ltb_ℤ (pos max_load_per_device) v) _ (λ fine. record {
        in_range = record {
          load = i.in_range.load;
          count = i.in_range.count;
          memory = i.in_range.memory;
          gpu_load = (ground arith, ground arith);
          gpu_memory = i.in_range.gpu_memory;
          indices = i.in_range.indices;
        };
        reachable = i.reachable;
      }))

  pub set_gpu_memory-IsValid :
      (a : CliArgument) (o : Options)
      → Given IsInt a.gpu_memory_mb
      → V o
      → Ensures V (set_gpu_memory a o)
  unfolding set_gpu_memory
  set_gpu_memory-IsValid a o g i = given_int V o a.gpu_memory_mb _ g i (λ v int.
      Ensures-unless V (ltb_ℤ v (pos 0)) _ (λ fine. record {
        in_range = record {
          load = i.in_range.load;
          count = i.in_range.count;
          memory = i.in_range.memory;
          gpu_load = i.in_range.gpu_load;
          gpu_memory = scaled_MiB v int fine;
          indices = i.in_range.indices;
        };
        reachable = i.reachable;
      }))

  pub set_gpu_indices-IsValid :
      (a : CliArgument) (o : Options) → V o → Ensures V (set_gpu_indices a o)
  unfolding set_gpu_indices
  set_gpu_indices-IsValid a o i = Ensures-when_given V o a.gpu_indices _ i (λ t.
      Ensures-map V _ (parse_gpu_indices t) (λ xs e. record {
        in_range = record {
          load = i.in_range.load;
          count = i.in_range.count;
          memory = i.in_range.memory;
          gpu_load = i.in_range.gpu_load;
          gpu_memory = i.in_range.gpu_memory;
          indices = selected t xs e;
        };
        reachable = i.reachable;
      }))

  pub set_gpu_vendor-IsValid :
      (a : CliArgument) (o : Options) → V o → Ensures V (set_gpu_vendor a o)
  unfolding set_gpu_vendor
  set_gpu_vendor-IsValid a o i = Ensures-when_given V o a.gpu_vendor _ i (λ t.
      Ensures-map V _ (find_pair t vendors) (λ x e. record {
        in_range = record {
          load = i.in_range.load;
          count = i.in_range.count;
          memory = i.in_range.memory;
          gpu_load = i.in_range.gpu_load;
          gpu_memory = i.in_range.gpu_memory;
          indices = i.in_range.indices;
        };
        reachable = i.reachable;
      }))

  pub set_gpu_algorithm-IsValid :
      (a : CliArgument) (o : Options) → V o → Ensures V (set_gpu_algorithm a o)
  unfolding set_gpu_algorithm
  set_gpu_algorithm-IsValid a o i = Ensures-when_given V o a.gpu_algorithm _ i (λ t.
      Ensures-map V _ (find_pair t gpu_algorithms) (λ x e. record {
        in_range = record {
          load = i.in_range.load;
          count = i.in_range.count;
          memory = i.in_range.memory;
          gpu_load = i.in_range.gpu_load;
          gpu_memory = i.in_range.gpu_memory;
          indices = i.in_range.indices;
        };
        reachable = i.reachable;
      }))
