-- ===== src/Core/Options/Process.antt =====
-- ProcessCliArguments as a whole.
use loadmaster.Prelude.{ℕ, ◌*◌, ◌<◌, ◌≡◌, ◌∙◌, min, refl, subst, inl, Option, none, some, arith}
use loadmaster.Prelude.Int.{pos}
use loadmaster.Prelude.Numbers.{IsInt}
use loadmaster.Core.Options.Arguments.{CliArgument, no_arguments}
use loadmaster.Core.Options.Ensures.{Ensures, Ensures-bind, Given, anything}
use loadmaster.Core.Options.Validity.{
  InRange, IsValid, set_cpu_load-InRange, set_cpu_count-InRange, fit_cpu_load-IsValid,
  set_cpu_algorithm-IsValid, set_memory-IsValid, set_gpu_load-IsValid, set_gpu_memory-IsValid,
  set_gpu_indices-IsValid, set_gpu_vendor-IsValid, set_gpu_algorithm-IsValid,
}
use loadmaster.Core.Options.{
  warn, Options, Setup, default_options, default_setup, ◌>>=◌, set_cpu_load, set_cpu_count,
  fit_cpu_load, set_cpu_algorithm, set_memory, set_level, set_gpu_load, set_gpu_memory,
  set_gpu_indices, set_gpu_vendor, set_gpu_algorithm, process,
}

-- The integers that the command line gave are `int`s, as ReadInt makes them.
pub record HasInts (a : CliArgument) : Type 0 where
  pub memory : Given IsInt a.memory_mb
  pub gpu_memory : Given IsInt a.gpu_memory_mb

pub default-InRange : (core_count : ℕ) → InRange core_count default_options
default-InRange core_count = record {
  load = omega arith;
  count = (omega arith, omega arith);
  memory = (0, refl, omega arith);
  gpu_load = (omega arith, omega arith);
  gpu_memory = (0, refl, omega arith);
  indices = inl refl;
}

process_lem :
    (core_count : ℕ) (s : Setup) (a : CliArgument)
    → process core_count s a ≡ (
        set_cpu_load a s.options >>= λ o1. set_cpu_count core_count a o1 >>= λ o2.
        fit_cpu_load core_count a o2 >>= λ o3. set_cpu_algorithm a o3 >>= λ o4.
        set_memory a o4 >>= λ o5. set_level a s.level >>= λ level. set_gpu_load a o5 >>= λ o6.
        set_gpu_memory a o6 >>= λ o7. set_gpu_indices a o7 >>= λ o8. set_gpu_vendor a o8 >>= λ o9.
        set_gpu_algorithm a o9 >>= λ o10. some (record { options = o10; level = level }))
unfolding process
process_lem core_count s a = refl

process-Ensures :
    (core_count : ℕ) (s : Setup) (a : CliArgument)
    → HasInts a
    → InRange core_count s.options
    → Ensures (λ t. IsValid core_count t.options) (process core_count s a)
process-Ensures core_count s a h i = rw process_lem (
    Ensures-bind (InRange core_count) _ _ _ (set_cpu_load-InRange core_count a s.options i)
      (λ o1 i1.
        Ensures-bind (InRange core_count) _ _ _ (set_cpu_count-InRange core_count a o1 i1) (λ o2 i2.
          Ensures-bind (IsValid core_count) _ _ _ (fit_cpu_load-IsValid core_count a o2 i2)
            (λ o3 i3.
              Ensures-bind (IsValid core_count) _ _ _ (set_cpu_algorithm-IsValid core_count a o3 i3)
                (λ o4 i4.
                  Ensures-bind (IsValid core_count) _ _ _
                    (set_memory-IsValid core_count a o4 h.memory i4)
                    (λ o5 i5.
                      Ensures-bind (λ _. Unit {0}) _ _ _ (anything (set_level a s.level))
                        (λ level _.
                          Ensures-bind (IsValid core_count) _ _ _
                            (set_gpu_load-IsValid core_count a o5 i5)
                            (λ o6 i6.
                              Ensures-bind (IsValid core_count) _ _ _
                                (set_gpu_memory-IsValid core_count a o6 h.gpu_memory i6)
                                (λ o7 i7.
                                  Ensures-bind (IsValid core_count) _ _ _
                                    (set_gpu_indices-IsValid core_count a o7 i7)
                                    (λ o8 i8.
                                      Ensures-bind (IsValid core_count) _ _ _
                                        (set_gpu_vendor-IsValid core_count a o8 i8)
                                        (λ o9 i9.
                                          Ensures-bind (IsValid core_count) _ _ _
                                            (set_gpu_algorithm-IsValid core_count a o9 i9)
                                            (λ o10 i10. i10))))))))))))

-- Options that are accepted are in range and reachable: the CPU load fits the threads, sizes are
-- a whole number of MiB that fits 64 bits, the GPU load is a percentage, device indices are
-- distinct. The integers given are `int`s.
pub process-IsValid :
    (core_count : ℕ) (a : CliArgument) {t : Setup}
    → HasInts a
    → process core_count default_setup a ≡ some t
    → IsValid core_count t.options
process-IsValid core_count a h e =
    subst (Ensures (λ u. IsValid core_count u.options)) e
      (process-Ensures core_count default_setup a h (default-InRange core_count))

-- A run without arguments starts on any machine: the default load is capped to its cores.
pub process_default :
    (core_count : ℕ)
    → process core_count default_setup no_arguments
      ≡ some (record {
        options = record default_options { cpu_load = pos (min 200 (100 * core_count)) };
        level = warn;
      })
unfolding process
process_default core_count = ground arith

refused_front :
    (core_count : ℕ) (o : Options) (a : CliArgument) (load count : ℕ) (k : Options → Option Setup)
    → a.cpu_load ≡ some (pos load)
    → a.cpu_count ≡ some (pos count)
    → 0 < count
    → 100 * count < load
    → (set_cpu_load a o >>= λ o1.
        set_cpu_count core_count a o1 >>= λ o2. fit_cpu_load core_count a o2 >>= k)
      ≡ none
unfolding set_cpu_load set_cpu_count fit_cpu_load
refused_front core_count o a load count k given_load given_count some_threads over = ground arith

-- A load asked for that the threads asked for cannot burn is refused, however many cores there are.
pub process_unreachable :
    (core_count : ℕ) (s : Setup) (a : CliArgument) (load count : ℕ)
    → a.cpu_load ≡ some (pos load)
    → a.cpu_count ≡ some (pos count)
    → 0 < count
    → 100 * count < load
    → process core_count s a ≡ none
process_unreachable core_count s a load count given_load given_count some_threads over =
    process_lem core_count s a
    ∙ refused_front core_count s.options a load count _ given_load given_count some_threads over
