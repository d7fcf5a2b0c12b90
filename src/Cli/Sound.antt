-- ===== src/Cli/Sound.antt =====
-- What a command line that is accepted runs with.
use loadmaster.Prelude.{ℕ, ◌≡◌, refl, subst, List, [], ◌∷◌, Option, none, some, arith, Text}
use loadmaster.Prelude.Int.{ℤ}
use loadmaster.Prelude.Numbers.{
  IntResult, parsed, invalid_argument, result_out_of_range, IsInt, from_chars, from_chars-IsInt,
}
use loadmaster.Core.Options.{Setup, default_setup, process}
use loadmaster.Core.Options.Arguments.{CliArgument, no_arguments}
use loadmaster.Core.Options.Process.{HasInts, process-IsValid}
use loadmaster.Core.Options.Validity.{IsValid}
use loadmaster.Core.Options.Ensures.{Ensures, Ensures-map}
use loadmaster.Cli.Extract.{AllInts}
use loadmaster.Cli.{
  IntField, TextField, cpu_load, cpu_count, memory_mb, gpu_load, gpu_memory_mb, log_level,
  cpu_algorithm, gpu_indices, gpu_vendor, gpu_algorithm, Handler, print_usage, print_version,
  read_int, read_string_view, set_int, set_text, specs, find_spec, int_of, read_int_token,
  read_value, on_read, on_last, on_flag, on_processed, on_extracted, StepResult, continue, exit_ok,
  fail, extract, run_with, parse_command_line,
}

int_of-parsed : (r : IntResult) (v : ℤ) → int_of r ≡ some v → r ≡ parsed v []
unfolding int_of
int_of-parsed (parsed w []) v e = ground arith
int_of-parsed (parsed w (c ∷ rest)) v e = absurd ground arith
int_of-parsed invalid_argument v e = absurd ground arith
int_of-parsed result_out_of_range v e = absurd ground arith

read_int_token-IsInt : (t : Text) (v : ℤ) → read_int_token t ≡ some v → IsInt v
unfolding read_int_token
read_int_token-IsInt t v e = from_chars-IsInt t (int_of-parsed (from_chars t) v e)

set_int-AllInts :
    (f : IntField) (a : CliArgument) (v : ℤ) → AllInts a → IsInt v → AllInts (set_int f a v)
set_int-AllInts cpu_load a v h i = record {
  load = i;
  count = h.count;
  memory = h.memory;
  gpu = h.gpu;
  gpu_memory = h.gpu_memory;
}
set_int-AllInts cpu_count a v h i = record {
  load = h.load;
  count = i;
  memory = h.memory;
  gpu = h.gpu;
  gpu_memory = h.gpu_memory;
}
set_int-AllInts memory_mb a v h i = record {
  load = h.load;
  count = h.count;
  memory = i;
  gpu = h.gpu;
  gpu_memory = h.gpu_memory;
}
set_int-AllInts gpu_load a v h i = record {
  load = h.load;
  count = h.count;
  memory = h.memory;
  gpu = i;
  gpu_memory = h.gpu_memory;
}
set_int-AllInts gpu_memory_mb a v h i = record {
  load = h.load;
  count = h.count;
  memory = h.memory;
  gpu = h.gpu;
  gpu_memory = i;
}

set_text-AllInts :
    (f : TextField) (a : CliArgument) (t : Text) → AllInts a → AllInts (set_text f a t)
set_text-AllInts log_level a t h = record {
  load = h.load;
  count = h.count;
  memory = h.memory;
  gpu = h.gpu;
  gpu_memory = h.gpu_memory;
}
set_text-AllInts cpu_algorithm a t h = record {
  load = h.load;
  count = h.count;
  memory = h.memory;
  gpu = h.gpu;
  gpu_memory = h.gpu_memory;
}
set_text-AllInts gpu_indices a t h = record {
  load = h.load;
  count = h.count;
  memory = h.memory;
  gpu = h.gpu;
  gpu_memory = h.gpu_memory;
}
set_text-AllInts gpu_vendor a t h = record {
  load = h.load;
  count = h.count;
  memory = h.memory;
  gpu = h.gpu;
  gpu_memory = h.gpu_memory;
}
set_text-AllInts gpu_algorithm a t h = record {
  load = h.load;
  count = h.count;
  memory = h.memory;
  gpu = h.gpu;
  gpu_memory = h.gpu_memory;
}

read_value-AllInts :
    (h : Handler) (a : CliArgument) (t : Text) → AllInts a → Ensures AllInts (read_value h a t)
unfolding read_value
read_value-AllInts print_usage a t i = i
read_value-AllInts print_version a t i = i
read_value-AllInts (read_int f) a t i =
    Ensures-map AllInts _ (read_int_token t)
      (λ v e. set_int-AllInts f a v i (read_int_token-IsInt t v e))
read_value-AllInts (read_string_view f) a t i = set_text-AllInts f a t i

-- What a parse that goes on ensures.
abbrev Continues : (CliArgument → Type 0) → StepResult → Type 0
Continues P (continue a) = P a
Continues P exit_ok = Unit
Continues P fail = Unit

module _ (again : CliArgument → StepResult)
    (again-AllInts : (b : CliArgument) → AllInts b → Continues AllInts (again b)) where
  on_read-AllInts :
      (r : Option CliArgument) → Ensures AllInts r → Continues AllInts (on_read again r)
  on_read-AllInts none i = tt
  on_read-AllInts (some b) i = again-AllInts b i

  on_flag-AllInts :
      (a : CliArgument) (value : Text) (h : Option Handler)
      → AllInts a
      → Continues AllInts (on_flag again a value h)
  on_flag-AllInts a value none i = tt
  on_flag-AllInts a value (some print_usage) i = tt
  on_flag-AllInts a value (some print_version) i = tt
  on_flag-AllInts a value (some (read_int f)) i =
      on_read-AllInts (read_value (read_int f) a value) (read_value-AllInts (read_int f) a value i)
  on_flag-AllInts a value (some (read_string_view f)) i =
      on_read-AllInts (read_value (read_string_view f) a value)
        (read_value-AllInts (read_string_view f) a value i)

on_last-AllInts : (h : Option Handler) → Continues AllInts (on_last h)
on_last-AllInts none = tt
on_last-AllInts (some print_usage) = tt
on_last-AllInts (some print_version) = tt
on_last-AllInts (some (read_int f)) = tt
on_last-AllInts (some (read_string_view f)) = tt

extract-AllInts :
    (a : CliArgument) (argv : List Text) → AllInts a → Continues AllInts (extract a argv)
unfolding extract
extract-AllInts a [] i = i
extract-AllInts a (flag ∷ []) i = on_last-AllInts (find_spec flag specs)
extract-AllInts a (flag ∷ value ∷ more) i =
    on_flag-AllInts (λ b. extract b more) (λ b. extract-AllInts b more) a value
      (find_spec flag specs) i

no_arguments-AllInts : AllInts no_arguments
no_arguments-AllInts = record { load = tt; count = tt; memory = tt; gpu = tt; gpu_memory = tt }

AllInts-HasInts : (a : CliArgument) → AllInts a → HasInts a
AllInts-HasInts a i = record { memory = i.memory; gpu_memory = i.gpu_memory }

on_processed-IsValid :
    (core_count : ℕ) (a : CliArgument) (s : Setup) (r : Option Setup)
    → process core_count default_setup a ≡ r
    → AllInts a
    → on_processed r ≡ run_with s
    → IsValid core_count s.options
on_processed-IsValid core_count a s none p i e = absurd (ground arith)
on_processed-IsValid core_count a s (some t) p i e =
    let same : t ≡ s = cc e in
    subst (λ u. IsValid core_count u.options) same
      (process-IsValid core_count a (AllInts-HasInts a i) p)

on_extracted-IsValid :
    (core_count : ℕ) (r : StepResult) (s : Setup)
    → Continues AllInts r
    → on_extracted core_count r ≡ run_with s
    → IsValid core_count s.options
on_extracted-IsValid core_count fail s i e = absurd (ground arith)
on_extracted-IsValid core_count exit_ok s i e = absurd (ground arith)
on_extracted-IsValid core_count (continue a) s i e =
    on_processed-IsValid core_count a s (process core_count default_setup a) refl i e

-- A command line that is accepted to run, whatever its words, gives options that are in range and
-- reachable on the machine.
pub parse_command_line-IsValid :
    (core_count : ℕ) (argv : List Text) (s : Setup)
    → parse_command_line core_count argv ≡ run_with s
    → IsValid core_count s.options
unfolding parse_command_line
parse_command_line-IsValid core_count argv s e =
    on_extracted-IsValid core_count (extract no_arguments argv) s
      (extract-AllInts no_arguments argv no_arguments-AllInts) e
