-- ===== src/Core/Options/Tests.antt =====
-- The checks of ProcessCliArguments on given arguments, and the theorems at them.
use loadmaster.Prelude.{ℕ, ◌≡◌, refl, List, [], ◌∷◌, none, some, arith, codes, ◌*◌}
use loadmaster.Prelude.Int.{pos}
use loadmaster.Prelude.Numbers.{from_chars}
use loadmaster.Core.Options.{Setup, default_options, default_setup, process, debug}
use loadmaster.Core.Options.Arguments.{CliArgument, no_arguments}
use loadmaster.Core.Options.Indices.{parse_gpu_indices}
use loadmaster.Core.Options.Indices.RoundTrip.{comma_list, parse-comma_list}
use loadmaster.Core.Options.Process.{HasInts, process_unreachable}

abbrev given : CliArgument
given = record no_arguments {
  cpu_load = some (pos 150);
  memory_mb = some (pos 64);
  log_level = some (codes "debug");
  gpu_indices = some (codes "2,0");
}

abbrev selected : List ℕ
selected = 2 ∷ 0 ∷ []

abbrev accepted : Setup
accepted = record {
  options = record default_options {
    cpu_load = pos 150;
    memory_bytes = pos (1048576 * 64);
    gpu_indices = 2 ∷ 0 ∷ [];
  };
  level = debug;
}

abbrev too_much : CliArgument
too_much = record no_arguments { cpu_load = some (pos 201); cpu_count = some (pos 2) }

process-given : process 4 default_setup given ≡ some accepted
unfolding process parse_gpu_indices from_chars
process-given = refl

parse_duplicates : parse_gpu_indices (codes "1,0,1") ≡ none
unfolding parse_gpu_indices from_chars
parse_duplicates = refl

parse_list : parse_gpu_indices (codes "2,0") ≡ some selected
unfolding parse_gpu_indices from_chars
parse_list = refl

given-HasInts : HasInts given
given-HasInts = record { memory = (omega arith, omega arith); gpu_memory = tt }

process_unreachable_example : process 8 default_setup too_much ≡ none
process_unreachable_example =
    process_unreachable 8 default_setup too_much 201 2 refl refl (omega arith) (omega arith)

parse-comma_list_example : parse_gpu_indices (comma_list (2 ∷ 0 ∷ [])) ≡ some (2 ∷ 0 ∷ [])
parse-comma_list_example =
    parse-comma_list 2 (0 ∷ []) (omega arith, (omega arith, tt)) (λ a. ground arith)
