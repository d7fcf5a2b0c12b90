-- ===== src/Cli/Tests.antt =====
-- Command lines, and the theorems at them.
use loadmaster.Prelude.{◌≡◌, refl, List, [], ◌∷◌, some, arith, Text, codes}
use loadmaster.Prelude.Int.{pos}
use loadmaster.Prelude.Numbers.{from_chars}
use loadmaster.Core.Options.Indices.{parse_gpu_indices}
use loadmaster.Core.Options.{Setup, default_options, process, warn}
use loadmaster.Core.Options.Arguments.{CliArgument, no_arguments}
use loadmaster.Core.Options.Validity.{IsValid}
use loadmaster.Cli.{extract, continue, exit_success, exit_failure, run_with, parse_command_line}
use loadmaster.Cli.Extract.{render, AllInts, extract-render}
use loadmaster.Cli.Sound.{parse_command_line-IsValid}

abbrev argv : List Text
argv = codes "-l" ∷ codes "150" ∷ codes "-gi" ∷ codes "2,0" ∷ []

abbrev running : Setup
running = record {
  options = record default_options { cpu_load = pos 150; gpu_indices = 2 ∷ 0 ∷ [] };
  level = warn;
}

parse_argv : parse_command_line 4 argv ≡ run_with running
unfolding parse_command_line process from_chars parse_gpu_indices
parse_argv = refl

parse_help :
    parse_command_line 4 (codes "-l" ∷ codes "1" ∷ codes "-h" ∷ codes "-x" ∷ []) ≡ exit_success
unfolding parse_command_line from_chars
parse_help = refl

parse_half : parse_command_line 4 (codes "-l" ∷ codes "1e3" ∷ []) ≡ exit_failure
unfolding parse_command_line from_chars
parse_half = refl

abbrev spelled : CliArgument
spelled = record no_arguments { cpu_load = some (pos 150); gpu_vendor = some (codes "amd") }

spelled-AllInts : AllInts spelled
spelled-AllInts = record {
  load = (omega arith, omega arith);
  count = tt;
  memory = tt;
  gpu = tt;
  gpu_memory = tt;
}

extract-render_example : extract no_arguments (render spelled) ≡ continue spelled
extract-render_example = extract-render spelled spelled-AllInts

parse_command_line-IsValid_example : IsValid 4 running.options
parse_command_line-IsValid_example = parse_command_line-IsValid 4 argv running parse_argv
