-- ===== src/Core/Options/Arguments.antt =====
-- cli::CliArgument, src/cli/cli_argument.h: what the command line gave.
use loadmaster.Prelude.{Option, none, Text}
use loadmaster.Prelude.Int.{ℤ}

pub record CliArgument : Type 0 where
  pub cpu_load : Option ℤ
  pub cpu_count : Option ℤ
  pub memory_mb : Option ℤ
  pub log_level : Option Text
  pub cpu_algorithm : Option Text
  pub gpu_load : Option ℤ
  pub gpu_memory_mb : Option ℤ
  pub gpu_indices : Option Text
  pub gpu_vendor : Option Text
  pub gpu_algorithm : Option Text

abbrev pub no_arguments : CliArgument
no_arguments = record {
  cpu_load = none;
  cpu_count = none;
  memory_mb = none;
  log_level = none;
  cpu_algorithm = none;
  gpu_load = none;
  gpu_memory_mb = none;
  gpu_indices = none;
  gpu_vendor = none;
  gpu_algorithm = none;
}
