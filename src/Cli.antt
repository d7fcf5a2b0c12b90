-- ===== src/Cli.antt =====
-- The command line, src/cli/cli.cc and src/cli/cli_argument.h. What `-h` and `-v` print is not
-- modelled: they are the terminal options.
pub mod Extract
pub mod Sound
mod Tests
use mathlib.Core.Option
use loadmaster.Prelude.{
  ℕ, ◌≡◌, Bool, true, false, List, [], ◌∷◌, Option, none, some, Text, codes, text_eq, if◌then◌else◌,
}
use loadmaster.Prelude.Int.{ℤ}
use loadmaster.Prelude.Numbers.{
  IntResult, parsed, invalid_argument, result_out_of_range, from_chars,
}
use loadmaster.Core.Options.{Options, Setup, default_setup, process}
use loadmaster.Core.Options.Arguments.{CliArgument, no_arguments}

-- Which field of `CliArgument` an option fills.
pub data IntField : Type 0 where
  cpu_load cpu_count memory_mb gpu_load gpu_memory_mb : IntField

pub data TextField : Type 0 where
  log_level cpu_algorithm gpu_indices gpu_vendor gpu_algorithm : TextField

-- The handlers of `specs`: the terminal ones print and stop.
pub data Handler : Type 0 where
  print_usage print_version : Handler
  read_int : IntField → Handler
  read_string_view : TextField → Handler

abbrev pub set_int : IntField → CliArgument → ℤ → CliArgument
set_int cpu_load a v = record a { cpu_load = some v }
set_int cpu_count a v = record a { cpu_count = some v }
set_int memory_mb a v = record a { memory_mb = some v }
set_int gpu_load a v = record a { gpu_load = some v }
set_int gpu_memory_mb a v = record a { gpu_memory_mb = some v }

abbrev pub set_text : TextField → CliArgument → Text → CliArgument
set_text log_level a v = record a { log_level = some v }
set_text cpu_algorithm a v = record a { cpu_algorithm = some v }
set_text gpu_indices a v = record a { gpu_indices = some v }
set_text gpu_vendor a v = record a { gpu_vendor = some v }
set_text gpu_algorithm a v = record a { gpu_algorithm = some v }

abbrev pub specs : List (Text × Handler)
specs =
    (codes "-h", print_usage)
    ∷ (codes "-v", print_version)
    ∷ (codes "-l", read_int cpu_load)
    ∷ (codes "-c", read_int cpu_count)
    ∷ (codes "-m", read_int memory_mb)
    ∷ (codes "-L", read_string_view log_level)
    ∷ (codes "-ca", read_string_view cpu_algorithm)
    ∷ (codes "-g", read_int gpu_load)
    ∷ (codes "-gm", read_int gpu_memory_mb)
    ∷ (codes "-gi", read_string_view gpu_indices)
    ∷ (codes "-gv", read_string_view gpu_vendor)
    ∷ (codes "-ga", read_string_view gpu_algorithm)
    ∷ []

-- `std::find_if` over the flags.
pub find_spec : Text → List (Text × Handler) → Option Handler
find_spec sv [] = none
find_spec sv ((flag, h) ∷ rest) = if text_eq sv flag then some h else find_spec sv rest

-- `ec == errc{}`, and `ptr` at the end of the token.
pub int_of : IntResult → Option ℤ
int_of (parsed v []) = some v
int_of (parsed v (c ∷ rest)) = none
int_of invalid_argument = none
int_of result_out_of_range = none

-- `ReadInt` on its token: the whole of it is a decimal `int`.
pub read_int_token : Text → Option ℤ
unfolding int_of
read_int_token t = int_of (from_chars t)

-- A handler that takes a value, on that value.
pub read_value : Handler → CliArgument → Text → Option CliArgument
unfolding read_int_token
read_value print_usage a t = some a
read_value print_version a t = some a
read_value (read_int f) a t = Option.map (set_int f a) (read_int_token t)
read_value (read_string_view f) a t = some (set_text f a t)

pub data StepResult : Type 0 where
  continue : CliArgument → StepResult
  exit_ok fail : StepResult

abbrev pub is_terminal : Handler → Bool
is_terminal print_usage = true
is_terminal print_version = true
is_terminal (read_int f) = false
is_terminal (read_string_view f) = false

-- The end of a round: on with the arguments that the handler made, if it read its value.
abbrev pub on_read : (CliArgument → StepResult) → Option CliArgument → StepResult
on_read again none = fail
on_read again (some b) = again b

-- A round on a flag without a value: terminal options need none.
abbrev pub on_last : Option Handler → StepResult
on_last none = fail
on_last (some h) = if is_terminal h then exit_ok else fail

abbrev pub on_flag : (CliArgument → StepResult) → CliArgument → Text → Option Handler → StepResult
on_flag again a value none = fail
on_flag again a value (some h) =
    if is_terminal h then exit_ok else on_read again (read_value h a value)

-- The loop of `ExtractArguments`, on the arguments from `argv[i]` on.
pub extract : CliArgument → List Text → StepResult
unfolding find_spec read_value
extract a [] = continue a
extract a (flag ∷ []) = on_last (find_spec flag specs)
extract a (flag ∷ value ∷ more) = on_flag (λ b. extract b more) a value (find_spec flag specs)

-- What `ParseCommandLineArguments` leaves behind: the exit code and whether to exit, or the
-- options to run with. (Options of a run that exits are not looked at again.)
pub data ParseResult : Type 0 where
  exit_success exit_failure : ParseResult
  run_with : Setup → ParseResult

-- What ProcessCliArguments says of the arguments.
abbrev pub on_processed : Option Setup → ParseResult
on_processed none = exit_failure
on_processed (some s) = run_with s

abbrev pub on_extracted : ℕ → StepResult → ParseResult
on_extracted core_count fail = exit_failure
on_extracted core_count exit_ok = exit_success
on_extracted core_count (continue a) = on_processed (process core_count default_setup a)

-- `argv` without the program's name; `core_count` is `cpu::CoreCount()`.
pub parse_command_line : ℕ → List Text → ParseResult
unfolding extract
parse_command_line core_count argv = on_extracted core_count (extract no_arguments argv)
