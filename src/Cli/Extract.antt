-- ===== src/Cli/Extract.antt =====
-- ExtractArguments on the arguments that spell a CliArgument.
use mathlib.Core.List.{append-nil}
use loadmaster.Prelude.{◌≡◌, refl, ap, ◌∙◌, List, [], ◌∷◌, ◌++◌, Option, none, some, Text, codes}
use loadmaster.Prelude.Int.{ℤ}
use loadmaster.Prelude.Numbers.{parsed, IsInt, from_chars, show_int, from_chars-show_int}
use loadmaster.Core.Options.Arguments.{CliArgument, no_arguments}
use loadmaster.Core.Options.Ensures.{Given}
use loadmaster.Cli.{
  IntField, TextField, cpu_load, cpu_count, memory_mb, gpu_load, gpu_memory_mb, log_level,
  cpu_algorithm, gpu_indices, gpu_vendor, gpu_algorithm, read_int, read_string_view, set_int,
  set_text, specs, find_spec, read_int_token, read_value, continue, extract,
}

-- The flag of a field.
abbrev pub int_flag : IntField → Text
int_flag cpu_load = codes "-l"
int_flag cpu_count = codes "-c"
int_flag memory_mb = codes "-m"
int_flag gpu_load = codes "-g"
int_flag gpu_memory_mb = codes "-gm"

abbrev pub text_flag : TextField → Text
text_flag log_level = codes "-L"
text_flag cpu_algorithm = codes "-ca"
text_flag gpu_indices = codes "-gi"
text_flag gpu_vendor = codes "-gv"
text_flag gpu_algorithm = codes "-ga"

abbrev pub show_int_field : IntField → Option ℤ → List Text
show_int_field f none = []
show_int_field f (some v) = int_flag f ∷ show_int v ∷ []

abbrev pub show_text_field : TextField → Option Text → List Text
show_text_field f none = []
show_text_field f (some t) = text_flag f ∷ t ∷ []

-- A command line for the given arguments.
pub render : CliArgument → List Text
render a =
    show_int_field cpu_load a.cpu_load
    ++ (show_int_field cpu_count a.cpu_count
        ++ (show_int_field memory_mb a.memory_mb
            ++ (show_text_field log_level a.log_level
                ++ (show_text_field cpu_algorithm a.cpu_algorithm
                    ++ (show_int_field gpu_load a.gpu_load
                        ++ (show_int_field gpu_memory_mb a.gpu_memory_mb
                            ++ (show_text_field gpu_indices a.gpu_indices
                                ++ (show_text_field gpu_vendor a.gpu_vendor
                                    ++ (show_text_field gpu_algorithm a.gpu_algorithm ++ [])))))))))

find_int_flag : (f : IntField) → find_spec (int_flag f) specs ≡ some (read_int f)
unfolding find_spec
find_int_flag cpu_load = refl
find_int_flag cpu_count = refl
find_int_flag memory_mb = refl
find_int_flag gpu_load = refl
find_int_flag gpu_memory_mb = refl

find_text_flag : (f : TextField) → find_spec (text_flag f) specs ≡ some (read_string_view f)
unfolding find_spec
find_text_flag log_level = refl
find_text_flag cpu_algorithm = refl
find_text_flag gpu_indices = refl
find_text_flag gpu_vendor = refl
find_text_flag gpu_algorithm = refl

read_int_token-show_int : (v : ℤ) → IsInt v → read_int_token (show_int v) ≡ some v
unfolding read_int_token
read_int_token-show_int v i =
    let read : from_chars (show_int v) ≡ parsed v [] =
      rw append-nil at (from_chars-show_int v [] i tt) in
    rw read

-- A field set to what is given for it, also to nothing.
abbrev put_int : IntField → Option ℤ → CliArgument → CliArgument
put_int cpu_load g a = record a { cpu_load = g }
put_int cpu_count g a = record a { cpu_count = g }
put_int memory_mb g a = record a { memory_mb = g }
put_int gpu_load g a = record a { gpu_load = g }
put_int gpu_memory_mb g a = record a { gpu_memory_mb = g }

abbrev put_text : TextField → Option Text → CliArgument → CliArgument
put_text log_level g a = record a { log_level = g }
put_text cpu_algorithm g a = record a { cpu_algorithm = g }
put_text gpu_indices g a = record a { gpu_indices = g }
put_text gpu_vendor g a = record a { gpu_vendor = g }
put_text gpu_algorithm g a = record a { gpu_algorithm = g }

set_int-put_int :
    (f : IntField) (a : CliArgument) (v : ℤ) → set_int f (put_int f none a) v ≡ put_int f (some v) a
set_int-put_int cpu_load a v = refl
set_int-put_int cpu_count a v = refl
set_int-put_int memory_mb a v = refl
set_int-put_int gpu_load a v = refl
set_int-put_int gpu_memory_mb a v = refl

set_text-put_text :
    (f : TextField) (a : CliArgument) (t : Text)
    → set_text f (put_text f none a) t ≡ put_text f (some t) a
set_text-put_text log_level a t = refl
set_text-put_text cpu_algorithm a t = refl
set_text-put_text gpu_indices a t = refl
set_text-put_text gpu_vendor a t = refl
set_text-put_text gpu_algorithm a t = refl

-- Reading back one field, given or not.
extract-int_field :
    (f : IntField) (given : Option ℤ) (a : CliArgument) (more : List Text)
    → Given IsInt given
    → extract (put_int f none a) (show_int_field f given ++ more) ≡ extract (put_int f given a) more
unfolding extract read_value
extract-int_field f none a more i = refl
extract-int_field f (some v) a more i =
    rw (find_int_flag f, extract)
      (rw (read_int_token-show_int v i, extract) (ap (λ b. extract b more) (set_int-put_int f a v)))

extract-text_field :
    (f : TextField) (given : Option Text) (a : CliArgument) (more : List Text)
    → extract (put_text f none a) (show_text_field f given ++ more)
      ≡ extract (put_text f given a) more
unfolding extract read_value
extract-text_field f none a more = refl
extract-text_field f (some t) a more =
    rw (find_text_flag f, extract) (ap (λ b. extract b more) (set_text-put_text f a t))

extract-nil : (a : CliArgument) → extract a [] ≡ continue a
unfolding extract
extract-nil a = refl

-- Every integer that a CliArgument holds is an `int`.
pub record AllInts (a : CliArgument) : Type 0 where
  pub load : Given IsInt a.cpu_load
  pub count : Given IsInt a.cpu_count
  pub memory : Given IsInt a.memory_mb
  pub gpu : Given IsInt a.gpu_load
  pub gpu_memory : Given IsInt a.gpu_memory_mb

-- Whatever a CliArgument holds, the command line that spells it gives it back: each flag fills
-- its own field, integers with the value written and texts as they are, and a field that no
-- flag names stays empty.
pub extract-render : (a : CliArgument) → AllInts a → extract no_arguments (render a) ≡ continue a
unfolding render
extract-render a i =
    let a1 = put_int cpu_load a.cpu_load no_arguments in
    let a2 = put_int cpu_count a.cpu_count a1 in
    let a3 = put_int memory_mb a.memory_mb a2 in
    let a4 = put_text log_level a.log_level a3 in
    let a5 = put_text cpu_algorithm a.cpu_algorithm a4 in
    let a6 = put_int gpu_load a.gpu_load a5 in
    let a7 = put_int gpu_memory_mb a.gpu_memory_mb a6 in
    let a8 = put_text gpu_indices a.gpu_indices a7 in
    let a9 = put_text gpu_vendor a.gpu_vendor a8 in
    let a10 = put_text gpu_algorithm a.gpu_algorithm a9 in
    extract-int_field cpu_load a.cpu_load no_arguments _ i.load
    ∙ extract-int_field cpu_count a.cpu_count a1 _ i.count
    ∙ extract-int_field memory_mb a.memory_mb a2 _ i.memory
    ∙ extract-text_field log_level a.log_level a3 _
    ∙ extract-text_field cpu_algorithm a.cpu_algorithm a4 _
    ∙ extract-int_field gpu_load a.gpu_load a5 _ i.gpu
    ∙ extract-int_field gpu_memory_mb a.gpu_memory_mb a6 _ i.gpu_memory
    ∙ extract-text_field gpu_indices a.gpu_indices a7 _
    ∙ extract-text_field gpu_vendor a.gpu_vendor a8 _
    ∙ extract-text_field gpu_algorithm a.gpu_algorithm a9 _
    ∙ extract-nil a
