-- ===== src/Gpu/Contention/Records.antt =====
-- ParseGpuEngineInstance, IsComputeEngineType, ParseUserClientCreator, KfdProperty and
-- MapsComputeRuntime, src/gpu/contention/parse.cc.
pub mod Sound
use mathlib.Core.Option
use loadmaster.Prelude.{
  ℕ, zero, suc, ◌+◌, ◌-◌, ◌*◌, ◌%◌, ◌^◌, Bool, true, false, ◌&&◌, ◌||◌, List, [], ◌∷◌, ◌++◌, Option,
  none, some, Text, codes, text_eq, ◌==◌, if◌then◌else◌,
}
use loadmaster.Prelude.Numbers.{is_digit}
use loadmaster.Core.Options.{◌>>=◌}
use loadmaster.Gpu.Contention.Scan.{take_hex, take_char, take_prefix, take_decimal, to_lower}

pub record GpuEngineInstance : Type 0 where
  pub pid : ℕ
  pub luid : ℕ
  pub engine_type : Text

-- `s.substr(s.find(key) + key.size())`, if the key is there.
pub after_first : Text → Text → Option Text
after_first key [] = take_prefix key []
after_first key (c ∷ s) =
    let later = after_first key s in
    elim (take_prefix key (c ∷ s)) [ none ↦ later | some rest ↦ some rest ]

unfoldable pub parse_gpu_engine_instance : Text → Option GpuEngineInstance
unfolding after_first
parse_gpu_engine_instance name = do
  s1 ← take_prefix (codes "pid_") name
  pid ← take_decimal s1
  s2 ← take_prefix (codes "_luid_0x") pid.1
  high ← take_hex 8 s2
  s3 ← take_prefix (codes "_0x") high.1
  low ← take_hex 8 s3
  engine_type ← after_first (codes "_engtype_") low.1
  some (record { pid = pid.0; luid = high.0 * 2 ^ 32 + low.0; engine_type = engine_type })

-- `starts_with_ci`, for a prefix in lower case.
abbrev pub starts_with_ci : Text → Text → Bool
starts_with_ci [] s = true
starts_with_ci (p ∷ prefix) [] = false
starts_with_ci (p ∷ prefix) (c ∷ s) = to_lower c == p && starts_with_ci prefix s

abbrev pub is_compute_engine_type : Text → Bool
is_compute_engine_type engine_type =
    starts_with_ci (codes "compute") engine_type || starts_with_ci (codes "cuda") engine_type

pub record UserClientCreator : Type 0 where
  pub pid : ℕ
  pub name : Text

pub skip_blanks : Text → Text
skip_blanks [] = []
skip_blanks (c ∷ s) = if c == b' ' then skip_blanks s else c ∷ s

unfoldable pub parse_user_client_creator : Text → Option UserClientCreator
unfolding skip_blanks
parse_user_client_creator text = do
  s ← take_prefix (codes "pid ") text
  pid ← take_decimal s
  rest ← take_char b',' pid.1
  some (record { pid = pid.0; name = skip_blanks rest })

-- The text up to the first new line, and what follows it.
unfoldable pub cut_line : Text → Text × Text
cut_line [] = ([], [])
cut_line (c ∷ s) = let (line, rest) = cut_line s in if c == 10 then ([], s) else (c ∷ line, rest)

-- The digits in front as a `uint64_t`, if there are any.
unfoldable pub scan_u64 : ℕ → Text → ℕ
unfolding is_digit
scan_u64 value [] = value
scan_u64 value (c ∷ s) =
    let rest = scan_u64 ((value * 10 + (c - b'0')) % 2 ^ 64) s in if is_digit c then rest else value

abbrev pub take_u64 : Text → Option ℕ
take_u64 [] = none
take_u64 (c ∷ s) = if is_digit c then some (scan_u64 0 (c ∷ s)) else none

-- The value of a line: `none` if the line is not of this key.
abbrev pub value_text : Text → Text → Option Text
value_text key line = take_prefix key line >>= take_char b' '

abbrev pub on_line : Option ℕ → Option Text → Option ℕ
on_line rest none = rest
on_line rest (some value) = take_u64 value

-- The loop over the lines: each takes a byte at least, so the length is fuel enough.
pub find_property : ℕ → Text → Text → Option ℕ
unfolding scan_u64 cut_line
find_property zero properties key = none
find_property (suc fuel) [] key = none
find_property (suc fuel) (c ∷ s) key =
    let (line, more) = cut_line (c ∷ s) in
    let rest = find_property fuel more key in on_line rest (value_text key line)

unfoldable pub kfd_property : Text → Text → Option ℕ
unfolding find_property
kfd_property properties key = find_property (suc (text_length properties)) properties key
  where
    text_length : Text → ℕ
    text_length [] = 0
    text_length (c ∷ s) = suc (text_length s)

-- `maps.find(runtime) != npos`
abbrev pub is_some : Option Text → Bool
is_some none = false
is_some (some t) = true

abbrev pub any_of : Text → List Text → Bool
unfolding after_first
any_of maps [] = false
any_of maps (runtime ∷ more) = is_some (after_first runtime maps) || any_of maps more

abbrev mesa : List Text
mesa = codes "/libRusticlOpenCL.so" ∷ codes "/libMesaOpenCL.so" ∷ []

abbrev intel_runtimes : List Text
intel_runtimes = codes "/libze_intel_gpu.so" ∷ codes "/libigdrcl.so" ∷ []

abbrev amd_runtimes : List Text
amd_runtimes = codes "/libamdhip64.so" ∷ codes "/libhsa-runtime64.so" ∷ codes "/libamdocl64.so" ∷ []

unfoldable pub maps_compute_runtime : Text → Text → Bool
unfolding after_first
maps_compute_runtime maps drm_driver =
    if any_of maps mesa
    then true
    else if text_eq drm_driver (codes "i915") || text_eq drm_driver (codes "xe")
    then any_of maps intel_runtimes
    else if text_eq drm_driver (codes "amdgpu")
    then any_of maps amd_runtimes
    else false
