-- ===== src/Gpu/Contention/Fdinfo.antt =====
-- ParseDrmFdinfo, src/gpu/contention/parse.cc. The maps of cycles are association lists, where a
-- later entry for a class replaces the earlier one.
use loadmaster.Prelude.{
  ℕ, zero, suc, ◌+◌, ◌%◌, ◌^◌, Bool, true, false, not, ◌&&◌, ◌||◌, List, [], ◌∷◌, Option, none,
  some, Text, codes, text_eq, ◌==◌, if◌then◌else◌, length,
}
use loadmaster.Prelude.Numbers.{is_digit}
use loadmaster.Gpu.Contention.Scan.{take_prefix}
use loadmaster.Gpu.Contention.Records.{cut_line, scan_u64, is_some}

pub record DrmFdinfo : Type 0 where
  pub client_id : ℕ
  pub has_engine_ns : Bool
  pub engine_ns : ℕ
  pub cycles : List (Text × (ℕ × ℕ))

-- `out`, `drm` and the two maps, as the loop goes.
pub record Parse : Type 0 where
  pub client_id : ℕ
  pub has_engine_ns : Bool
  pub engine_ns : ℕ
  pub drm : Bool
  pub cycles : List (Text × ℕ)
  pub total_cycles : List (Text × ℕ)

abbrev pub start_parse : Parse
start_parse = record {
  client_id = 0;
  has_engine_ns = false;
  engine_ns = 0;
  drm = false;
  cycles = [];
  total_cycles = [];
}

-- `m[key] = number`
abbrev pub assign : Text → ℕ → List (Text × ℕ) → List (Text × ℕ)
assign key number [] = (key, number) ∷ []
assign key number ((k, old) ∷ more) =
    let rest = assign key number more in
    if text_eq k key then (k, number) ∷ more else (k, old) ∷ rest

abbrev pub look_up : Text → List (Text × ℕ) → Option ℕ
look_up key [] = none
look_up key ((k, v) ∷ more) = if text_eq k key then some v else look_up key more

-- The key and the text behind its colon, if the line has one.
pub cut_colon : Text → Option (Text × Text)
cut_colon [] = none
cut_colon (c ∷ s) =
    let rest = cut_colon s in
    if c == b':'
    then some ([], s)
    else (elim rest [ none ↦ none | some (key, value) ↦ some (c ∷ key, value) ])

pub skip_space : Text → Text
skip_space [] = []
skip_space (c ∷ s) = if c == b' ' || c == 9 then skip_space s else c ∷ s

-- `value.substr(n)`, behind the digits.
pub after_digits : Text → Text
unfolding is_digit
after_digits [] = []
after_digits (c ∷ s) = if is_digit c then after_digits s else c ∷ s

abbrev pub starts_with_number : Text → Bool
starts_with_number [] = false
starts_with_number (c ∷ s) = is_digit c

-- `TakePrefix(key, ...)` on the three families of keys, each tried on the whole key.
abbrev pub on_cycles : Option Text → Option Text → ℕ → Parse → Parse
on_cycles (some engine_class) other number p = record p {
  total_cycles = assign engine_class number p.total_cycles;
}
on_cycles none (some engine_class) number p = record p {
  cycles = assign engine_class number p.cycles;
}
on_cycles none none number p = p

-- drm-engine-capacity-<engine> is an engine count, not a time.
abbrev pub on_engine : Option Text → Text → ℕ → Text → Parse → Parse
on_engine (some engine) key number unit p =
    if not (is_some (take_prefix (codes "capacity-") engine)) && text_eq unit (codes " ns")
    then record p { has_engine_ns = true; engine_ns = (p.engine_ns + number) % 2 ^ 64 }
    else p
on_engine none key number unit p =
    on_cycles (take_prefix (codes "drm-total-cycles-") key) (take_prefix (codes "drm-cycles-") key)
      number p

-- A line with a number.
abbrev pub on_number : Text → ℕ → Text → Parse → Parse
on_number key number unit p =
    if text_eq key (codes "drm-client-id")
    then record p { client_id = number }
    else on_engine (take_prefix (codes "drm-engine-") key) key number unit p

abbrev pub on_value : Text → Text → Parse → Parse
on_value key value p =
    if text_eq key (codes "drm-driver")
    then record p { drm = true }
    else if starts_with_number value
    then on_number key (scan_u64 0 value) (after_digits value) p
    else p

abbrev pub on_fd_line : Option (Text × Text) → Parse → Parse
on_fd_line none p = p
on_fd_line (some (key, value)) p = on_value key (skip_space value) p

-- The loop over the lines: each takes a byte at least, so the length is fuel enough.
pub read_lines : ℕ → Text → Parse → Parse
unfolding cut_line scan_u64 cut_colon skip_space after_digits
read_lines zero text p = p
read_lines (suc fuel) [] p = p
read_lines (suc fuel) (c ∷ s) p =
    let (line, rest) = cut_line (c ∷ s) in read_lines fuel rest (on_fd_line (cut_colon line) p)

-- The classes that have both counts.
abbrev pub paired : List (Text × ℕ) → List (Text × ℕ) → List (Text × (ℕ × ℕ))
paired [] total_cycles = []
paired ((engine_class, count) ∷ more) total_cycles =
    let rest = paired more total_cycles in
    elim (look_up engine_class total_cycles) [
      | none ↦ rest
      | some total ↦ (engine_class, (count, total)) ∷ rest
    ]

unfoldable pub parse_drm_fdinfo : Text → Option DrmFdinfo
unfolding read_lines
parse_drm_fdinfo text =
    let p = read_lines (suc (length text)) text start_parse in
    if p.drm
    then some (record {
      client_id = p.client_id;
      has_engine_ns = p.has_engine_ns;
      engine_ns = p.engine_ns;
      cycles = paired p.cycles p.total_cycles;
    })
    else none
