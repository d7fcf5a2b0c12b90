-- ===== src/Cpu/Stat.antt =====
-- src/cpu/stat_linux.cc: BusyJiffies, ReadBusyJiffies, ParseCgroupCpuMax and CoreCount. What fgets
-- reads from a file is a list of texts; `sscanf` is modelled by its documented conversions, where a
-- number out of range of its type has no meaning in C and is kept as it is.
pub mod Above
pub mod Cores
pub mod Jiffies
mod Tests
use loadmaster.Prelude.{
  ℕ, zero, suc, ◌+◌, ◌-◌, ◌/◌, ◌%◌, ◌^◌, min, max, Bool, true, false, not, ◌&&◌, ◌||◌, Option, none,
  some, List, [], ◌∷◌, ◌++◌, Text, codes, text_eq, length, leb, ltb, ◌==◌, if◌then◌else◌,
}
use loadmaster.Prelude.Numbers.{is_digit, scan_digits}
use loadmaster.Gpu.Contention.LinuxFs.{skip_isspace}

-- ProcStatFields
pub record ProcStatFields : Type 0 where
  pub user : ℕ
  pub nice : ℕ
  pub system : ℕ
  pub idle : ℕ
  pub iowait : ℕ
  pub irq : ℕ
  pub softirq : ℕ
  pub steal : ℕ

unfoldable pub busy_jiffies : ProcStatFields → ℕ
busy_jiffies f = (f.user + f.nice + f.system + f.irq + f.softirq + f.steal) % 2 ^ 64

-- A number behind its sign: whether it is negative, and what follows.
abbrev pub scan_sign : Text → Bool × Text
scan_sign [] = (false, [])
scan_sign (c ∷ s) =
    if c == b'-' then (true, s) else if c == b'+' then (false, s) else (false, c ∷ s)

abbrev pub digits_on : Bool → Text → Option (Bool × ℕ × Text)
digits_on negative [] = none
digits_on negative (c ∷ s) =
    let read = scan_digits 0 (c ∷ s) in if is_digit c then some (negative, read.0, read.1) else none

-- `%d`, `%lld` or `%lu`: the sign, the number and the rest, if there is a digit.
unfoldable pub scan_number : Text → Option (Bool × ℕ × Text)
unfolding skip_isspace
scan_number text = let signed = scan_sign (skip_isspace text) in digits_on signed.0 signed.1

-- A row of `%lu`: a negative one wraps around.
abbrev pub unsigned_on : Bool → ℕ → ℕ
unsigned_on true n = (2 ^ 64 - n % 2 ^ 64) % 2 ^ 64
unsigned_on false n = n

abbrev pub scan_row : ℕ → Text → List ℕ
scan_row zero text = []
scan_row (suc left) text = elim (scan_number text) [
  | none ↦ []
  | some (negative, n, rest) ↦ unsigned_on negative n ∷ scan_row left rest
]

-- At least eight of the ten fields.
abbrev pub fields_on : List ℕ → Option ProcStatFields
fields_on (user ∷ nice ∷ system ∷ idle ∷ iowait ∷ irq ∷ softirq ∷ steal ∷ more) = some (record {
  user = user;
  nice = nice;
  system = system;
  idle = idle;
  iowait = iowait;
  irq = irq;
  softirq = softirq;
  steal = steal;
})
fields_on row = none

-- `std::strchr(line, ' ')`
abbrev pub from_space : Text → Option Text
from_space [] = none
from_space (c ∷ s) = if c == b' ' then some (c ∷ s) else from_space s

abbrev pub row_on : Option Text → Option ProcStatFields
row_on none = none
row_on (some fields) = fields_on (scan_row 10 fields)

unfoldable pub line_fields : Text → Option ProcStatFields
line_fields line = row_on (from_space line)

-- The kinds of line: not of a CPU, of all of them, or of one, by what follows `cpu`.
pub data CpuLine : Type 0 where
  other_line aggregate malformed negative_cpu : CpuLine
  cpu_number : ℕ → CpuLine

abbrev pub numbered : Option (Bool × ℕ × Text) → CpuLine
numbered none = malformed
numbered (some (true, n, rest)) = negative_cpu
numbered (some (false, n, rest)) = cpu_number n

abbrev pub behind_cpu : Text → CpuLine
behind_cpu [] = numbered (scan_number [])
behind_cpu (c ∷ s) = if c == b' ' || c == 9 then aggregate else numbered (scan_number (c ∷ s))

unfoldable pub line_kind : Text → CpuLine
line_kind (a ∷ b ∷ c ∷ s) =
    if a == b'c' && (b == b'p' && c == b'u') then behind_cpu s else other_line
line_kind line = other_line

-- `(*allowed)[cpu_id]`
abbrev pub is_allowed : List Bool → ℕ → Bool
is_allowed [] n = false
is_allowed (b ∷ bs) zero = b
is_allowed (b ∷ bs) (suc n) = is_allowed bs n

abbrev pub result_on : Bool → ℕ → Option ℕ
result_on false total = none
result_on true total = some total

-- The sum with a line's fields, and the loop after it.
abbrev pub add_line : (ℕ → Option ℕ) → Option ProcStatFields → ℕ → Option ℕ
add_line next_line none total = none
add_line next_line (some f) total = next_line ((total + busy_jiffies f) % 2 ^ 64)

abbrev pub on_cpu_line : Bool → (Bool → ℕ → Option ℕ) → Text → Bool → ℕ → Option ℕ
on_cpu_line false next_line line found total = next_line found total
on_cpu_line true next_line line found total = add_line (next_line true) (line_fields line) total

-- Without a mask: the first line counts, if it is that of all CPUs.
abbrev pub on_kind_all : CpuLine → (Bool → ℕ → Option ℕ) → Text → Bool → ℕ → Option ℕ
on_kind_all other_line next_line line found total = result_on found total
on_kind_all malformed next_line line found total = none
on_kind_all negative_cpu next_line line found total = next_line found total
on_kind_all (cpu_number n) next_line line found total = next_line found total
on_kind_all aggregate next_line line found total =
    add_line (λ sum. some sum) (line_fields line) total

-- With a mask: the lines of the CPUs that it has.
abbrev pub on_kind : List Bool → CpuLine → (Bool → ℕ → Option ℕ) → Text → Bool → ℕ → Option ℕ
on_kind allowed other_line next_line line found total = result_on found total
on_kind allowed malformed next_line line found total = none
on_kind allowed negative_cpu next_line line found total = next_line found total
on_kind allowed aggregate next_line line found total = next_line found total
on_kind allowed (cpu_number n) next_line line found total =
    on_cpu_line (is_allowed allowed n) next_line line found total

abbrev pub read_all_cpus : List Text → Bool → ℕ → Option ℕ
read_all_cpus [] found total = result_on found total
read_all_cpus (line ∷ lines) found total =
    on_kind_all (line_kind line) (read_all_cpus lines) line found total

abbrev pub read_allowed : List Bool → List Text → Bool → ℕ → Option ℕ
read_allowed allowed [] found total = result_on found total
read_allowed allowed (line ∷ lines) found total =
    on_kind allowed (line_kind line) (read_allowed allowed lines) line found total

-- ReadBusyJiffies
abbrev pub read_busy_jiffies : Option (List Bool) → List Text → Option ℕ
read_busy_jiffies none lines = read_all_cpus lines false 0
read_busy_jiffies (some allowed) lines = read_allowed allowed lines false 0

-- ParseCgroupCpuMax: the quota, then the period, both positive.
abbrev pub rounded_up : ℕ → ℕ → Option ℕ
rounded_up quota period =
    if quota == 0 || period == 0 then none else some ((quota + period - 1) / period % 2 ^ 32)

abbrev pub on_period : ℕ → Option (Bool × ℕ × Text) → Option ℕ
on_period quota none = none
on_period quota (some (true, period, rest)) = none
on_period quota (some (false, period, rest)) = rounded_up quota period

abbrev pub on_quota : Option (Bool × ℕ × Text) → Option ℕ
on_quota none = none
on_quota (some (true, quota, rest)) = none
on_quota (some (false, quota, rest)) = on_period quota (scan_number rest)

unfoldable pub parse_cgroup_cpu_max : Text → Option ℕ
parse_cgroup_cpu_max content = on_quota (scan_number content)

-- `count > 0 ? std::min(count, limit) : limit`, for a positive `int`.
abbrev pub tightened : ℕ → ℕ → ℕ
tightened zero limit = limit
tightened (suc n) limit = min (suc n) limit

abbrev pub tighten : Option ℕ → ℕ → ℕ
tighten none count = count
tighten (some limit) count =
    if ltb 0 limit && ltb limit (2 ^ 31) then tightened count limit else count

-- The text up to the last slash, if there is one.
abbrev pub with_first : ℕ → Option Text → Option Text
with_first c none = if c == b'/' then some [] else none
with_first c (some t) = some (c ∷ t)

unfoldable pub up_to_slash : Text → Option Text
up_to_slash [] = none
up_to_slash (c ∷ s) = with_first c (up_to_slash s)

abbrev pub root : Text
root = b'/' ∷ []

abbrev pub parent_on : Option Text → Text
parent_on none = root
parent_on (some []) = root
parent_on (some (c ∷ s)) = c ∷ s

abbrev pub parent : Text → Text
parent path = parent_on (up_to_slash path)

abbrev pub is_top : Text → Bool
is_top [] = true
is_top (c ∷ s) = text_eq (c ∷ s) root

abbrev pub cpu_max_file : Text → Text
cpu_max_file path =
    codes "/sys/fs/cgroup" ++ ((if text_eq path root then [] else path) ++ codes "/cpu.max")

abbrev pub limit_on : Option Text → Option ℕ
limit_on none = none
limit_on (some content) = parse_cgroup_cpu_max content

-- The line of the group: what follows `0::`, without the line's end.
abbrev pub without_end : Text → Text
without_end [] = []
without_end (c ∷ s) = elim (without_end s) [
  | [] ↦ if c == 10 || c == 13 then [] else c ∷ []
  | d ∷ t ↦ c ∷ d ∷ t
]

abbrev pub cgroup_of : List Text → Text
cgroup_of [] = root
cgroup_of ((a ∷ b ∷ c ∷ s) ∷ lines) =
    if a == b'0' && (b == b':' && c == b':') then without_end s else cgroup_of lines
cgroup_of (line ∷ lines) = cgroup_of lines

-- What fgets reads from the file of a name, if it can be opened and has a line.
module _ (first_line : Text → Option Text) where
  -- The walk up to the root; `none` means that the fuel ran out.
  unfoldable pub walk : ℕ → Text → ℕ → Option ℕ
  walk zero path count = none
  walk (suc fuel) path count =
      let tighter = tighten (limit_on (first_line (cpu_max_file path))) count in
      let rest = walk fuel (parent path) tighter in if is_top path then some tighter else rest

  abbrev pub at_least_one : Option ℕ → Option ℕ
  at_least_one none = none
  at_least_one (some count) = some (max count 1)

  -- CoreCount, on what the system says: the hardware's concurrency, the size of the affinity set if
  -- it can be read, and the lines of /proc/self/cgroup.
  unfoldable pub core_count : ℕ → Option ℕ → List Text → Option ℕ
  core_count hardware affinity cgroup =
      let path = cgroup_of cgroup in
      at_least_one (walk (suc (suc (length path))) path (tighten affinity hardware))
