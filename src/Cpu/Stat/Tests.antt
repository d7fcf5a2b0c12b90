-- ===== src/Cpu/Stat/Tests.antt =====
-- Runs over a /proc/stat of two CPUs, and over the limits of a group in a slice.
use loadmaster.Prelude.{
  ℕ, ◌≡◌, refl, max, Option, none, some, List, [], ◌∷◌, Text, codes, text_eq, if◌then◌else◌,
}
use loadmaster.Prelude.Numbers.{scan_digits, is_digit}
use loadmaster.Gpu.Contention.LinuxFs.{skip_isspace}
use loadmaster.Cpu.Stat.{
  ProcStatFields, line_fields, line_kind, scan_number, aggregate, cpu_number, other_line,
  parse_cgroup_cpu_max, core_count, walk, cgroup_of, tighten, up_to_slash,
}
use loadmaster.Cpu.Stat.Cores.{Tightest, core_count-Tightest}

abbrev row : ℕ → ProcStatFields
row n = record {
  user = n;
  nice = 0;
  system = 1;
  idle = 9;
  iowait = 0;
  irq = 0;
  softirq = 0;
  steal = 0;
}

abbrev all_line : Text
all_line = codes "cpu  7 0 1 9 0 0 0 0 0 0"

abbrev first_line : Text
first_line = codes "cpu0 4 0 1 9 0 0 0 0 0 0"

abbrev second_line : Text
second_line = codes "cpu1 3 0 1 9 0 0 0 0 0 0"

all_kind : line_kind all_line ≡ aggregate
unfolding line_kind scan_number skip_isspace scan_digits is_digit
all_kind = refl

all_fields : line_fields all_line ≡ some (row 7)
unfolding line_fields scan_number skip_isspace scan_digits is_digit
all_fields = refl

first_kind : line_kind first_line ≡ cpu_number 0
unfolding line_kind scan_number skip_isspace scan_digits is_digit
first_kind = refl

first_fields : line_fields first_line ≡ some (row 4)
unfolding line_fields scan_number skip_isspace scan_digits is_digit
first_fields = refl

second_kind : line_kind second_line ≡ cpu_number 1
unfolding line_kind scan_number skip_isspace scan_digits is_digit
second_kind = refl

second_fields : line_fields second_line ≡ some (row 3)
unfolding line_fields scan_number skip_isspace scan_digits is_digit
second_fields = refl

intr_kind : line_kind (codes "intr 12") ≡ other_line
unfolding line_kind
intr_kind = refl

-- Two and a half cores are rounded up.
cpu_max_rounded : parse_cgroup_cpu_max (codes "250000 100000") ≡ some 3
unfolding parse_cgroup_cpu_max scan_number skip_isspace scan_digits is_digit
cpu_max_rounded = refl

abbrev cpu_max : Text → Option Text
cpu_max file =
    if text_eq file (codes "/sys/fs/cgroup/a.slice/cpu.max")
    then some (codes "250000 100000")
    else if text_eq file (codes "/sys/fs/cgroup/a.slice/b/cpu.max")
    then some (codes "max 100000")
    else none

abbrev cgroup : List Text
cgroup = codes "0::/a.slice/b" ∷ []

core_count-Tightest_example :
    (n : ℕ) × (core_count cpu_max 16 (some 8) cgroup ≡ some (max n 1))
    × Tightest cpu_max (cgroup_of cgroup) (tighten (some 8) 16) n
core_count-Tightest_example = core_count-Tightest cpu_max 16 (some 8) cgroup

three_cores : core_count cpu_max 16 (some 8) cgroup ≡ some 3
unfolding core_count walk parse_cgroup_cpu_max scan_number skip_isspace scan_digits is_digit
    up_to_slash
three_cores = refl
