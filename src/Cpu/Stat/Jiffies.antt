-- ===== src/Cpu/Stat/Jiffies.antt =====
-- What ReadBusyJiffies makes of the lines of /proc/stat.
use loadmaster.Prelude.{
  ℕ, ◌+◌, ◌%◌, ◌^◌, ◌≡◌, refl, ap, ◌∙◌, Bool, true, false, ◌||◌, Option, none, some, List, [], ◌∷◌,
  ◌++◌, Text, arith, if◌then◌else◌,
}
use loadmaster.Cpu.Stat.{
  ProcStatFields, busy_jiffies, line_fields, other_line, aggregate, cpu_number, line_kind,
  is_allowed, result_on, add_line, on_kind, on_kind_all, on_cpu_line, read_all_cpus, read_allowed,
  read_busy_jiffies,
}

-- The lines are those of these CPUs, each with its fields.
abbrev pub AreCpus : List Text → List (ℕ × ProcStatFields) → Type 0
AreCpus [] [] = Unit
AreCpus [] (cpu ∷ cpus) = ⊥
AreCpus (line ∷ lines) [] = ⊥
AreCpus (line ∷ lines) ((n, f) ∷ cpus) =
    (line_kind line ≡ cpu_number n) × (line_fields line ≡ some f) × AreCpus lines cpus

-- The busy time of the CPUs allowed, as a `uint64_t`, and whether there is one.
abbrev pub busy_sum : List Bool → List (ℕ × ProcStatFields) → ℕ → ℕ
busy_sum allowed [] total = total
busy_sum allowed ((n, f) ∷ cpus) total =
    busy_sum allowed cpus
      (if is_allowed allowed n then (total + busy_jiffies f) % 2 ^ 64 else total)

abbrev pub any_allowed : List Bool → List (ℕ × ProcStatFields) → Bool
any_allowed allowed [] = false
any_allowed allowed ((n, f) ∷ cpus) = is_allowed allowed n || any_allowed allowed cpus

on_cpu_line-adds :
    (b : Bool) (next_line : Bool → ℕ → Option ℕ) (line : Text) (f : ProcStatFields) (found : Bool)
    (total : ℕ)
    → line_fields line ≡ some f
    → on_cpu_line b next_line line found total
      ≡ next_line (found || b) (if b then (total + busy_jiffies f) % 2 ^ 64 else total)
on_cpu_line-adds false next_line line f false total e = refl
on_cpu_line-adds false next_line line f true total e = refl
on_cpu_line-adds true next_line line f false total e =
    ap (λ row. add_line (next_line true) row total) e
on_cpu_line-adds true next_line line f true total e =
    ap (λ row. add_line (next_line true) row total) e

or_assoc : (a b c : Bool) → ((a || b) || c) ≡ (a || (b || c))
or_assoc true b c = refl
or_assoc false b c = refl

or_false : (a : Bool) → a ≡ (a || false)
or_false true = refl
or_false false = refl

read_allowed-sum :
    (allowed : List Bool) (lines : List Text) (cpus : List (ℕ × ProcStatFields)) (after : Text)
    (rest : List Text) (found : Bool) (total : ℕ)
    → AreCpus lines cpus
    → line_kind after ≡ other_line
    → read_allowed allowed (lines ++ after ∷ rest) found total
      ≡ result_on (found || any_allowed allowed cpus) (busy_sum allowed cpus total)
read_allowed-sum allowed [] [] after rest found total a e =
    ap (λ kind. on_kind allowed kind (read_allowed allowed rest) after found total) e
    ∙ ap (λ b. result_on b total) (or_false found)
read_allowed-sum allowed [] (cpu ∷ cpus) after rest found total a e = absurd a
read_allowed-sum allowed (line ∷ lines) [] after rest found total a e = absurd a
read_allowed-sum allowed (line ∷ lines) ((n, f) ∷ cpus) after rest found total (k, row, more) e =
    let next_line = read_allowed allowed (lines ++ after ∷ rest) in
    let b = is_allowed allowed n in
    let sum = if b then (total + busy_jiffies f) % 2 ^ 64 else total in
    ap (λ kind. on_kind allowed kind next_line line found total) k
    ∙ on_cpu_line-adds b next_line line f found total row
    ∙ read_allowed-sum allowed lines cpus after rest (found || b) sum more e
    ∙ ap (λ c. result_on c (busy_sum allowed cpus sum))
        (or_assoc found b (any_allowed allowed cpus))

busy_jiffies_word : (f : ProcStatFields) → (0 + busy_jiffies f) % 2 ^ 64 ≡ busy_jiffies f
unfolding busy_jiffies
busy_jiffies_word f = omega arith

result_if : (b : Bool) (n : ℕ) → result_on b n ≡ (if b then some n else none)
result_if true n = refl
result_if false n = refl

-- Of a /proc/stat that begins with the line of all CPUs and goes on with those of single ones and
-- with something else, it reads the busy time of the first line if we may run anywhere, and else the
-- sum over the CPUs that we may run on, or nothing if there is none.
pub read_busy_jiffies-sum :
    (first : Text) (all : ProcStatFields) (lines : List Text) (cpus : List (ℕ × ProcStatFields))
    (after : Text) (rest : List Text) (allowed : List Bool)
    → line_kind first ≡ aggregate
    → line_fields first ≡ some all
    → AreCpus lines cpus
    → line_kind after ≡ other_line
    → (read_busy_jiffies none (first ∷ (lines ++ after ∷ rest)) ≡ some (busy_jiffies all))
      × (read_busy_jiffies (some allowed) (first ∷ (lines ++ after ∷ rest))
          ≡ (if any_allowed allowed cpus then some (busy_sum allowed cpus 0) else none))
read_busy_jiffies-sum first all lines cpus after rest allowed k row a e = (
  ap (λ kind. on_kind_all kind (read_all_cpus (lines ++ after ∷ rest)) first false 0) k
      ∙ ap (λ found. add_line (λ sum. some sum) found 0) row
      ∙ ap some (busy_jiffies_word all),
  ap (λ kind. on_kind allowed kind (read_allowed allowed (lines ++ after ∷ rest)) first false 0) k
      ∙ read_allowed-sum allowed lines cpus after rest false 0 a e
      ∙ result_if (any_allowed allowed cpus) (busy_sum allowed cpus 0),
)
