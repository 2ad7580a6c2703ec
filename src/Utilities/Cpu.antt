-- ===== src/Utilities/Cpu.antt =====
-- ml_get_cpus_stats of src/ml.c. What fgets() gets of /proc/stat, line by line, and what sscanf() makes
-- of a line are parameters.
use monolinux_c_library.Prelude.{
  ℕ, zero, suc, ◌+◌, ◌-◌, ◌*◌, ◌/◌, ◌%◌, ◌^◌, List, [], ◌∷◌, Option, none, some, ◌==◌, ◌⊎◌, inl,
  inr, length, take, if◌then◌else◌,
}
use monolinux_c_library.Prelude.Int.{ℤ, pos, negsuc, minus}
use monolinux_c_library.Prelude.Text.{Text, codes, same}
use monolinux_c_library.Prelude.Words.{u32}

-- `struct cpu_stats_t`.
pub record CpuStats : Type 0 where
  pub user : ℕ
  pub nice : ℕ
  pub system : ℕ
  pub idle : ℕ
  pub iowait : ℕ
  pub irq : ℕ
  pub softirq : ℕ
  pub total : ℕ

-- The loads of `struct ml_cpu_stats_t`.
pub record CpuLoad : Type 0 where
  pub user : ℕ
  pub system : ℕ
  pub idle : ℕ

abbrev pub u64 : ℕ → ℕ
u64 n = n % 2 ^ 64

-- The additions of `total`.
unfoldable pub with_total : CpuStats → CpuStats
with_total s = record s {
  total = u64 (s.user + s.nice + s.system + s.idle + s.iowait + s.irq + s.softirq);
}

-- A difference of `unsigned long long`.
abbrev pub sub64 : ℕ → ℕ → ℕ
sub64 a b = (a + 2 ^ 64 - b) % 2 ^ 64

-- calc_cpu_load(): `none` is a division by zero, which ends the process.
unfoldable pub calc_cpu_load : ℕ → ℕ → ℕ → Option ℕ
calc_cpu_load old new total_diff =
    if total_diff == 0 then none else some (u32 (u64 (100 * sub64 new old) / total_diff))

abbrev pub to_load : Option ℕ → Option ℕ → Option ℕ → Option CpuLoad
to_load (some user) (some system) (some idle) =
    some (record { user = user; system = system; idle = idle })
to_load _ _ _ = none

-- The body of the loop of ml_get_cpus_stats().
unfoldable pub cpu_load : CpuStats → CpuStats → Option CpuLoad
unfolding calc_cpu_load
cpu_load old new =
    let total_diff = sub64 new.total old.total in
    to_load (calc_cpu_load old.user new.user total_diff)
      (calc_cpu_load old.system new.system total_diff) (calc_cpu_load old.idle new.idle total_diff)

abbrev pub cons_load : Option CpuLoad → Option (List CpuLoad) → Option (List CpuLoad)
cons_load (some load) (some loads) = some (load ∷ loads)
cons_load _ _ = none

unfoldable pub cpu_loads : List CpuStats → List CpuStats → Option (List CpuLoad)
unfolding cpu_load
cpu_loads (old ∷ olds) (new ∷ news) = cons_load (cpu_load old new) (cpu_loads olds news)
cpu_loads _ _ = some []

module _ (sscanf : Text → Option CpuStats) where
  -- read_cpu_stats() on a line: statistics, the end of them, or an error.
  pub data LineResult : Type 0 where
    stats : CpuStats → LineResult
    ended : LineResult
    failed : LineResult

  abbrev pub parsed : Option CpuStats → LineResult
  parsed none = failed
  parsed (some s) = stats (with_total s)

  unfoldable pub read_cpu_stats : Text → LineResult
  unfolding same with_total
  read_cpu_stats line = if same (take 4 line) (codes "intr") then ended else parsed (sscanf line)

  -- What the loop of read_cpus_stats() has read, or none for an error.
  abbrev pub cons_stats : LineResult → Option (List CpuStats) → Option (List CpuStats)
  cons_stats failed rest = none
  cons_stats ended rest = some []
  cons_stats (stats s) none = none
  cons_stats (stats s) (some rest) = some (s ∷ rest)

  unfoldable pub read_lines : ℕ → List Text → Option (List CpuStats)
  unfolding read_cpu_stats
  read_lines zero lines = some []
  read_lines (suc n) [] = none
  read_lines (suc n) (line ∷ lines) = cons_stats (read_cpu_stats line) (read_lines n lines)

  abbrev pub with_length : Option (List CpuStats) → List CpuStats × ℤ
  with_length none = ([], minus 1000)
  with_length (some read) = (read, pos (length read))

  -- read_cpus_stats(): the file is its lines, or the error number of fopen().
  unfoldable pub read_cpus_stats : ℕ → List Text ⊎ ℕ → List CpuStats × ℤ
  unfolding read_lines
  read_cpus_stats n (inr errno) = ([], minus errno)
  read_cpus_stats zero (inl lines) = ([], minus 1000)
  read_cpus_stats (suc n) (inl lines) = with_length (read_lines (suc n) lines)

  abbrev pub with_loads : ℕ → Option (List CpuLoad) → Option (List CpuLoad × ℤ)
  with_loads n none = none
  with_loads n (some loads) = some (loads, pos n)

  abbrev pub second_read : List CpuStats → ℕ → List CpuStats × ℤ → Option (List CpuLoad × ℤ)
  second_read olds n (news, negsuc e) = some ([], negsuc e)
  second_read olds n (news, pos m) =
      let loads = cpu_loads olds news in
      if m == n then with_loads n loads else some ([], minus 1000)

  abbrev pub first_read : List CpuStats × ℤ → (ℕ → List CpuStats × ℤ) → Option (List CpuLoad × ℤ)
  first_read (olds, negsuc e) again = some ([], negsuc e)
  first_read (olds, pos n) again = second_read olds n (again n)

  -- ml_get_cpus_stats() on the file as it is before and after the pause.
  unfoldable pub get_cpus_stats : ℕ → List Text ⊎ ℕ → List Text ⊎ ℕ → Option (List CpuLoad × ℤ)
  unfolding read_cpus_stats cpu_loads
  get_cpus_stats n before after =
      first_read (read_cpus_stats n before) (λ m. read_cpus_stats m after)
