-- ===== src/Utilities/Loads.antt =====
-- The loads that ml_get_cpus_stats of src/ml.c computes.
use native.Mathlib.Nat.{mod-eq_of_lt, div-mul-le_self, le_of_mul-le-mul_right}
use monolinux_c_library.Prelude.{
  ℕ, ◌+◌, ◌-◌, ◌*◌, ◌/◌, ◌^◌, ◌≡◌, ◌≤◌, ◌<◌, refl, some, ◌==◌, arith, false,
}
use monolinux_c_library.Prelude.Words.{u32}
use monolinux_c_library.Utilities.Cpu.{
  CpuStats, CpuLoad, u64, sub64, with_total, calc_cpu_load, cpu_load,
}

-- Counters that have not decreased, with sums far from the range of 64 bits.
pub record IsLater (old new : CpuStats) : Type 0 where
  pub user : old.user ≤ new.user
  pub nice : old.nice ≤ new.nice
  pub system : old.system ≤ new.system
  pub idle : old.idle ≤ new.idle
  pub iowait : old.iowait ≤ new.iowait
  pub irq : old.irq ≤ new.irq
  pub softirq : old.softirq ≤ new.softirq
  pub range :
      new.user + new.nice + new.system + new.idle + new.iowait + new.irq + new.softirq < 2 ^ 57

three_shares : (d u s i : ℕ) → 0 < d → u + s + i ≤ d → 100 * u / d + 100 * s / d + 100 * i / d ≤ 100
three_shares d u s i hd h =
    le_of_mul-le-mul_right {k = d}
      (grind (
        arith,
        div-mul-le_self (100 * u) d,
        div-mul-le_self (100 * s) d,
        div-mul-le_self (100 * i) d,
      ))
      hd

calc_lem :
    (old new d : ℕ)
    → 0 < d
    → old ≤ new
    → new < 2 ^ 57
    → 100 * (new - old) / d ≤ 100
    → calc_cpu_load old new d ≡ some (100 * (new - old) / d)
unfolding calc_cpu_load
calc_lem old new d hd h hn hq =
    let nonzero : (d == 0) ≡ false = ground arith in
    let diff : sub64 new old ≡ new - old = omega arith in
    let product : u64 (100 * (new - old)) ≡ 100 * (new - old) = omega arith in
    let small : u32 (100 * (new - old) / d) ≡ 100 * (new - old) / d = mod-eq_of_lt (omega arith) in
    rw (nonzero, diff, product, small) refl

-- The sums that the code makes, and the time that has passed.
abbrev pub sum_of : CpuStats → ℕ
sum_of s = s.user + s.nice + s.system + s.idle + s.iowait + s.irq + s.softirq

abbrev pub time_share : ℕ → ℕ → CpuStats → CpuStats → ℕ
time_share old new before after = 100 * (new - old) / (sum_of after - sum_of before)

total_diff :
    (old new : CpuStats)
    → IsLater old new
    → sub64 (with_total new).total (with_total old).total ≡ sum_of new - sum_of old
unfolding with_total
total_diff old new l =
    omega (arith, l.user, l.nice, l.system, l.idle, l.iowait, l.irq, l.softirq, l.range)

-- Of counters that have not decreased, and of which one has grown, the loads are the shares of user,
-- system and idle time in percent, and at most 100 together.
pub cpu_load_lem :
    (old new : CpuStats)
    → IsLater old new
    → sum_of old < sum_of new
    → let load : CpuLoad = record {
      user = time_share old.user new.user old new;
      system = time_share old.system new.system old new;
      idle = time_share old.idle new.idle old new;
    } in
      (cpu_load (with_total old) (with_total new) ≡ some load)
      × (time_share old.user new.user old new
            + time_share old.system new.system old new
            + time_share old.idle new.idle old new
          ≤ 100)
unfolding cpu_load with_total
cpu_load_lem old new l h =
    let d = sum_of new - sum_of old in
    let positive : 0 < d = omega (arith, h) in
    let three =
      three_shares d (new.user - old.user) (new.system - old.system) (new.idle - old.idle) positive
        (omega (arith, l.user, l.nice, l.system, l.idle, l.iowait, l.irq, l.softirq)) in
    let eu : calc_cpu_load old.user new.user d ≡ some (time_share old.user new.user old new) =
      calc_lem old.user new.user d positive l.user (omega (arith, l.range))
        (omega (arith, three)) in
    let es : calc_cpu_load old.system new.system d
        ≡ some (time_share old.system new.system old new) =
      calc_lem old.system new.system d positive l.system (omega (arith, l.range))
        (omega (arith, three)) in
    let ei : calc_cpu_load old.idle new.idle d ≡ some (time_share old.idle new.idle old new) =
      calc_lem old.idle new.idle d positive l.idle (omega (arith, l.range))
        (omega (arith, three)) in
    (rw (total_diff old new l, eu, es, ei) refl, three)
