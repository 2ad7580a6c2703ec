-- ===== src/Utilities/Tests.antt =====
-- A line with white space at both ends, and a copy in two chunks.
use monolinux_c_library.Prelude.{
  ℕ, ◌≡◌, ◌≤◌, ◌+◌, refl, List, [], ◌∷◌, none, some, true, length, drop, arith,
}
use monolinux_c_library.Prelude.Int.{ℤ, pos}
use monolinux_c_library.Utilities.Dd.{Call, read, write, Answer, Trace, dd}
use monolinux_c_library.Utilities.Copied.{IsKernel, IsCopied, dd-IsCopied}
use monolinux_c_library.Prelude.Text.{codes}
use monolinux_c_library.Prelude.Words.{u32}
use monolinux_c_library.Utilities.Hexdump.{Format, hexdump, hexdump_file}
use monolinux_c_library.Utilities.Chunks.{wanted, hexdump_file_lem}
use monolinux_c_library.Utilities.Cpu.{CpuStats, CpuLoad, cpu_load, with_total}
use monolinux_c_library.Utilities.Loads.{IsLater, time_share, cpu_load_lem}
use monolinux_c_library.Utilities.Strip.{strip}

both_ends : strip (codes " ls -l ") none ≡ codes "ls -l"
unfolding strip
both_ends = refl

-- A kernel in which everything works, and a read of four bytes.
abbrev result_of : Call → ℤ
result_of (read fd size) = pos 4
result_of (write fd buf) = pos 4
result_of _ = pos 3

abbrev content_of : Call → List ℕ
content_of (read fd size) = codes "abcd"
content_of _ = []

abbrev four_bytes : Trace → Call → Answer
four_bytes tr c = record { res = result_of c; errno = 5; content = content_of c }

four_bytes-IsKernel : IsKernel four_bytes
four_bytes-IsKernel = record {
  errno = λ tr c h. omega arith;
  size = λ tr fd n k e. ground (arith, e);
}

dd-IsCopied_example : (r : Trace × ℤ) × (dd four_bytes 8 8 4 [] ≡ some r) × IsCopied 8 [] r
dd-IsCopied_example = dd-IsCopied four_bytes four_bytes-IsKernel 8 4 [] (omega arith)

-- A stand-in for printf().
abbrev digits : Format
digits = record { hex8 = λ n. (48 + n) ∷ []; hex2 = λ n. n ∷ []; isprint = λ n. true }

hexdump_file_lem_example :
    let bytes = wanted (pos 2) (drop 1 (codes "abcd")) in
    hexdump_file digits 1 true (codes "abcd") 1 (pos 2)
    ≡ some (hexdump digits bytes (length bytes) (u32 1), pos 0)
hexdump_file_lem_example = hexdump_file_lem digits 1 (codes "abcd") 1 (pos 2) (omega arith)

-- Of 200 ticks 50 are the user's, 20 the system's, and 120 idle.
abbrev before : CpuStats
before = record {
  user = 10;
  nice = 0;
  system = 10;
  idle = 80;
  iowait = 0;
  irq = 0;
  softirq = 0;
  total = 0;
}

abbrev later : CpuStats
later = record {
  user = 60;
  nice = 0;
  system = 30;
  idle = 200;
  iowait = 10;
  irq = 0;
  softirq = 0;
  total = 0;
}

before-IsLater : IsLater before later
before-IsLater = record {
  user = omega arith;
  nice = omega arith;
  system = omega arith;
  idle = omega arith;
  iowait = omega arith;
  irq = omega arith;
  softirq = omega arith;
  range = omega arith;
}

cpu_load_lem_example :
    let load : CpuLoad = record { user = 25; system = 10; idle = 60 } in
    (cpu_load (with_total before) (with_total later) ≡ some load)
    × (time_share 10 60 before later
          + time_share 10 30 before later
          + time_share 80 200 before later
        ≤ 100)
cpu_load_lem_example = cpu_load_lem before later before-IsLater (omega arith)
