-- ===== src/DeviceMapper/System.antt =====
-- The kernel as src/ml_device_mapper.c calls it: a parameter that answers each call from the calls
-- made so far. Log output is left out.
use monolinux_c_library.Prelude.{ℕ, List, ◌∷◌}
use monolinux_c_library.Prelude.Int.{ℤ}
use monolinux_c_library.Prelude.Text.{Text}

-- `struct ioctl_t`, without the members that are always zero.
pub record Ioctl : Type 0 where
  pub version : List ℕ
  pub data_size : ℕ
  pub data_start : ℕ
  pub target_count : ℕ
  pub flags : ℕ
  pub name : Text
  pub uuid : Text

-- `struct target_t`, likewise.
pub record Target : Type 0 where
  pub sector_start : ℕ
  pub length : ℕ
  pub target_type : Text

-- `struct load_table_t`.
pub record LoadTable : Type 0 where
  pub ctl : Ioctl
  pub target : Target
  pub string : Text

pub data Call : Type 0 where
  open_control : Call
  dev_create : ℤ → Ioctl → Call
  mknod : Text → ℕ → Call
  table_load : ℤ → LoadTable → Call
  dev_suspend : ℤ → Ioctl → Call
  close : ℤ → Call

-- The result, `errno`, and the `dev` that DEV_CREATE leaves in its argument.
pub record Answer : Type 0 where
  pub res : ℤ
  pub errno : ℕ
  pub dev : ℕ

abbrev pub Trace : Type 0
Trace = List (Call × Answer)

module _ (answer : Trace → Call → Answer) where
  -- The answer that `call c tr` gets.
  abbrev pub asked : Call → Trace → Answer
  asked c tr = answer tr c

  unfoldable pub call : Call → Trace → Trace
  call c tr = (c, answer tr c) ∷ tr
