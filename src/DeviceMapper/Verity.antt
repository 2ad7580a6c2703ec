-- ===== src/DeviceMapper/Verity.antt =====
-- ml_device_mapper_verity_create of src/ml_device_mapper.c. How printf() writes a number is a
-- parameter.
use monolinux_c_library.Prelude.{ℕ, ◌/◌, List, [], ◌∷◌, ◌++◌, take, if◌then◌else◌, not}
use monolinux_c_library.Prelude.Int.{ℤ, is_zero, is_failed, minus}
use monolinux_c_library.Prelude.Text.{Text, codes}
use monolinux_c_library.DeviceMapper.System.{
  Ioctl, LoadTable, Call, open_control, dev_create, mknod, table_load, dev_suspend, close, Answer,
  Trace, asked, call,
}

-- sizeof(struct ioctl_t) and sizeof(struct load_table_t).
abbrev pub ioctl_size : ℕ
ioctl_size = 312

abbrev pub load_table_size : ℕ
load_table_size = 864

-- The arguments of ml_device_mapper_verity_create().
pub record Verity : Type 0 where
  pub mapping_name : Text
  pub mapping_uuid : Text
  pub data_dev : Text
  pub data_size : ℕ
  pub hash_tree_dev : Text
  pub hash_offset : ℕ
  pub root_hash : Text
  pub salt : Text

-- strncpy() fills the name and the uuid with up to 128 and 129 bytes.
unfoldable pub create_ioctl : Verity → Ioctl
create_ioctl v = record {
  version = 4 ∷ 0 ∷ 0 ∷ [];
  data_size = ioctl_size;
  data_start = 0;
  target_count = 0;
  flags = 4;
  name = take 128 v.mapping_name;
  uuid = take 129 v.mapping_uuid;
}

unfoldable pub node_path : Verity → Text
node_path v = take 255 (codes "/dev/mapper/" ++ v.mapping_uuid)

unfoldable pub suspend_ioctl : Verity → Ioctl
suspend_ioctl v = record {
  version = 4 ∷ 0 ∷ 0 ∷ [];
  data_size = ioctl_size;
  data_start = 0;
  target_count = 0;
  flags = 0;
  name = take 128 v.mapping_name;
  uuid = [];
}

-- The words of a format string with single spaces between them.
unfoldable pub spaced : List Text → Text
spaced [] = []
spaced (w ∷ []) = w
spaced (w ∷ w' ∷ ws) = w ++ (32 ∷ spaced (w' ∷ ws))

module _ (decimal : ℕ → Text) where
  -- "1 %s %s 4096 4096 %lu %lu sha256 %s %s".
  unfoldable pub parameters : Verity → List Text
  parameters v =
      codes "1"
      ∷ v.data_dev
      ∷ v.hash_tree_dev
      ∷ codes "4096"
      ∷ codes "4096"
      ∷ decimal (v.data_size / 4096)
      ∷ decimal (v.hash_offset / 4096)
      ∷ codes "sha256"
      ∷ v.root_hash
      ∷ v.salt
      ∷ []

  -- READONLY_FLAG | EXISTS_FLAG | SECURE_DATA_FLAG; snprintf() writes at most 511 bytes.
  unfoldable pub load_params : Verity → LoadTable
  unfolding parameters spaced
  load_params v = record {
    ctl = record {
      version = 4 ∷ 0 ∷ 0 ∷ [];
      data_size = load_table_size;
      data_start = ioctl_size;
      target_count = 1;
      flags = 32773;
      name = take 128 v.mapping_name;
      uuid = [];
    };
    target = record { sector_start = 0; length = v.data_size / 512; target_type = codes "verity" };
    string = take 511 (spaced (parameters v));
  }

  module _ (answer : Trace → Call → Answer) (v : Verity) where
    unfoldable pub create_device : ℤ → Trace → Trace × ℤ
    unfolding call create_ioctl node_path
    create_device fd tr =
        let created = asked answer (dev_create fd (create_ioctl v)) tr in
        let tr1 = call answer (dev_create fd (create_ioctl v)) tr in
        let node = mknod (node_path v) created.dev in
        if not (is_zero created.res)
        then (tr1, created.res)
        else (call answer node tr1, (asked answer node tr1).res)

    unfoldable pub load_table : ℤ → Trace → Trace × ℤ
    unfolding call load_params
    load_table fd tr =
        let c = table_load fd (load_params v) in (call answer c tr, (asked answer c tr).res)

    unfoldable pub suspend_device : ℤ → Trace → Trace × ℤ
    unfolding call suspend_ioctl
    suspend_device fd tr =
        let c = dev_suspend fd (suspend_ioctl v) in (call answer c tr, (asked answer c tr).res)

    unfoldable pub verity_create_open : ℤ → Trace → Trace × ℤ
    unfolding create_device load_table suspend_device
    verity_create_open fd tr =
        let (tr1, created) = create_device fd tr in
        let (tr2, loaded) = load_table fd tr1 in
        if not (is_zero created)
        then (tr1, created)
        else if not (is_zero loaded)
        then (tr2, loaded)
        else suspend_device fd tr2

    abbrev pub control_closed : ℤ → Trace × ℤ → Trace × ℤ
    control_closed fd (tr, res) = (call answer (close fd) tr, res)

    -- ml_device_mapper_verity_create().
    unfoldable pub verity_create : Trace → Trace × ℤ
    unfolding verity_create_open call
    verity_create tr =
        let opened = asked answer open_control tr in
        let tr1 = call answer open_control tr in
        if is_failed opened.res
        then (tr1, minus opened.errno)
        else control_closed opened.res (verity_create_open opened.res tr1)
