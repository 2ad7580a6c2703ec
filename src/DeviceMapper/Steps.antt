-- ===== src/DeviceMapper/Steps.antt =====
-- The order of the steps of ml_device_mapper_verity_create of src/ml_device_mapper.c.
use monolinux_c_library.Prelude.{ℕ, ◌≡◌, refl, List, [], ◌∷◌, ◌++◌, take, if◌then◌else◌, arith}
use monolinux_c_library.Prelude.Int.{ℤ, is_failed, minus}
use monolinux_c_library.Prelude.Calls.{until_failure, eq_of_is_zero}
use monolinux_c_library.Prelude.Text.{Text, codes}
use monolinux_c_library.DeviceMapper.System.{
  Ioctl, LoadTable, Call, open_control, dev_create, mknod, table_load, dev_suspend, close, Answer,
  Trace, call,
}
use monolinux_c_library.DeviceMapper.Verity.{
  Verity, create_ioctl, node_path, suspend_ioctl, load_params, create_device, load_table,
  suspend_device, verity_create_open, verity_create,
}

-- A request of version 4.0.0 with one header, as <linux/dm-ioctl.h> lays it out.
abbrev pub ioctl_of : ℕ → Text → Text → Ioctl
ioctl_of flags name uuid = record {
  version = 4 ∷ 0 ∷ 0 ∷ [];
  data_size = 312;
  data_start = 0;
  target_count = 0;
  flags = flags;
  name = name;
  uuid = uuid;
}

module _ (decimal : ℕ → Text) (answer : Trace → Call → Answer) (v : Verity) where
  -- DEV_CREATE of a persistent device, TABLE_LOAD of one read-only target behind the header, and
  -- DEV_SUSPEND without the flag to suspend, which resumes.
  abbrev pub creation : Ioctl
  creation = ioctl_of 4 (take 128 v.mapping_name) (take 129 v.mapping_uuid)

  abbrev pub table : LoadTable
  table = record {
    ctl = record (ioctl_of 32773 (take 128 v.mapping_name) []) {
      data_size = 864;
      data_start = 312;
      target_count = 1;
    };
    target = (load_params decimal v).target;
    string = (load_params decimal v).string;
  }

  abbrev pub resumption : Ioctl
  resumption = ioctl_of 0 (take 128 v.mapping_name) []

  -- The steps on the open control file, where DEV_CREATE finds the device number `dev`.
  abbrev pub steps : ℤ → ℕ → List Call
  steps fd dev =
      dev_create fd creation
      ∷ mknod (take 255 (codes "/dev/mapper/" ++ v.mapping_uuid)) dev
      ∷ table_load fd table
      ∷ dev_suspend fd resumption
      ∷ []

  abbrev pub until_failed : ℤ → Trace → Trace × ℤ
  until_failed fd tr =
      until_failure answer (λ a. a.res) (steps fd (answer tr (dev_create fd creation)).dev) tr

  verity_create_open_lem :
      (fd : ℤ) (tr : Trace) → verity_create_open decimal answer v fd tr ≡ until_failed fd tr
  unfolding verity_create_open create_device load_table suspend_device until_failure call
      load_params create_ioctl suspend_ioctl node_path
  verity_create_open_lem fd tr =
      let c1 = dev_create fd (create_ioctl v) in
      let tr1 = call answer c1 tr in
      let tr2 = call answer (mknod (node_path v) (answer tr c1).dev) tr1 in
      let tr3 = call answer (table_load fd (load_params decimal v)) tr2 in
      ground (arith, eq_of_is_zero (answer tr3 (dev_suspend fd (suspend_ioctl v))).res)

  -- ml_device_mapper_verity_create is: open the control file; create the device, make its node below
  -- /dev/mapper with the number that the creation answers, load the table and resume the device, in
  -- this order and up to the first step that fails, whose result it has; close the control file, last
  -- and whatever failed. If that cannot be opened, nothing else is done, and the result is the error
  -- number.
  pub verity_create_lem :
      (tr : Trace)
      → verity_create decimal answer v tr ≡ (
          let opened = answer tr open_control in
          let tr1 = (open_control, opened) ∷ tr in
          let (tr2, res) = until_failed opened.res tr1 in
          if is_failed opened.res
          then (tr1, minus opened.errno)
          else ((close opened.res, answer tr2 (close opened.res)) ∷ tr2, res))
  unfolding verity_create call
  verity_create_lem tr =
      rw (verity_create_open_lem (answer tr open_control).res (call answer open_control tr)) refl
