-- ===== src/DeviceMapper/Tests.antt =====
-- A device of two blocks, on a kernel whose calls succeed.
use monolinux_c_library.Prelude.{ℕ, ◌≡◌, ◌+◌, refl, [], ◌∷◌, arith, if◌then◌else◌}
use monolinux_c_library.Prelude.Int.{pos, is_failed, minus}
use monolinux_c_library.Prelude.Text.{Text, codes}
use monolinux_c_library.DeviceMapper.System.{Call, open_control, close, Answer, Trace}
use monolinux_c_library.DeviceMapper.Verity.{Verity, spaced, load_params, verity_create}
use monolinux_c_library.DeviceMapper.Steps.{until_failed, verity_create_lem}
use monolinux_c_library.DeviceMapper.Table.{split, words, Fits, load_params-split}

abbrev two_blocks : Verity
two_blocks = record {
  mapping_name = codes "root";
  mapping_uuid = codes "root";
  data_dev = codes "/dev/a";
  data_size = 8192;
  hash_tree_dev = codes "/dev/b";
  hash_offset = 8192;
  root_hash = codes "12ab";
  salt = codes "34cd";
}

-- A stand-in for printf().
abbrev digit : ℕ → Text
digit n = (48 + n) ∷ []

abbrev succeeds : Trace → Call → Answer
succeeds tr c = record { res = pos 0; errno = 0; dev = 64768 }

load_params-split_example :
    let t = load_params digit two_blocks in
    (blocks : ℕ) × (hash_start : ℕ) × (split t.string
      ≡ words (digit blocks) (digit hash_start) two_blocks)
    × Fits blocks 4096 8192
    × Fits hash_start 4096 8192
    × Fits t.target.length 512 8192
    × (t.target.sector_start ≡ 0)
    × (t.target.target_type ≡ codes "verity")
unfolding spaced
load_params-split_example = load_params-split digit two_blocks refl (omega arith)

verity_create_lem_example : verity_create digit succeeds two_blocks [] ≡ (
    let opened = succeeds [] open_control in
    let tr1 = (open_control, opened) ∷ [] in
    let (tr2, res) = until_failed digit succeeds two_blocks opened.res tr1 in
    if is_failed opened.res
    then (tr1, minus opened.errno)
    else ((close opened.res, succeeds tr2 (close opened.res)) ∷ tr2, res))
verity_create_lem_example = verity_create_lem digit succeeds two_blocks []
