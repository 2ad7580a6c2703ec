-- ===== src/DeviceMapper/Table.antt =====
-- The table that ml_device_mapper_verity_create of src/ml_device_mapper.c loads, as the device mapper
-- takes it apart again.
use monolinux_c_library.Prelude.{
  ℕ, ◌+◌, ◌*◌, ◌/◌, ◌≤◌, ◌<◌, ◌≡◌, refl, List, [], ◌∷◌, ◌++◌, Bool, true, not, ◌&&◌, ◌==◌, take-all,
  length, if◌then◌else◌, arith,
}
use monolinux_c_library.Prelude.Text.{Text, codes}
use monolinux_c_library.DeviceMapper.Verity.{Verity, spaced, parameters, load_params}

-- A text split at its spaces.
abbrev pub to_first : ℕ → List Text → List Text
to_first c [] = (c ∷ []) ∷ []
to_first c (w ∷ ws) = (c ∷ w) ∷ ws

unfoldable pub split : Text → List Text
split [] = [] ∷ []
split (c ∷ cs) = let rest = split cs in if c == 32 then [] ∷ rest else to_first c rest

abbrev pub has_no_space : Text → Bool
has_no_space [] = true
has_no_space (c ∷ cs) = not (c == 32) && has_no_space cs

abbrev pub all_words : List Text → Bool
all_words [] = true
all_words (w ∷ ws) = has_no_space w && all_words ws

split-word : (w : Text) → has_no_space w ≡ true → split w ≡ w ∷ []
unfolding split
split-word [] h = refl
split-word (c ∷ w) h = ground (arith, split-word w)

split-append : (w rest : Text) → has_no_space w ≡ true → split (w ++ (32 ∷ rest)) ≡ w ∷ split rest
unfolding split
split-append [] rest h = ground arith
split-append (c ∷ w) rest h = ground (arith, split-append w rest)

split-spaced :
    (w : Text) (ws : List Text) → all_words (w ∷ ws) ≡ true → split (spaced (w ∷ ws)) ≡ w ∷ ws
unfolding spaced
split-spaced w [] h = split-word w (ground arith)
split-spaced w (w' ∷ ws) h = ground (arith, split-append w (spaced (w' ∷ ws)), split-spaced w' ws)

-- The parameters of the verity target as the device mapper's documentation lists them, with the number
-- of data blocks and the first block of hashes.
abbrev pub words : Text → Text → Verity → List Text
words blocks hash_start v =
    codes "1"
    ∷ v.data_dev
    ∷ v.hash_tree_dev
    ∷ codes "4096"
    ∷ codes "4096"
    ∷ blocks
    ∷ hash_start
    ∷ codes "sha256"
    ∷ v.root_hash
    ∷ v.salt
    ∷ []

-- So many whole units are in a size.
abbrev pub Fits : ℕ → ℕ → ℕ → Type 0
Fits n unit size = (n * unit ≤ size) × (size < n * unit + unit)

-- Split at its spaces, the string of the table is version 1, the data device and the hash device,
-- twice the block size 4096, the number of data blocks, the first block of hashes, sha256, the root
-- hash and the salt, in this order, if none of them has a space and they fit into 511 bytes with the
-- spaces between them. The data blocks are the whole blocks of 4096 bytes in the size of the data, the
-- blocks before the hashes those in their offset, and the length of the verity target, which starts at
-- sector 0, is the number of whole sectors of 512 bytes.
pub load_params-split :
    (decimal : ℕ → Text) (v : Verity)
    → all_words (words (decimal (v.data_size / 4096)) (decimal (v.hash_offset / 4096)) v) ≡ true
    → length (spaced (words (decimal (v.data_size / 4096)) (decimal (v.hash_offset / 4096)) v))
      ≤ 511
    → let t = load_params decimal v in
      (blocks : ℕ) × (hash_start : ℕ) × (split t.string
        ≡ words (decimal blocks) (decimal hash_start) v)
      × Fits blocks 4096 v.data_size
      × Fits hash_start 4096 v.hash_offset
      × Fits t.target.length 512 v.data_size
      × (t.target.sector_start ≡ 0)
      × (t.target.target_type ≡ codes "verity")
unfolding load_params parameters
load_params-split decimal v hw hl = (
  v.data_size / 4096,
  v.hash_offset / 4096,
  rw (take-all 511 _ hl) (split-spaced _ _ hw),
  (omega arith, omega arith),
  (omega arith, omega arith),
  (omega arith, omega arith),
  refl,
  refl,
)
