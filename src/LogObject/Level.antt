-- ===== src/LogObject/Level.antt =====
-- The names of log levels, src/ml_log_object.c. A C string is the list of its bytes.
use monolinux_c_library.Prelude.{
  ℕ, zero, suc, ◌≡◌, refl, Bool, false, leb, ◌==◌, if◌then◌else◌, arith,
}
use monolinux_c_library.Prelude.Text.{Text, codes, same}
use monolinux_c_library.Prelude.Int.{ℤ, pos, negsuc}

abbrev pub is_level : ℤ → ℕ → Bool
is_level (pos n) k = n == k
is_level (negsuc n) k = false

-- The levels ML_LOG_EMERGENCY to ML_LOG_DEBUG are 0 to 7.
unfoldable pub level_to_string : ℤ → Text
level_to_string level =
    if is_level level 0
    then codes "emergency"
    else if is_level level 1
    then codes "alert"
    else if is_level level 2
    then codes "critical"
    else if is_level level 3
    then codes "error"
    else if is_level level 4
    then codes "warning"
    else if is_level level 5
    then codes "notice"
    else if is_level level 6
    then codes "info"
    else if is_level level 7
    then codes "debug"
    else codes "*** unknown ***"

unfoldable pub level_from_string : Text → ℤ
unfolding same
level_from_string level =
    if same (codes "emergency") level
    then pos 0
    else if same (codes "alert") level
    then pos 1
    else if same (codes "critical") level
    then pos 2
    else if same (codes "error") level
    then pos 3
    else if same (codes "warning") level
    then pos 4
    else if same (codes "notice") level
    then pos 5
    else if same (codes "info") level
    then pos 6
    else if same (codes "debug") level
    then pos 7
    else negsuc 0

abbrev pub is_known : ℤ → Bool
is_known (pos n) = leb n 7
is_known (negsuc n) = false

-- The name of a known level reads back as that level, and that of any other level as -1.
pub level_from_string-level_to_string :
    (level : ℤ)
    → level_from_string (level_to_string level) ≡ (if is_known level then level else negsuc 0)
unfolding level_from_string level_to_string
level_from_string-level_to_string (negsuc n) = refl
level_from_string-level_to_string (pos zero) = refl
level_from_string-level_to_string (pos (suc zero)) = refl
level_from_string-level_to_string (pos (suc (suc zero))) = refl
level_from_string-level_to_string (pos (suc (suc (suc zero)))) = refl
level_from_string-level_to_string (pos (suc (suc (suc (suc zero))))) = refl
level_from_string-level_to_string (pos (suc (suc (suc (suc (suc zero)))))) = refl
level_from_string-level_to_string (pos (suc (suc (suc (suc (suc (suc zero))))))) = refl
level_from_string-level_to_string (pos (suc (suc (suc (suc (suc (suc (suc zero)))))))) = refl
level_from_string-level_to_string (pos (suc (suc (suc (suc (suc (suc (suc (suc n))))))))) =
    ground arith
