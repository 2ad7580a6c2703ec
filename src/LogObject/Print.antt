-- ===== src/LogObject/Print.antt =====
-- ml_log_object_vprint of src/ml_log_object.c. The time as strftime() writes it, and the message as
-- vsnprintf() formats it, are parameters.
use monolinux_c_library.Prelude.{
  ℕ, ◌+◌, List, [], ◌∷◌, ◌++◌, Option, none, some, ltb, leb, take, length, if◌then◌else◌,
}
use monolinux_c_library.Prelude.Int.{ℤ}
use monolinux_c_library.Prelude.Text.{Text, codes}
use monolinux_c_library.LogObject.Level.{is_level}
use monolinux_c_library.LogObject.Registry.{Object, is_enabled_for}

unfoldable pub level_to_string_upper : ℤ → Text
level_to_string_upper level =
    if is_level level 0
    then codes "EMERGENCY"
    else if is_level level 1
    then codes "ALERT"
    else if is_level level 2
    then codes "CRITICAL"
    else if is_level level 3
    then codes "ERROR"
    else if is_level level 4
    then codes "WARNING"
    else if is_level level 5
    then codes "NOTICE"
    else if is_level level 6
    then codes "INFO"
    else if is_level level 7
    then codes "DEBUG"
    else codes "INVALID"

-- `buf` up to its NUL, and the variable `length`, which counts what would have been written.
pub record Buffer : Type 0 where
  pub content : Text
  pub length : ℕ

-- strftime() writes nothing and returns 0 where the text does not fit.
abbrev pub start_buffer : Text → Buffer
start_buffer date =
    if ltb (length date) 512
    then record { content = date; length = length date }
    else record { content = []; length = 0 }

-- snprintf() to `&buf[length]` with the size 512 - length: it cuts off what does not fit. A length
-- above 512 makes the size wrap around, and the write goes outside the buffer, which is `none`.
unfoldable pub add_text : Text → Buffer → Option Buffer
add_text text b =
    if ltb 512 b.length
    then none
    else some (record { content = take 511 (b.content ++ text); length = b.length + length text })

-- The newline at the end, which takes the place of the NUL of a full buffer.
abbrev pub end_line : Buffer → Text
end_line b = take (if leb 512 b.length then 511 else b.length) b.content ++ codes "\n"

abbrev pub and_add : Text → Option Buffer → Option Buffer
and_add text none = none
and_add text (some b) = add_text text b

abbrev pub to_lines : Option Buffer → Option (List Text)
to_lines none = none
to_lines (some b) = some (end_line b ∷ [])

-- " %s %s ".
unfoldable pub line_header : Object → ℤ → Text
unfolding level_to_string_upper
line_header self level =
    codes " " ++ (level_to_string_upper level ++ (codes " " ++ (self.name ++ codes " ")))

-- What ml_log_object_vprint() gives to write().
unfoldable pub vprint : Object → ℤ → Text → Text → Option (List Text)
unfolding is_enabled_for line_header add_text
vprint self level date message =
    let b = and_add message (add_text (line_header self level) (start_buffer date)) in
    if is_enabled_for self level then to_lines b else some []
