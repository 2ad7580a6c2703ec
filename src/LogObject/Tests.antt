-- ===== src/LogObject/Tests.antt =====
-- Two log objects and the file of their levels.
use monolinux_c_library.Prelude.{
  ◌≡◌, refl, List, [], ◌∷◌, some, none, ltb, length, ◌+◌, if◌then◌else◌, true, arith,
}
use monolinux_c_library.Prelude.Int.{pos}
use monolinux_c_library.Prelude.Text.{codes, same}
use monolinux_c_library.LogObject.Level.{level_to_string}
use monolinux_c_library.LogObject.Registry.{Object, is_enabled_for}
use monolinux_c_library.LogObject.File.{store, load}
use monolinux_c_library.LogObject.Print.{line_header, vprint}
use monolinux_c_library.LogObject.Printed.{line_of, Fits, vprint_lem}
use monolinux_c_library.LogObject.Scan.{scan_words, scan_words-Scans}
use monolinux_c_library.LogObject.RoundTrip.{IsStorable, load-store}

abbrev object : List Object
object =
    record { name = codes "dhcp-client"; level = pos 3 }
    ∷ record { name = codes "default"; level = pos 7 }
    ∷ []

abbrev silenced : List Object
silenced =
    record { name = codes "dhcp-client"; level = pos 0 }
    ∷ record { name = codes "default"; level = pos 0 }
    ∷ []

store_text : store true object ≡ some (codes "dhcp-client error\ndefault debug\n")
unfolding store level_to_string
store_text = refl

enabled : is_enabled_for (record { name = codes "default"; level = pos 3 }) (pos 3) ≡ true
unfolding is_enabled_for
enabled = refl

object-IsStorable : IsStorable object
unfolding same
object-IsStorable = ground arith

load-store_example : load scan_words (store true object) silenced ≡ object
load-store_example = load-store scan_words scan_words-Scans object silenced refl object-IsStorable

abbrev noisy : Object
noisy = record { name = codes "default"; level = pos 7 }

vprint_lem_example :
    (vprint noisy (pos 3) (codes "2026-01-01 00:00:00") (codes "Failed.") ≡ (
      if is_enabled_for noisy (pos 3)
      then if ltb 512 (length (codes "2026-01-01 00:00:00") + length (line_header noisy (pos 3)))
        then none
        else some (line_of noisy (pos 3) (codes "2026-01-01 00:00:00") (codes "Failed.") ∷ [])
      else some []))
    × Fits (vprint noisy (pos 3) (codes "2026-01-01 00:00:00") (codes "Failed."))
vprint_lem_example =
    vprint_lem noisy (pos 3) (codes "2026-01-01 00:00:00") (codes "Failed.") (omega arith)

-- The line that is written.
written :
    vprint noisy (pos 3) (codes "2026-01-01 00:00:00") (codes "Failed.")
    ≡ some (codes "2026-01-01 00:00:00 ERROR default Failed.\n" ∷ [])
unfolding vprint
written = refl
