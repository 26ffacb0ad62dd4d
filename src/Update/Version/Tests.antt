-- ===== src/Update/Version/Tests.antt =====
-- The results on versions at concrete inputs.
use portato.Prelude.{◌≡◌, ◌↔◌, arith}
use portato.Prelude.Int.{pos, negsuc}
use portato.Update.Version.{Version, compare}
use portato.Update.Version.Order.{IsValid, Older, compare_iff}

abbrev old_version : Version
old_version = record { major = pos 1; minor = pos 9; patch = pos 3 }

abbrev new_version : Version
new_version = record { major = pos 1; minor = pos 10; patch = pos 0 }

old_version-IsValid : IsValid old_version
old_version-IsValid = record { major = omega arith; minor = omega arith; patch = omega arith }

new_version-IsValid : IsValid new_version
new_version-IsValid = record { major = omega arith; minor = omega arith; patch = omega arith }

compare_iff_example :
    ((compare old_version new_version ≡ negsuc 0) ↔ Older old_version new_version)
    × ((compare old_version new_version ≡ pos 0) ↔ (old_version ≡ new_version))
    × ((compare old_version new_version ≡ pos 1) ↔ Older new_version old_version)
compare_iff_example = compare_iff old_version new_version old_version-IsValid new_version-IsValid
