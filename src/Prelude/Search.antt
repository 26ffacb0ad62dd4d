-- ===== src/Prelude/Search.antt =====
-- strings.Contains and strings.Index of a text in a text, and strings.HasPrefix.
use mathlib.Core.Bool.{Bool, true, false, ◌&&◌, ◌||◌}
use mathlib.Core.List.{[], ◌∷◌}
use mathlib.Core.Option.{Option, none, some}
use portato.Prelude.Tests.{◌==◌, if◌then◌else◌}
use portato.Prelude.Texts.{Text}

unfoldable pub has_prefix : Text → Text → Bool
has_prefix [] s = true
has_prefix (p ∷ ps) [] = false
has_prefix (p ∷ ps) (c ∷ s) = (p == c) && has_prefix ps s

-- s[i:] for the first index of the pattern; `none` for a negative index
unfoldable pub find_text : Text → Text → Option Text
unfolding has_prefix
find_text p [] = if has_prefix p [] then some [] else none
find_text p (c ∷ s) =
    let later = find_text p s in if has_prefix p (c ∷ s) then some (c ∷ s) else later

unfoldable pub contains : Text → Text → Bool
unfolding has_prefix
contains p [] = has_prefix p []
contains p (c ∷ s) = has_prefix p (c ∷ s) || contains p s
