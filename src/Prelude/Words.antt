-- ===== src/Prelude/Words.antt =====
-- strings.Fields
use Prim.Native.Nat.{ℕ}
use mathlib.Core.List.{List, [], ◌∷◌}
use portato.Prelude.Tests.{if◌then◌else◌}
use portato.Prelude.Texts.{Text, is_space}

abbrev pub start_word : ℕ → List Text → Text → List Text
start_word c ws [] = (c ∷ []) ∷ ws
start_word c [] (d ∷ s) = (c ∷ []) ∷ []
start_word c (w ∷ ws) (d ∷ s) = if is_space d then (c ∷ []) ∷ w ∷ ws else (c ∷ w) ∷ ws

-- strings.Fields
unfoldable pub fields : Text → List Text
unfolding is_space
fields [] = []
fields (c ∷ s) = let rest = fields s in if is_space c then rest else start_word c rest s
