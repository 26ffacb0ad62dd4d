-- ===== src/Prelude/Splits.antt =====
-- Splitting a text that was joined at a separator.
use Prim.Native.Nat.{ℕ}
use mathlib.Core.Path.{◌≡◌, refl}
use mathlib.Core.Bool.{Bool, true, not}
use mathlib.Core.List.{[], ◌∷◌, ◌++◌}
use mathlib.Core.Option.{some}
use native.Mathlib.Omega.{arith}
use portato.Prelude.Tests.{◌==◌}
use portato.Prelude.Lists.{all}
use portato.Prelude.Texts.{Text, split_on, split_last}
use portato.Prelude.Decimal.{is_digit}

-- No character of the text is `c`.
abbrev pub lacks : ℕ → Text → Bool
lacks c s = all (λ x. not (x == c)) s

pub split_on-lacks : (c : ℕ) (s : Text) → lacks c s ≡ true → split_on c s ≡ s ∷ []
unfolding split_on
split_on-lacks c [] h = refl
split_on-lacks c (x ∷ s) h = ground (arith, split_on-lacks c s)

pub split_on-append :
    (c : ℕ) (s t : Text) → lacks c s ≡ true → split_on c (s ++ c ∷ t) ≡ s ∷ split_on c t
unfolding split_on
split_on-append c [] t h = ground arith
split_on-append c (x ∷ s) t h = ground (arith, split_on-append c s t)

pub lacks_of_digits :
    (c : ℕ) (s : Text) → is_digit c ≡ Bool.false → all is_digit s ≡ true → lacks c s ≡ true
lacks_of_digits c [] n h = refl
lacks_of_digits c (x ∷ s) n h = ground (arith, lacks_of_digits c s)

split_last-none :
    (c : ℕ) (s : Text) → lacks c s ≡ true → split_last c s ≡ mathlib.Core.Option.Option.none
unfolding split_last
split_last-none c [] h = refl
split_last-none c (x ∷ s) h = ground (arith, split_last-none c s)

-- The last separator is the one before a text that has none.
pub split_last-append :
    (c : ℕ) (s t : Text) → lacks c t ≡ true → split_last c (s ++ c ∷ t) ≡ some (s, t)
unfolding split_last
split_last-append c [] t h = ground (arith, split_last-none c t h)
split_last-append c (x ∷ s) t h = ground (arith, split_last-append c s t h)
