-- ===== src/Prelude/Decimal.antt =====
-- strconv.Atoi and strconv.Itoa.
use Prim.Native.Nat.{ℕ, zero, suc, ◌+◌, ◌-◌, ◌*◌, ◌/◌, ◌%◌, ◌^◌, ◌<◌}
use mathlib.Core.Path.{◌≡◌, refl}
use mathlib.Core.Logic.{◌≢◌}
use mathlib.Core.Bool.{Bool, true, false, ◌&&◌}
use mathlib.Core.List.{[], ◌∷◌, ◌++◌}
use mathlib.Core.Option.{Option, none, some}
use native.Mathlib.Omega.{arith}
use portato.Prelude.Tests.{◌==◌, ltb, leb, if◌then◌else◌}
use portato.Prelude.Lists.{all, all-append}
use portato.Prelude.Texts.{Text}
use portato.Prelude.Int.{ℤ, pos, negsuc}

abbrev pub is_digit : ℕ → Bool
is_digit c = leb 48 c && leb c 57

abbrev push_digit : ℕ → Option ℕ → Option ℕ
push_digit c none = none
push_digit c (some a) = if is_digit c then some (a * 10 + (c - 48)) else none

-- The value of digits, read after the number `a`; `none` at any other character.
unfoldable pub digits_value : ℕ → Text → Option ℕ
digits_value a [] = some a
digits_value a (c ∷ s) =
    let rest = digits_value (a * 10 + (c - 48)) s in if is_digit c then rest else none

digits_value-append :
    (a : ℕ) (s : Text) (c : ℕ) → digits_value a (s ++ c ∷ []) ≡ push_digit c (digits_value a s)
unfolding digits_value
digits_value-append a [] c = ground arith
digits_value-append a (x ∷ s) c = ground (arith, digits_value-append (a * 10 + (x - 48)) s c)

-- The decimal digits of a number, on fuel.
unfoldable pub digits_fuel : ℕ → ℕ → Text
digits_fuel zero n = []
digits_fuel (suc f) n =
    let rest = digits_fuel f (n / 10) in
    if ltb n 10 then (48 + n) ∷ [] else rest ++ (48 + n % 10) ∷ []

-- `n` rounds are more than enough.
unfoldable pub itoa_ℕ : ℕ → Text
unfolding digits_fuel
itoa_ℕ n = digits_fuel (suc n) n

unfoldable pub itoa : ℤ → Text
itoa (pos n) = itoa_ℕ n
itoa (negsuc n) = b'-' ∷ itoa_ℕ (suc n)

digits_value-digits_fuel : (f n : ℕ) → n < f → digits_value 0 (digits_fuel f n) ≡ some n
unfolding digits_fuel digits_value
digits_value-digits_fuel zero n h = absurd (omega arith)
digits_value-digits_fuel (suc f) n h = ground (
  arith,
  digits_value-append 0 (digits_fuel f (n / 10)) (48 + n % 10),
  digits_value-digits_fuel f (n / 10),
)

-- Printing and reading back is the identity.
pub digits_value-itoa_ℕ : (n : ℕ) → digits_value 0 (itoa_ℕ n) ≡ some n
unfolding itoa_ℕ
digits_value-itoa_ℕ n = digits_value-digits_fuel (suc n) n (omega arith)

pub digits_fuel-digits : (f n : ℕ) → all is_digit (digits_fuel f n) ≡ true
unfolding digits_fuel
digits_fuel-digits zero n = refl
digits_fuel-digits (suc f) n = ground (
  arith,
  all-append is_digit (digits_fuel f (n / 10)) ((48 + n % 10) ∷ []),
  digits_fuel-digits f (n / 10),
)

pub itoa_ℕ-digits : (n : ℕ) → all is_digit (itoa_ℕ n) ≡ true
unfolding itoa_ℕ
itoa_ℕ-digits n = digits_fuel-digits (suc n) n

append_ne_nil : (s : Text) (c : ℕ) → s ++ c ∷ [] ≢ []
append_ne_nil [] c e = cc
append_ne_nil (x ∷ s) c e = cc

pub itoa_ℕ-ne-nil : (n : ℕ) → itoa_ℕ n ≢ []
unfolding itoa_ℕ
itoa_ℕ-ne-nil n = ground (arith, append_ne_nil (digits_fuel n (n / 10)) (48 + n % 10))

-- The digits of a signed number, and the range check of an `int`.
abbrev signed : Bool → Option ℕ → Option ℤ
signed minus none = none
signed false (some n) = if ltb n (2 ^ 63) then some (pos n) else none
signed true (some zero) = some (pos 0)
signed true (some (suc n)) = if ltb n (2 ^ 63) then some (negsuc n) else none

abbrev digits_of : Text → Option ℕ
digits_of [] = none
digits_of (c ∷ s) = digits_value 0 (c ∷ s)

-- strconv.Atoi, with `none` for its errors: an optional sign, then at least one digit, in range.
unfoldable pub atoi : Text → Option ℤ
unfolding digits_value
atoi [] = none
atoi (c ∷ s) =
    if c == b'-'
    then signed true (digits_of s)
    else if c == b'+'
    then signed false (digits_of s)
    else signed false (digits_of (c ∷ s))

atoi_of_digits :
    (s : Text) (n : ℕ)
    → s ≢ []
    → all is_digit s ≡ true
    → digits_value 0 s ≡ some n
    → n < 2 ^ 63
    → atoi s ≡ some (pos n)
unfolding atoi
atoi_of_digits [] n e d v h = absurd (e refl)
atoi_of_digits (c ∷ s) n e d v h = ground arith

pub atoi-itoa_ℕ : (n : ℕ) → n < 2 ^ 63 → atoi (itoa_ℕ n) ≡ some (pos n)
atoi-itoa_ℕ n h =
    atoi_of_digits (itoa_ℕ n) n (itoa_ℕ-ne-nil n) (itoa_ℕ-digits n) (digits_value-itoa_ℕ n) h
