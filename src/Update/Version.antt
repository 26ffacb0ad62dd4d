-- ===== src/Update/Version.antt =====
-- internal/update/version.go: the release versions that `portato update` compares.
pub mod Order
pub mod RoundTrip
mod Tests
use portato.Prelude.{
  ℕ, ◌+◌, ◌-◌, ◌%◌, ◌^◌, ◌≡◌, refl, Bool, true, false, ◌&&◌, not, Option, none, some, List, [], ◌∷◌,
  ◌++◌, all, Text, lit, is_empty, split_on, trim_prefix_char, if◌then◌else◌,
}
use portato.Prelude.Int.{ℤ, pos, negsuc, ltb_ℤ, eqb_ℤ, to_int64}
use portato.Prelude.Decimal.{is_digit, atoi, itoa}

pub record Version : Type 0 where
  pub major : ℤ
  pub minor : ℤ
  pub patch : ℤ

unfoldable pub is_digits : Text → Bool
is_digits s = not (is_empty s) && all is_digit s

infixl 5 ◌>>=◌
abbrev pub ◌>>=◌ {ℓ κ} : {A : Type ℓ} {B : Type κ} → Option A → (A → Option B) → Option B
none >>= f = none
some a >>= f = f a

pub >>=-eq-some {ℓ κ} :
    {A : Type ℓ} {B : Type κ} (m : Option A) (f : A → Option B) {b : B}
    → (m >>= f) ≡ some b
    → (a : A) × (m ≡ some a) × (f a ≡ some b)
>>=-eq-some none f h = cc
>>=-eq-some (some a) f h = (a, refl, h)

-- One pass of the loop over the parts.
unfoldable pub component : Text → Option ℤ
unfolding is_digits
component p = if is_digits p then atoi p else none

unfoldable pub of_parts : List Text → Option Version
unfolding component
of_parts (a ∷ b ∷ c ∷ []) = do
  major ← component a
  minor ← component b
  patch ← component c
  some (record { major = major; minor = minor; patch = patch })
of_parts _ = none

-- `none` for ok = false
unfoldable pub parse_version : Text → Option Version
unfolding of_parts
parse_version s = of_parts (split_on b'.' (trim_prefix_char b'V' (trim_prefix_char b'v' s)))

-- Version.String
unfoldable pub string : Version → Text
string v = b'v' ∷ (itoa v.major ++ (b'.' ∷ (itoa v.minor ++ (b'.' ∷ itoa v.patch))))

-- a - b in 64 bits
abbrev word : ℤ → ℕ
word (pos n) = n
word (negsuc n) = 2 ^ 64 - n - 1

unfoldable pub sub64 : ℤ → ℤ → ℤ
sub64 a b = to_int64 ((word a + 2 ^ 64 - word b) % 2 ^ 64)

unfoldable pub sign : ℤ → ℤ
sign n = if ltb_ℤ n (pos 0) then negsuc 0 else if ltb_ℤ (pos 0) n then pos 1 else pos 0

unfoldable pub compare : Version → Version → ℤ
unfolding sign sub64
compare a b =
    if not (eqb_ℤ a.major b.major)
    then sign (sub64 a.major b.major)
    else if not (eqb_ℤ a.minor b.minor)
    then sign (sub64 a.minor b.minor)
    else sign (sub64 a.patch b.patch)
