-- ===== src/Update/Version/RoundTrip.antt =====
-- `ParseVersion` and `String` of internal/update/version.go.
use portato.Prelude.{
  ◌≡◌, ◌≢◌, refl, some, [], ◌∷◌, ◌++◌, true, all, Text, trim_prefix_char, split_on, arith,
}
use portato.Prelude.Splits.{lacks, split_on-lacks, split_on-append, lacks_of_digits}
use portato.Prelude.Int.{ℤ, pos, negsuc}
use portato.Prelude.Decimal.{is_digit, itoa, itoa_ℕ, itoa_ℕ-digits, itoa_ℕ-ne-nil, atoi-itoa_ℕ}
use portato.Update.Version.{Version, is_digits, component, parse_version, string}
use portato.Update.Version.Order.{IsValid, InRange}

is_digits_lem : (s : Text) → s ≢ [] → all is_digit s ≡ true → is_digits s ≡ true
unfolding is_digits
is_digits_lem [] e d = absurd (e refl)
is_digits_lem (c ∷ s) e d = d

component-itoa : (n : ℤ) → InRange n → component (itoa n) ≡ some n
unfolding component itoa
component-itoa (pos n) h =
    rw (is_digits_lem (itoa_ℕ n) (itoa_ℕ-ne-nil n) (itoa_ℕ-digits n)) (atoi-itoa_ℕ n h)
component-itoa (negsuc n) h = cc

itoa-lacks_dot : (n : ℤ) → InRange n → lacks b'.' (itoa n) ≡ true
unfolding itoa
itoa-lacks_dot (pos n) h = lacks_of_digits b'.' (itoa_ℕ n) refl (itoa_ℕ-digits n)
itoa-lacks_dot (negsuc n) h = cc

parts-itoa :
    (a b c : ℤ)
    → InRange a
    → InRange b
    → InRange c
    → split_on b'.' (itoa a ++ (b'.' ∷ (itoa b ++ (b'.' ∷ itoa c)))) ≡ itoa a ∷ itoa b ∷ itoa c ∷ []
parts-itoa a b c h k l = rw (split_on-append b'.' (itoa a) _ (itoa-lacks_dot a h)) (
    rw (split_on-append b'.' (itoa b) _ (itoa-lacks_dot b k))
      (rw (split_on-lacks b'.' (itoa c) (itoa-lacks_dot c l))))

no_prefix : (s t : Text) → s ≢ [] → all is_digit s ≡ true → trim_prefix_char b'V' (s ++ t) ≡ s ++ t
unfolding trim_prefix_char
no_prefix [] t e d = absurd (e refl)
no_prefix (c ∷ s) t e d = ground arith

no_prefix-itoa : (n : ℤ) (t : Text) → InRange n → trim_prefix_char b'V' (itoa n ++ t) ≡ itoa n ++ t
unfolding itoa
no_prefix-itoa (pos n) t h = no_prefix (itoa_ℕ n) t (itoa_ℕ-ne-nil n) (itoa_ℕ-digits n)
no_prefix-itoa (negsuc n) t h = cc

trim-string :
    (v : Version)
    → trim_prefix_char b'v' (string v)
      ≡ itoa v.major ++ (b'.' ∷ (itoa v.minor ++ (b'.' ∷ itoa v.patch)))
unfolding string trim_prefix_char
trim-string v = refl

-- A version with components in range is read back from its printed form.
pub parse_version-string : (v : Version) → IsValid v → parse_version (string v) ≡ some v
unfolding parse_version
parse_version-string v h = rw (trim-string v) (
    rw (no_prefix-itoa v.major _ h.major) (
      rw (parts-itoa v.major v.minor v.patch h.major h.minor h.patch) (
        rw (component-itoa v.major h.major)
          (rw (component-itoa v.minor h.minor) (rw (component-itoa v.patch h.patch))))))

trim_both :
    (v : Version)
    → trim_prefix_char b'V' (
        trim_prefix_char b'v'
          (b'v' ∷ b'V' ∷ (itoa v.major ++ (b'.' ∷ (itoa v.minor ++ (b'.' ∷ itoa v.patch))))))
      ≡ itoa v.major ++ (b'.' ∷ (itoa v.minor ++ (b'.' ∷ itoa v.patch)))
unfolding trim_prefix_char
trim_both v = refl

-- Both prefixes at once are accepted too: "vV1.2.3" reads as "v1.2.3", although neither "vX.Y.Z"
-- nor "X.Y.Z" has that form.
pub parse_version-two_prefixes :
    (v : Version)
    → IsValid v
    → parse_version
        (b'v' ∷ b'V' ∷ (itoa v.major ++ (b'.' ∷ (itoa v.minor ++ (b'.' ∷ itoa v.patch)))))
      ≡ some v
unfolding parse_version
parse_version-two_prefixes v h = rw (trim_both v) (
    rw (parts-itoa v.major v.minor v.patch h.major h.minor h.patch) (
      rw (component-itoa v.major h.major)
        (rw (component-itoa v.minor h.minor) (rw (component-itoa v.patch h.patch)))))
