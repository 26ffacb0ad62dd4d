-- ===== src/Update/Version/Order.antt =====
-- `Compare` of internal/update/version.go, and the order of releases.
use portato.Prelude.{
  not, if◌then◌else◌, ◌^◌, ◌<◌, ◌≡◌, ◌⊎◌, ◌↔◌, some, List, [], ◌∷◌, true, false, subst, ap,
  split_on, trim_prefix_char, Text, arith,
}
use portato.Prelude.Int.{ℤ, pos, negsuc, eqb_ℤ}
use portato.Prelude.Decimal.{atoi}
use portato.Update.Version.{
  Version, is_digits, >>=-eq-some, sub64, sign, compare, component, of_parts, parse_version,
}

-- A number that a component of a version can be.
abbrev pub InRange : ℤ → Type 0
InRange (pos n) = n < 2 ^ 63
InRange (negsuc n) = mathlib.Core.Path.◌≡◌ true false

pub record IsValid (v : Version) : Type 0 where
  pub major : InRange v.major
  pub minor : InRange v.minor
  pub patch : InRange v.patch

abbrev pub Lt : ℤ → ℤ → Type 0
Lt (pos a) (pos b) = a < b
Lt _ _ = mathlib.Core.Path.◌≡◌ true false

-- The order of releases: by the first component that differs.
abbrev pub Older : Version → Version → Type 0
Older a b =
    Lt a.major b.major
    ⊎ ((a.major ≡ b.major) × (Lt a.minor b.minor ⊎ ((a.minor ≡ b.minor) × Lt a.patch b.patch)))

sign-sub64 :
    (a b : ℤ)
    → InRange a
    → InRange b
    → ((sign (sub64 a b) ≡ negsuc 0) ↔ Lt a b)
      × ((sign (sub64 a b) ≡ pos 0) ↔ (a ≡ b))
      × ((sign (sub64 a b) ≡ pos 1) ↔ Lt b a)
unfolding sign sub64
sign-sub64 (pos a) (pos b) h k = ground arith
sign-sub64 (pos a) (negsuc b) h k = cc
sign-sub64 (negsuc a) (pos b) h k = cc
sign-sub64 (negsuc a) (negsuc b) h k = cc

-- One more component in front of an order that is already decided.
field_iff :
    {A B C : Type 0} (x y r : ℤ)
    → InRange x
    → InRange y
    → ((r ≡ negsuc 0) ↔ A) × ((r ≡ pos 0) ↔ B) × ((r ≡ pos 1) ↔ C)
    → let d = if not (eqb_ℤ x y) then sign (sub64 x y) else r in
      ((d ≡ negsuc 0) ↔ (Lt x y ⊎ ((x ≡ y) × A)))
      × ((d ≡ pos 0) ↔ ((x ≡ y) × B))
      × ((d ≡ pos 1) ↔ (Lt y x ⊎ ((y ≡ x) × C)))
field_iff (pos x) (pos y) r h k rest = ground (arith, sign-sub64 (pos x) (pos y) h k)
field_iff (pos a) (negsuc b) r h k rest = cc
field_iff (negsuc a) (pos b) r h k rest = cc
field_iff (negsuc a) (negsuc b) r h k rest = cc

-- On versions with components in range, `Compare` returns -1, 0 and +1 exactly as the first is
-- older than, equal to and newer than the second: the subtraction does not overflow.
pub compare_iff :
    (a b : Version)
    → IsValid a
    → IsValid b
    → ((compare a b ≡ negsuc 0) ↔ Older a b)
      × ((compare a b ≡ pos 0) ↔ (a ≡ b))
      × ((compare a b ≡ pos 1) ↔ Older b a)
unfolding compare
compare_iff a b v w =
    let f =
      field_iff a.major b.major _ v.major w.major (
        field_iff a.minor b.minor _ v.minor w.minor (sign-sub64 a.patch b.patch v.patch w.patch)) in
    (f.0, (λ e. let (p, q) = f.1.0 e in cc (p, q.0, q.1), λ e. f.1.1 (cc, (cc, cc))), f.2)

component-InRange : (p : Text) (n : ℤ) → component p ≡ some n → InRange n
unfolding component atoi is_digits
component-InRange [] n h = cc
component-InRange (c ∷ s) n h = ground arith

of_parts-IsValid : (ps : List Text) (v : Version) → of_parts ps ≡ some v → IsValid v
unfolding of_parts
of_parts-IsValid (a ∷ b ∷ c ∷ []) v h =
    let (major, p, rest) = >>=-eq-some (component a) _ h in
    let (minor, q, rest') = >>=-eq-some (component b) _ rest in
    let (patch, r, e) = >>=-eq-some (component c) _ rest' in
    record {
      major =
          subst InRange (ap (λ (w : Version). w.major) (injected _ v e))
            (component-InRange a major p);
      minor =
          subst InRange (ap (λ (w : Version). w.minor) (injected _ v e))
            (component-InRange b minor q);
      patch =
          subst InRange (ap (λ (w : Version). w.patch) (injected _ v e))
            (component-InRange c patch r);
    }
  where
    injected : (x y : Version) → some x ≡ some y → x ≡ y
    injected x y p = cc
of_parts-IsValid _ v h = cc

-- Every text that `ParseVersion` accepts gives components in range.
pub parse_version-IsValid : (s : Text) (v : Version) → parse_version s ≡ some v → IsValid v
unfolding parse_version
parse_version-IsValid s v h =
    of_parts-IsValid (split_on b'.' (trim_prefix_char b'V' (trim_prefix_char b'v' s))) v h
