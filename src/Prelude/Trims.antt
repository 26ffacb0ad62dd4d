-- ===== src/Prelude/Trims.antt =====
-- Trimming a text, by itself and before it is split.
use Prim.Native.Nat.{ℕ}
use mathlib.Core.Path.{◌≡◌, refl, sym, ap, ◌∙◌}
use mathlib.Core.Bool.{Bool, true, false, not, ◌&&◌}
use mathlib.Core.List.{List, [], ◌∷◌, map}
use native.Mathlib.Omega.{arith}
use portato.Prelude.Tests.{◌==◌, if◌then◌else◌, Bool-cases}
use mathlib.Core.Logic.{inl, inr}
use portato.Prelude.Lists.{all}
use portato.Prelude.Decimal.{is_digit}
use portato.Prelude.Texts.{
  Text, is_empty, is_space, trim_left, trim_right, trim_space, cons_head, split_on,
}

trim_left-trim_right-trim_left :
    (s : Text) → trim_left (trim_right (trim_left s)) ≡ trim_right (trim_left s)
unfolding trim_left trim_right
trim_left-trim_right-trim_left [] = refl
trim_left-trim_right-trim_left (c ∷ s) = ground (arith, trim_left-trim_right-trim_left s)

trim_right-trim_right : (s : Text) → trim_right (trim_right s) ≡ trim_right s
unfolding trim_right
trim_right-trim_right [] = refl
trim_right-trim_right (c ∷ s) = ground (arith, trim_right-trim_right s)

pub trim_space-trim_space : (s : Text) → trim_space (trim_space s) ≡ trim_space s
unfolding trim_space
trim_space-trim_space s =
    ap trim_right (trim_left-trim_right-trim_left s) ∙ trim_right-trim_right (trim_left s)

trim_left-trim_right : (s : Text) → trim_left (trim_right s) ≡ trim_right (trim_left s)
unfolding trim_left trim_right
trim_left-trim_right [] = refl
trim_left-trim_right (c ∷ s) = ground (arith, trim_left-trim_right s)

abbrev is_nil : List Text → Bool
is_nil [] = true
is_nil (w ∷ ws) = false

split_on-nonempty : (c : ℕ) (s : Text) → is_nil (split_on c s) ≡ false
unfolding split_on
split_on-nonempty c [] = refl
split_on-nonempty c (x ∷ s) = ground (arith, split_on-nonempty c s)

cons_head-space :
    (x : ℕ) (l : List Text)
    → is_space x ≡ true
    → is_nil l ≡ false
    → map trim_space (cons_head x l) ≡ map trim_space l
unfolding trim_space trim_left
cons_head-space x [] h n = cc
cons_head-space x (w ∷ ws) h n = rw h refl

split_on-trim_left :
    (c : ℕ) (s : Text)
    → is_space c ≡ false
    → map trim_space (split_on c (trim_left s)) ≡ map trim_space (split_on c s)
unfolding split_on trim_left
split_on-trim_left c [] h = refl
split_on-trim_left c (x ∷ s) h = elim (Bool-cases (is_space x)) [
  | inr solid ↦ rw solid refl
  | inl space ↦
      rw (space, apart space)
        (split_on-trim_left c s h
          ∙ sym (cons_head-space x (split_on c s) space (split_on-nonempty c s)))
]
  where
    apart : is_space x ≡ true → (x == c) ≡ false
    apart space = ground arith

-- What a character before the first part adds to the trimmed parts.
abbrev grow : ℕ → List Text → List Text
grow x [] = []
grow x (t ∷ ts) = (if is_space x && is_empty t then [] else x ∷ t) ∷ ts

cons_head-grow :
    (x : ℕ) (l : List Text)
    → is_nil l ≡ false
    → map trim_right (cons_head x l) ≡ grow x (map trim_right l)
unfolding trim_right
cons_head-grow x [] n = cc
cons_head-grow x (w ∷ ws) n = refl

split_on-grow :
    (c x : ℕ) (s : Text)
    → (x == c) ≡ false
    → map trim_right (split_on c (x ∷ s)) ≡ grow x (map trim_right (split_on c s))
unfolding split_on
split_on-grow c x s h = rw h (cons_head-grow x (split_on c s) (split_on-nonempty c s))

grow-blank :
    (c x : ℕ) (s : Text)
    → is_space x ≡ true
    → is_empty s ≡ true
    → grow x (map trim_right (split_on c s)) ≡ [] ∷ []
unfolding split_on trim_right
grow-blank c x [] h e = rw h refl
grow-blank c x (y ∷ s) h e = cc

trim_right-kept :
    (x : ℕ) (s : Text)
    → (is_space x && is_empty (trim_right s)) ≡ false
    → trim_right (x ∷ s) ≡ x ∷ trim_right s
unfolding trim_right
trim_right-kept x s h = rw h refl

trim_right-blank :
    (x : ℕ) (s : Text) → (is_space x && is_empty (trim_right s)) ≡ true → trim_right (x ∷ s) ≡ []
unfolding trim_right
trim_right-blank x s h = rw h refl

split_on-separator :
    (c x : ℕ) (s : Text)
    → (x == c) ≡ true
    → map trim_right (split_on c (x ∷ s)) ≡ [] ∷ map trim_right (split_on c s)
unfolding split_on trim_right
split_on-separator c x s h = rw h refl

split_on-trim_right :
    (c : ℕ) (s : Text)
    → is_space c ≡ false
    → map trim_right (split_on c (trim_right s)) ≡ map trim_right (split_on c s)
split_on-trim_right c [] h = unfold trim_right in refl
split_on-trim_right c (x ∷ s) h = elim (Bool-cases (is_space x && is_empty (trim_right s))) [
  | inl blank ↦
      ap (λ l. map trim_right (split_on c l)) (trim_right-blank x s blank)
      ∙ nothing
      ∙ sym (
          split_on-grow c x s (apart (left blank))
          ∙ ap (grow x) (sym (split_on-trim_right c s h))
          ∙ grow-blank c x (trim_right s) (left blank) (right blank))
  | inr kept ↦
      ap (λ l. map trim_right (split_on c l)) (trim_right-kept x s kept)
      ∙ elim (Bool-cases (x == c)) [
        | inl same ↦
            split_on-separator c x (trim_right s) same
            ∙ ap (λ l. [] ∷ l) (split_on-trim_right c s h)
            ∙ sym (split_on-separator c x s same)
        | inr other ↦
            split_on-grow c x (trim_right s) other
            ∙ ap (grow x) (split_on-trim_right c s h)
            ∙ sym (split_on-grow c x s other)
      ]
]
  where
    left : (is_space x && is_empty (trim_right s)) ≡ true → is_space x ≡ true
    left b = ground arith

    right : (is_space x && is_empty (trim_right s)) ≡ true → is_empty (trim_right s) ≡ true
    right b = ground arith

    apart : is_space x ≡ true → (x == c) ≡ false
    apart space = ground arith

    nothing : map trim_right (split_on c []) ≡ [] ∷ []
    nothing = unfold split_on trim_right in refl

trim_space-of_right : (l : List Text) → map trim_space l ≡ map trim_left (map trim_right l)
unfolding trim_space
trim_space-of_right [] = refl
trim_space-of_right (w ∷ ws) =
    ap (λ v. v ∷ map trim_space ws) (sym (trim_left-trim_right w))
    ∙ ap (λ l. trim_left (trim_right w) ∷ l) (trim_space-of_right ws)

-- Trimming the whole text does not change the trimmed parts.
pub split_on-trim_space :
    (c : ℕ) (s : Text)
    → is_space c ≡ false
    → map trim_space (split_on c (trim_space s)) ≡ map trim_space (split_on c s)
split_on-trim_space c s h =
    trim_space-of_right (split_on c (trim_space s))
    ∙ ap (map trim_left) (trimmed ∙ split_on-trim_right c (trim_left s) h)
    ∙ sym (trim_space-of_right (split_on c (trim_left s)))
    ∙ split_on-trim_left c s h
  where
    trimmed :
        map trim_right (split_on c (trim_space s))
        ≡ map trim_right (split_on c (trim_right (trim_left s)))
    trimmed = unfold trim_space in refl

is_digit-is_space : (c : ℕ) → is_digit c ≡ true → is_space c ≡ false
unfolding is_space
is_digit-is_space c h = ground arith

trim_right-digits : (s : Text) → all is_digit s ≡ true → trim_right s ≡ s
unfolding trim_right
trim_right-digits [] h = refl
trim_right-digits (c ∷ s) h = ground (arith, trim_right-digits s, is_digit-is_space c)

pub trim_space-digits : (s : Text) → all is_digit s ≡ true → trim_space s ≡ s
unfolding trim_space trim_left
trim_space-digits [] h = trim_right-digits [] h
trim_space-digits (c ∷ s) h = rw (is_digit-is_space c (ground arith)) (trim_right-digits (c ∷ s) h)

-- A text without a space is its trimmed self, and so it is after a space.
trim_right-spaceless : (s : Text) → all (λ c. not (is_space c)) s ≡ true → trim_right s ≡ s
unfolding trim_right
trim_right-spaceless [] h = refl
trim_right-spaceless (c ∷ s) h = ground (arith, trim_right-spaceless s)

pub trim_space-spaceless :
    (s : Text)
    → all (λ c. not (is_space c)) s ≡ true
    → (trim_space s ≡ s) × (trim_space (b' ' ∷ s) ≡ s)
unfolding trim_space trim_left is_space
trim_space-spaceless [] h = (refl, refl)
trim_space-spaceless (c ∷ s) h =
    let here : is_space c ≡ false = ground arith in
    (rw here (trim_right-spaceless (c ∷ s) h), rw here (trim_right-spaceless (c ∷ s) h))
