-- ===== src/Forward/KnownHosts/Skipping.antt =====
-- The lines of a known_hosts file of internal/forward/knownhosts.go, some of which are skipped.
use portato.Prelude.{
  ℕ, zero, suc, ◌+◌, ◌-◌, ◌<◌, ◌≤◌, ◌^◌, ◌≡◌, refl, sym, ap, ◌∙◌, subst, Bool, true, false, not,
  ◌&&◌, ◌||◌, Option, none, some, List, [], ◌∷◌, ◌++◌, map, length, all, get_elem?, Text, lit,
  is_empty, split_on, trim_space, if◌then◌else◌, ltb, leb, ◌==◌, arith, Bool-cases, ◌⊎◌, inl, inr,
}
use portato.Prelude.Splits.{lacks, split_on-append}
use portato.Forward.KnownHosts.{
  Line, max_line_len, shown, write_sanitized_known_hosts, is_skipped, skip_line, is_bad, line_of,
}

abbrev pub is_short : Text → Bool
is_short s = leb (length s) max_line_len

-- A line that is written whole or as an empty one, and that the scanner of New can read.
abbrev pub is_sound : Line → Bool
is_sound l = lacks b'\n' l.text && (l.skip || is_short l.text)

abbrev pub open_lines : List Line → ℕ
open_lines [] = 0
open_lines (l ∷ ls) = if l.skip then open_lines ls else suc (open_lines ls)

abbrev pub texts_of : List Line → List Text
texts_of ls = map (λ l. l.text) ls

pub split_on-parts : (c : ℕ) (s : Text) → all (lacks c) (split_on c s) ≡ true
unfolding split_on
split_on-parts c [] = refl
split_on-parts c (x ∷ s) = ground (arith, cons_part (split_on c s) (split_on-parts c s))
  where
    cons_part :
        (ws : List Text)
        → all (lacks c) ws ≡ true
        → all (lacks c) (if x == c then [] ∷ ws else portato.Prelude.cons_head x ws) ≡ true
    cons_part [] h = ground arith
    cons_part (w ∷ ws) h = ground arith

pub line_of_sound :
    (ws : List Text) → all (lacks b'\n') ws ≡ true → all is_sound (map line_of ws) ≡ true
line_of_sound [] h = refl
line_of_sound (w ∷ ws) h = ground (arith, line_of_sound ws)

pub split_on-write :
    (ls : List Line)
    → all is_sound ls ≡ true
    → split_on b'\n' (write_sanitized_known_hosts ls) ≡ map shown ls ++ [] ∷ []
unfolding write_sanitized_known_hosts split_on
split_on-write [] h = refl
split_on-write (l ∷ ls) h =
    split_on-append b'\n' (shown l) (write_sanitized_known_hosts ls) (lacks_shown l (ground arith))
    ∙ ap (λ ws. shown l ∷ ws) (split_on-write ls (ground arith))
  where
    lacks_shown : (m : Line) → is_sound m ≡ true → lacks b'\n' (shown m) ≡ true
    lacks_shown m k = elim (Bool-cases m.skip) [
      | inl skipped ↦ rw skipped refl
      | inr kept ↦ rw kept (ground arith)
    ]

pub shown-short :
    (ls : List Line) → all is_sound ls ≡ true → all is_short (map shown ls ++ [] ∷ []) ≡ true
shown-short [] h = refl
shown-short (l ∷ ls) h = elim (Bool-cases l.skip) [
  | inl skipped ↦ rw skipped (shown-short ls (ground arith))
  | inr kept ↦ rw kept (ground (arith, shown-short ls))
]

-- A line that is not blank is one of the file that is not skipped.
pub get_elem?-shown :
    (ls : List Line) (n : ℕ) (s : Text)
    → get_elem? (map shown ls ++ [] ∷ []) n ≡ some s
    → is_empty s ≡ false
    → (n < length ls) × (is_skipped n ls ≡ false)
get_elem?-shown [] zero s e h = absurd (ground arith)
get_elem?-shown [] (suc n) s e h = absurd (ground arith)
get_elem?-shown (l ∷ ls) zero s e h = elim (Bool-cases l.skip) [
  | inl skipped ↦ absurd (ground arith)
  | inr kept ↦ (omega arith, kept)
]
get_elem?-shown (l ∷ ls) (suc n) s e h =
    let (below, kept) = get_elem?-shown ls n s e h in (omega arith, kept)

pub skip_line-opens :
    (ls : List Line) (n : ℕ)
    → n < length ls
    → is_skipped n ls ≡ false
    → suc (open_lines (skip_line n ls)) ≡ open_lines ls
skip_line-opens [] n b h = absurd (omega arith)
skip_line-opens (l ∷ ls) zero b h = rw h refl
skip_line-opens (l ∷ ls) (suc n) b h = ground (arith, skip_line-opens ls n)

pub skip_line_sound :
    (ls : List Line) (n : ℕ) → all is_sound ls ≡ true → all is_sound (skip_line n ls) ≡ true
skip_line_sound [] n h = refl
skip_line_sound (l ∷ ls) zero h = ground arith
skip_line_sound (l ∷ ls) (suc n) h = ground (arith, skip_line_sound ls n)

pub texts_of-skip_line : (ls : List Line) (n : ℕ) → texts_of (skip_line n ls) ≡ texts_of ls
texts_of-skip_line [] n = refl
texts_of-skip_line (l ∷ ls) zero = refl
texts_of-skip_line (l ∷ ls) (suc n) = ap (λ ts. l.text ∷ ts) (texts_of-skip_line ls n)

pub open_lines-length : (ls : List Line) → open_lines ls ≤ length ls
open_lines-length [] = omega arith
open_lines-length (l ∷ ls) = ground (arith, open_lines-length ls)

pub length-line_of : (ws : List Text) → length (map line_of ws) ≡ length ws
length-line_of [] = omega arith
length-line_of (w ∷ ws) = omega (arith, length-line_of ws)

pub line_of-skipped :
    (ws : List Text) (i : ℕ)
    → is_skipped i (map line_of ws) ≡ true
    → (s : Text) × (get_elem? ws i ≡ some s) × (is_short s ≡ false)
line_of-skipped [] i h = absurd cc
line_of-skipped (w ∷ ws) zero h = (w, refl, ground arith)
line_of-skipped (w ∷ ws) (suc i) h = line_of-skipped ws i h

pub skipped_cases :
    (ls : List Line) (i n : ℕ)
    → is_skipped i (skip_line n ls) ≡ true
    → (i ≡ n) ⊎ (is_skipped i ls ≡ true)
skipped_cases [] i n h = absurd cc
skipped_cases (l ∷ ls) zero zero h = inl refl
skipped_cases (l ∷ ls) zero (suc n) h = inr h
skipped_cases (l ∷ ls) (suc i) zero h = inr h
skipped_cases (l ∷ ls) (suc i) (suc n) h = elim (skipped_cases ls i n h) [
  | inl same ↦ inl (ap (λ k. suc k) same)
  | inr before ↦ inr before
]

pub texts_of-line_of : (ws : List Text) → texts_of (map line_of ws) ≡ ws
texts_of-line_of [] = refl
texts_of-line_of (w ∷ ws) = ap (λ ts. w ∷ ts) (texts_of-line_of ws)

pub length-skip_line : (ls : List Line) (n : ℕ) → length (skip_line n ls) ≡ length ls
length-skip_line [] n = omega arith
length-skip_line (l ∷ ls) zero = omega arith
length-skip_line (l ∷ ls) (suc n) = omega (arith, length-skip_line ls n)

pub not_bad :
    (ls : List Line) (n : ℕ) → n < length ls → is_skipped n ls ≡ false → is_bad (suc n) ls ≡ false
not_bad ls n b h = ground arith
