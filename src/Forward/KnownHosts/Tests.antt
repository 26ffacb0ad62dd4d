-- ===== src/Forward/KnownHosts/Tests.antt =====
-- A reader of known_hosts files that refuses the lines that start with an exclamation mark.
use portato.Prelude.{
  ℕ, zero, suc, ◌≡◌, refl, true, false, Option, none, some, List, [], ◌∷◌, ◌++◌, get_elem?, Text,
  lit, is_empty, split_on, if◌then◌else◌, ◌==◌, arith, Bool-cases, inl, inr,
}
use portato.Forward.KnownHosts.{Parsed, base, failed, load_known_hosts}
use portato.Forward.KnownHosts.Printed.{line_error}
use portato.Forward.KnownHosts.Recovers.{NamesLines, IsLoaded, load_known_hosts-IsLoaded}

abbrev next_line : Option ℕ → Option ℕ
next_line none = none
next_line (some n) = some (suc n)

abbrev first_refused : List Text → Option ℕ
first_refused [] = none
first_refused ([] ∷ ws) = next_line (first_refused ws)
first_refused ((c ∷ s) ∷ ws) =
    let later = next_line (first_refused ws) in if c == b'!' then some 0 else later

abbrev outcome : Text → Text → Option ℕ → Parsed Text
outcome path content none = base content
outcome path content (some n) = failed (line_error path (suc n) (lit " bad line"))

abbrev reader : Text → Text → Parsed Text
reader path content = outcome path content (first_refused (split_on b'\n' content))

abbrev IsFilled : List Text → ℕ → Type 0
IsFilled ws n = (s : Text) × (get_elem? ws n ≡ some s) × (is_empty s ≡ false)

next_line-IsFilled :
    (w : Text) (ws : List Text) (o : Option ℕ) (n : ℕ)
    → ((m : ℕ) → o ≡ some m → IsFilled ws m)
    → next_line o ≡ some n
    → IsFilled (w ∷ ws) n
next_line-IsFilled w ws none n later h = absurd cc
next_line-IsFilled w ws (some m) zero later h = absurd (ground arith)
next_line-IsFilled w ws (some m) (suc n) later h = later n (ground arith)

first_refused-IsFilled : (ws : List Text) (n : ℕ) → first_refused ws ≡ some n → IsFilled ws n
first_refused-IsFilled [] n h = absurd cc
first_refused-IsFilled ([] ∷ ws) n h =
    next_line-IsFilled [] ws (first_refused ws) n (λ m. first_refused-IsFilled ws m) h
first_refused-IsFilled ((c ∷ s) ∷ ws) n h = elim (Bool-cases (c == b'!')) [
  | inl refused ↦ (c ∷ s, at_head n (ground arith), refl)
  | inr read ↦
      next_line-IsFilled (c ∷ s) ws (first_refused ws) n (λ m. first_refused-IsFilled ws m)
        (ground arith)
]
  where
    at_head : (k : ℕ) → k ≡ 0 → get_elem? ((c ∷ s) ∷ ws) k ≡ some (c ∷ s)
    at_head zero e = refl
    at_head (suc k) e = absurd (omega arith)

reader-NamesLines : NamesLines reader
reader-NamesLines path content msg made short =
    named (first_refused (split_on b'\n' content)) refl made
  where
    named :
        (o : Option ℕ)
        → first_refused (split_on b'\n' content) ≡ o
        → outcome path content o ≡ failed msg
        → (n : ℕ) × (reason : Text) × (msg ≡ line_error path (suc n) reason)
          × ((s : Text) × (get_elem? (split_on b'\n' content) n ≡ some s) × (is_empty s ≡ false))
    named none e made = absurd cc
    named (some n) e made =
        (n, lit " bad line", cc, first_refused-IsFilled (split_on b'\n' content) n e)

abbrev file : Text
file = lit "!x" ++ b'\n' ∷ lit "h k v"

load_known_hosts-IsLoaded_example :
    IsLoaded reader (lit "t") (split_on b'\n' file) (
      load_known_hosts reader (failed (lit "e")) (lit "k") (some file) (some (lit "t")) (λ k. true))
unfolding split_on
load_known_hosts-IsLoaded_example =
    load_known_hosts-IsLoaded reader (lit "e") (lit "k") file (lit "t") (λ k. true)
      reader-NamesLines (λ k. refl) (omega arith)
