-- ===== src/Forward/KnownHosts.antt =====
-- internal/forward/knownhosts.go: the load of a known_hosts file that skips its malformed lines. The
-- content of a file is its bytes. knownhosts.New of the third-party package is the argument `new`, a
-- function of the path and the content; the warnings, which are only logged, are left out.
pub mod Printed
pub mod Skipping
pub mod Recovers
mod Tests
use portato.Prelude.{
  ℕ, zero, suc, ◌-◌, ◌≡◌, Bool, true, false, not, ◌||◌, Option, none, some, List, [], ◌∷◌, ◌++◌,
  map, length, Text, lit, split_on, split_first, trim_space, if◌then◌else◌, ltb, ◌==◌,
}
use portato.Prelude.Int.{ℤ, pos, negsuc}
use portato.Prelude.Decimal.{atoi}

-- What New makes of a file: a base for the callback, or the message of an error.
pub data Parsed {ℓ} (B : Type ℓ) : Type ℓ where
  base : B → Parsed B
  failed : Text → Parsed B

-- A line of the file, and whether it is skipped.
pub record Line : Type 0 where
  pub text : Text
  pub skip : Bool

-- maxKnownHostsLineLen, bufio.MaxScanTokenSize - 2
abbrev pub max_line_len : ℕ
max_line_len = 65534

-- s[len(prefix):], when s has the prefix
unfoldable pub after_prefix : Text → Text → Option Text
after_prefix [] s = some s
after_prefix (p ∷ ps) [] = none
after_prefix (p ∷ ps) (c ∷ s) = let rest = after_prefix ps s in if p == c then rest else none

abbrev numbered : Option ℤ → Text → Option (ℕ × Text)
numbered none reason = none
numbered (some (pos zero)) reason = none
numbered (some (pos (suc n))) reason = some (suc n, trim_space reason)
numbered (some (negsuc n)) reason = none

abbrev number_before_colon : Option (Text × Text) → Option (ℕ × Text)
number_before_colon none = none
number_before_colon (some (num, reason)) = numbered (atoi num) reason

abbrev pub prefix_of : Text → Text
prefix_of path = lit "knownhosts: " ++ (path ++ lit ":")

-- parseKnownHostsLineError; `none` for the number 0
unfoldable pub parse_known_hosts_line_error : Text → Text → Option (ℕ × Text)
unfolding after_prefix split_first atoi
parse_known_hosts_line_error msg path = elim (after_prefix (prefix_of path) msg) [
  | none ↦ none
  | some rest ↦ number_before_colon (split_first b':' rest)
]

abbrev pub shown : Line → Text
shown l = if l.skip then [] else l.text

-- writeSanitizedKnownHosts, what it writes
unfoldable pub write_sanitized_known_hosts : List Line → Text
write_sanitized_known_hosts [] = []
write_sanitized_known_hosts (l ∷ ls) = shown l ++ b'\n' ∷ write_sanitized_known_hosts ls

-- skip[i]
abbrev pub is_skipped : ℕ → List Line → Bool
is_skipped i [] = false
is_skipped zero (l ∷ ls) = l.skip
is_skipped (suc i) (l ∷ ls) = is_skipped i ls

-- skip[i] = true
abbrev pub skip_line : ℕ → List Line → List Line
skip_line i [] = []
skip_line zero (l ∷ ls) = record l { skip = true } ∷ ls
skip_line (suc i) (l ∷ ls) = l ∷ skip_line i ls

-- num < 1 || num > len(lines) || skip[num-1]
abbrev pub is_bad : ℕ → List Line → Bool
is_bad num ls = ltb num 1 || ltb (length ls) num || is_skipped (num - 1) ls

abbrev pub line_of : Text → Line
line_of s = record { text = s; skip = ltb max_line_len (length s) }

unfoldable pub lines_of : Text → List Line
unfolding split_on
lines_of content = map line_of (split_on b'\n' content)

module _ {ℓ} {B : Type ℓ} (new : Text → Text → Parsed B) where
  -- The rounds; `writes` tells whether the temporary file of a round can be written.
  unfoldable pub rounds : ℕ → (ℕ → Bool) → Text → Text → List Line → Parsed B
  unfolding parse_known_hosts_line_error write_sanitized_known_hosts
  rounds zero writes path fatal ls = failed fatal
  rounds (suc n) writes path fatal ls =
      if not (writes n) then failed fatal else elim (new path (write_sanitized_known_hosts ls)) [
        | base b ↦ base b
        | failed msg ↦ elim (parse_known_hosts_line_error msg path) [
          | none ↦ failed fatal
          | some (num, reason) ↦
              let next = rounds n writes path fatal (skip_line (num - 1) ls) in
              if is_bad num ls then failed fatal else next
        ]
      ]

  -- After the file has been read, or not, and the temporary file created, or not.
  abbrev recover : Option Text → Option Text → (ℕ → Bool) → Text → Parsed B
  recover none temp writes fatal = failed fatal
  recover (some content) none writes fatal = failed fatal
  recover (some content) (some path) writes fatal =
      rounds (suc (length (lines_of content))) writes path fatal (lines_of content)

  -- loadKnownHosts; `first` is what New makes of the file itself.
  unfoldable pub load_known_hosts :
      Parsed B → Text → Option Text → Option Text → (ℕ → Bool) → Parsed B
  unfolding rounds lines_of
  load_known_hosts (base b) hosts read temp writes = base b
  load_known_hosts (failed msg) hosts read temp writes =
      recover read temp writes (lit "load known_hosts " ++ (hosts ++ (lit ": " ++ msg)))
