-- ===== src/Forward/KnownHosts/Recovers.antt =====
-- internal/forward/knownhosts.go: malformed lines never keep the rest of a known_hosts file from loading.
use portato.Prelude.{
  ℕ, zero, suc, ◌-◌, ◌<◌, ◌^◌, ◌≡◌, refl, sym, ◌∙◌, subst, Bool, true, false, some, List, ◌++◌,
  length, all, get_elem?, Text, lit, is_empty, split_on, trim_space, arith, ◌⊎◌, inl, inr,
}
use portato.Forward.KnownHosts.{
  Parsed, base, failed, Line, write_sanitized_known_hosts, is_skipped, skip_line, is_bad, lines_of,
  rounds, load_known_hosts, parse_known_hosts_line_error,
}
use portato.Forward.KnownHosts.Printed.{line_error, parse-line_error}
use portato.Forward.KnownHosts.Skipping.{
  is_short, is_sound, open_lines, texts_of, split_on-parts, line_of_sound, split_on-write,
  shown-short, get_elem?-shown, skip_line-opens, skip_line_sound, texts_of-skip_line,
  open_lines-length, length-line_of, line_of-skipped, skipped_cases, texts_of-line_of,
  length-skip_line, not_bad,
}

-- An error of New names a line of the file that is not blank, as long as no line is too long to read.
abbrev pub NamesLines {ℓ} : {B : Type ℓ} → (Text → Text → Parsed B) → Type ℓ
NamesLines new =
    (path content msg : Text)
    → new path content ≡ failed msg
    → all is_short (split_on b'\n' content) ≡ true
    → (n : ℕ) × (reason : Text) × (msg ≡ line_error path (suc n) reason)
      × ((s : Text) × (get_elem? (split_on b'\n' content) n ≡ some s) × (is_empty s ≡ false))

module _ {ℓ} {B : Type ℓ} (new : Text → Text → Parsed B) where
  -- A reason to skip the line `i`: it is too long to read, or an error of New names it.
  abbrev pub IsBlamed : Text → List Text → ℕ → Type ℓ
  IsBlamed path texts i =
      ((s : Text) × (get_elem? texts i ≡ some s) × (is_short s ≡ false))
      ⊎ ((content : Text) × (msg : Text) × (reason : Text) × (new path content ≡ failed msg)
          × (parse_known_hosts_line_error msg path ≡ some (suc i, reason)))

  abbrev AllBlamed : Text → List Text → List Line → Type ℓ
  AllBlamed path texts ls = (i : ℕ) → is_skipped i ls ≡ true → IsBlamed path texts i

  -- A base that New made of the texts, those emptied that there is a reason to skip.
  abbrev pub IsLoaded : Text → List Text → Parsed B → Type ℓ
  IsLoaded path texts r =
      (b : B) × (r ≡ base b)
      × ((ls : List Line) × (new path (write_sanitized_known_hosts ls) ≡ base b)
          × (texts_of ls ≡ texts)
          × ((i : ℕ) → is_skipped i ls ≡ true → IsBlamed path texts i))

  AllBlamed-skip_line :
      (path msg reason : Text) (texts : List Text) (ls : List Line) (n : ℕ)
      → new path (write_sanitized_known_hosts ls) ≡ failed msg
      → parse_known_hosts_line_error msg path ≡ some (suc n, reason)
      → AllBlamed path texts ls
      → AllBlamed path texts (skip_line n ls)
  AllBlamed-skip_line path msg reason texts ls n made parsed blamed i skipped =
      elim (skipped_cases ls i n skipped) [
        | inl same ↦ rw same (inr (write_sanitized_known_hosts ls, msg, reason, made, parsed))
        | inr before ↦ blamed i before
      ]

  named_line :
      (path msg : Text) (ls : List Line)
      → NamesLines new
      → new path (write_sanitized_known_hosts ls) ≡ failed msg
      → all is_sound ls ≡ true
      → length ls < 2 ^ 63 - 1
      → (n : ℕ) × (reason : Text) × (parse_known_hosts_line_error msg path ≡ some (suc n, reason))
        × (n < length ls)
        × (is_skipped n ls ≡ false)
  named_line path msg ls names made sound small =
      let shorts =
        subst (λ ws. all is_short ws ≡ true) (sym (split_on-write ls sound))
          (shown-short ls sound) in
      let (n, reason, printed, (s, at, filled)) =
        names path (write_sanitized_known_hosts ls) msg made shorts in
      let (below, kept) =
        get_elem?-shown ls n s (subst (λ ws. get_elem? ws n ≡ some s) (split_on-write ls sound) at)
          filled in
      (
        n,
        trim_space reason,
        subst (λ m. parse_known_hosts_line_error m path ≡ some (suc n, trim_space reason))
            (sym printed) (parse-line_error path n reason (omega arith)),
        below,
        kept,
      )

  rounds-skips :
      (fuel : ℕ) (writes : ℕ → Bool) (path fatal msg reason : Text) (ls : List Line) (n : ℕ)
      → writes fuel ≡ true
      → new path (write_sanitized_known_hosts ls) ≡ failed msg
      → parse_known_hosts_line_error msg path ≡ some (suc n, reason)
      → is_bad (suc n) ls ≡ false
      → rounds new (suc fuel) writes path fatal ls
        ≡ rounds new fuel writes path fatal (skip_line n ls)
  unfolding rounds
  rounds-skips fuel writes path fatal msg reason ls n ok made parsed good =
      let back : suc n - 1 ≡ n = omega arith in rw (ok, made, parsed, good, back) refl

  rounds-base :
      (fuel : ℕ) (writes : ℕ → Bool) (path fatal : Text) (ls : List Line) (b : B)
      → writes fuel ≡ true
      → new path (write_sanitized_known_hosts ls) ≡ base b
      → rounds new (suc fuel) writes path fatal ls ≡ base b
  unfolding rounds
  rounds-base fuel writes path fatal ls b ok made = rw (ok, made) refl

  rounds-IsLoaded :
      (fuel : ℕ) (writes : ℕ → Bool) (path fatal : Text) (texts : List Text) (ls : List Line)
      → NamesLines new
      → ((k : ℕ) → writes k ≡ true)
      → all is_sound ls ≡ true
      → length ls < 2 ^ 63 - 1
      → open_lines ls < fuel
      → texts_of ls ≡ texts
      → AllBlamed path texts ls
      → IsLoaded path texts (rounds new fuel writes path fatal ls)
  rounds-IsLoaded zero writes path fatal texts ls names ok sound small enough same blamed =
      absurd (omega arith)
  rounds-IsLoaded (suc fuel) writes path fatal texts ls names ok sound small enough same blamed =
      by_result (new path (write_sanitized_known_hosts ls)) refl (λ n below kept more_blamed.
        rounds-IsLoaded fuel writes path fatal texts (skip_line n ls) names ok
          (skip_line_sound ls n sound) (omega (arith, length-skip_line ls n))
          (omega (arith, skip_line-opens ls n below kept)) (texts_of-skip_line ls n ∙ same)
          more_blamed)
    where
      by_result :
          (r : Parsed B)
          → new path (write_sanitized_known_hosts ls) ≡ r
          → ((n : ℕ)
              → n < length ls
              → is_skipped n ls ≡ false
              → AllBlamed path texts (skip_line n ls)
              → IsLoaded path texts (rounds new fuel writes path fatal (skip_line n ls)))
          → IsLoaded path texts (rounds new (suc fuel) writes path fatal ls)
      by_result (base b) made later =
          (b, rounds-base fuel writes path fatal ls b (ok fuel) made, (ls, made, same, blamed))
      by_result (failed msg) made later =
          let (n, reason, parsed, below, kept) = named_line path msg ls names made sound small in
          let (b, next, how) =
            later n below kept
              (AllBlamed-skip_line path msg reason texts ls n made parsed blamed) in
          (
            b,
            rounds-skips fuel writes path fatal msg reason ls n (ok fuel) made parsed
                  (not_bad ls n below kept)
                ∙ next,
            how,
          )

  -- A known_hosts file that can be read, and whose temporary copies can be written, always loads,
  -- whatever its lines, when each error of New names a line that is not blank, as long as no line is
  -- too long to read. The load gives what New makes of the lines of the file, those emptied that are
  -- too long or that an error of New names.
  pub load_known_hosts-IsLoaded :
      (msg hosts content path : Text) (writes : ℕ → Bool)
      → NamesLines new
      → ((k : ℕ) → writes k ≡ true)
      → length (split_on b'\n' content) < 2 ^ 63 - 1
      → IsLoaded path
          (split_on b'\n' content)
          (load_known_hosts new (failed msg) hosts (some content) (some path) writes)
  unfolding load_known_hosts lines_of
  load_known_hosts-IsLoaded msg hosts content path writes names ok small =
      let parts = split_on b'\n' content in
      rounds-IsLoaded (suc (length (lines_of content))) writes path
        (lit "load known_hosts " ++ (hosts ++ (lit ": " ++ msg))) parts (lines_of content) names ok
        (line_of_sound parts (split_on-parts b'\n' content)) (omega (arith, length-line_of parts))
        (omega (arith, open_lines-length (lines_of content))) (texts_of-line_of parts)
        (λ i skipped. inl (line_of-skipped parts i skipped))
