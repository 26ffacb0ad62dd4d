-- ===== src/Forward/HostKeyAlgos.antt =====
-- internal/forward/ssh.go: the host key algorithms that known_hosts lists for a host. path.Match, the
-- base64 and HMAC functions and the third-party knownhosts.Normalize are the record Library.
pub mod Offered
mod Tests
use portato.Prelude.{
  ℕ, ◌+◌, ◌≡◌, Bool, true, false, not, ◌&&◌, ◌||◌, Option, none, some, List, [], ◌∷◌, ◌++◌, Text,
  lit, text_eq, is_empty, trim_space, split_on, if◌then◌else◌, ltb, ◌==◌,
}
use portato.Prelude.Search.{has_prefix}
use portato.Prelude.Words.{fields}
use portato.Config.Addr.{split_host_port, join_host_port}
use portato.Config.Validate.{seen_in}

-- `matches` is path.Match without an error; `decode` is base64's, `mac` HMAC-SHA1 of a salt and a text.
pub record Library : Type 0 where
  pub matches : Text → Text → Bool
  pub decode : Text → Option Text
  pub mac : Text → Text → Text
  pub normalize : Text → Text

abbrev pub is_hash : List Text → Bool
is_hash (a ∷ b ∷ c ∷ d ∷ []) = text_eq b (lit "1")
is_hash _ = false

abbrev pub salt_of : List Text → Text
salt_of (a ∷ b ∷ c ∷ ws) = c
salt_of _ = []

abbrev pub hash_of : List Text → Text
hash_of (a ∷ b ∷ c ∷ d ∷ ws) = d
hash_of _ = []

-- The host and the port around "]:" of a pattern.
unfoldable pub split_bracket : Text → Option (Text × Text)
unfolding has_prefix
split_bracket [] = none
split_bracket (c ∷ s) =
    let rest = split_bracket s in
    if has_prefix (lit "]:") (c ∷ s)
    then some ([], portato.Prelude.drop 1 s)
    else elim rest [ none ↦ none | some (a, b) ↦ some (c ∷ a, b) ]

-- algosForKeyType
unfoldable pub algos_for_key_type : Text → List Text
algos_for_key_type keytype =
    if text_eq keytype (lit "ssh-rsa")
    then lit "rsa-sha2-512" ∷ lit "rsa-sha2-256" ∷ lit "ssh-rsa" ∷ []
    else keytype ∷ []

-- `add`: the algorithms that are not in the list yet, at its end.
unfoldable pub add : List Text → List Text → List Text
add algos [] = algos
add algos (a ∷ more) =
    let same = add algos more in
    let grown = add (algos ++ a ∷ []) more in if seen_in a algos then same else grown

-- The bytes of a code point in UTF-8, and those of a text.
abbrev byte_size : ℕ → ℕ
byte_size c = if ltb c 0x80 then 1 else if ltb c 0x800 then 2 else if ltb c 0x10000 then 3 else 4

abbrev byte_length : Text → ℕ
byte_length [] = 0
byte_length (c ∷ s) = byte_size c + byte_length s

-- bufio.MaxScanTokenSize, from which on a line stops the scanner
abbrev pub max_token : ℕ
max_token = 65536

unfoldable pub scanned : List Text → List Text
scanned [] = []
scanned (l ∷ ls) = let rest = scanned ls in if ltb (byte_length l) max_token then l ∷ rest else []

module _ (L : Library) where
  unfoldable pub hashed_host_matches : Text → Text → Bool
  unfolding split_on
  hashed_host_matches pattern target =
      let parts = split_on b'|' pattern in
      is_hash parts && (elim (L.decode (salt_of parts)) [
        | none ↦ false
        | some salt ↦ elim (L.decode (hash_of parts)) [
          | none ↦ false
          | some want ↦ text_eq (L.mac salt target) want
        ]
      ])

  unfoldable pub host_pattern_matches : Text → Text → Text → Text → Bool
  unfolding hashed_host_matches split_bracket has_prefix
  host_pattern_matches pattern host port target =
      if has_prefix (lit "|1|") pattern
      then hashed_host_matches pattern target
      else if has_prefix (lit "[") pattern
      then elim (split_bracket (portato.Prelude.drop 1 pattern)) [
        | none ↦ false
        | some (h, p) ↦ text_eq h host && text_eq p port
      ]
      else L.matches pattern host && text_eq port (lit "22")

  -- The loop of hostMatchesAny over the trimmed patterns.
  unfoldable pub host_matches_from : Bool → List Text → Text → Text → Text → Bool
  unfolding host_pattern_matches
  host_matches_from matched [] host port target = matched
  host_matches_from matched ([] ∷ ps) host port target =
      host_matches_from matched ps host port target
  host_matches_from matched ((c ∷ p) ∷ ps) host port target =
      let same = host_matches_from matched ps host port target in
      let found = host_matches_from true ps host port target in
      if c == b'!'
      then if host_pattern_matches p host port target then false else same
      else if host_pattern_matches (c ∷ p) host port target
      then found
      else same

  unfoldable pub host_matches_any : Text → Text → Text → Text → Bool
  unfolding host_matches_from
  host_matches_any patterns host port target =
      host_matches_from false (portato.Prelude.map trim_space (split_on b',' patterns)) host port
        target

  -- The key type of a line for the host.
  abbrev pub of_fields : List Text → Text → Text → Text → Option Text
  of_fields (hosts ∷ keytype ∷ key ∷ more) host port target =
      if has_prefix (lit "@") hosts
      then none
      else if host_matches_any hosts host port target
      then some keytype
      else none
  of_fields _ host port target = none

  unfoldable pub key_type_of : Text → Text → Text → Text → Option Text
  unfolding host_matches_any fields
  key_type_of line host port target =
      let l = trim_space line in
      if is_empty l || has_prefix (lit "#") l then none else of_fields (fields l) host port target

  unfoldable pub algos_from : List Text → List Text → Text → Text → Text → List Text
  unfolding key_type_of add algos_for_key_type
  algos_from algos [] host port target = algos
  algos_from algos (l ∷ ls) host port target = elim (key_type_of l host port target) [
    | none ↦ algos_from algos ls host port target
    | some keytype ↦ algos_from (add algos (algos_for_key_type keytype)) ls host port target
  ]

  abbrev for_host : Text → Text → Text → List Text
  for_host content host port =
      algos_from [] (scanned (split_on b'\n' content)) host port
        (L.normalize (join_host_port host port))

  abbrev at_address : Text → Option (Text × Text) → List Text
  at_address content none = for_host content [] (lit "22")
  at_address content (some (host, port)) =
      for_host content host (if is_empty port then lit "22" else port)

  -- hostKeyAlgos; `none` for a file that cannot be read
  unfoldable pub host_key_algos : Option Text → Text → List Text
  unfolding algos_from scanned split_host_port
  host_key_algos none addr = []
  host_key_algos (some content) addr = at_address content (split_host_port addr)
