-- ===== src/Config/Validate.antt =====
-- internal/config/config.go: Validate and its parts. The map `seen` is the list of its keys.
pub mod Accepted
pub mod Jump
use portato.Prelude.{
  ℕ, suc, ◌+◌, ◌≡◌, Bool, true, false, not, ◌&&◌, ◌||◌, Option, none, some, List, [], ◌∷◌, length,
  any, Text, lit, text_eq, is_empty, trim_space, split_on, ltb, if◌then◌else◌,
}
use portato.Prelude.Int.{ℤ, pos, ltb_ℤ}
use portato.Config.Types.{Config, Tuber, Hop}
use portato.Config.Addr.{validate_host_port}
use portato.Config.Ssh.{parse_ssh}
use portato.Config.Names.{
  valid_name, ConfigError, name_empty, name_invalid, name_duplicate, type_unsupported, local_empty,
  remote_empty, remote_invalid, host_empty, port_out_of_range, hop_empty, hop_unparsed,
  hop_host_empty, hop_port_out_of_range, too_many_tags, tag_empty, tag_invalid, tag_too_long,
  tag_duplicate,
}

abbrev pub max_tags_per_tuber : ℕ
max_tags_per_tuber = 16

abbrev pub max_tag_len : ℕ
max_tag_len = 32

abbrev pub seen_in : Text → List Text → Bool
seen_in s [] = false
seen_in s (t ∷ seen) = text_eq t s || seen_in s seen

-- What is wrong with one trimmed tag, the `i`th. `len` counts the bytes of a name, which are its
-- code points.
unfoldable pub check_tag : Text → ℕ → List Text → Text → Option ConfigError
check_tag name i seen tag =
    if is_empty tag
    then some (tag_empty name i)
    else if not (valid_name tag)
    then some (tag_invalid name tag)
    else if ltb max_tag_len (length tag)
    then some (tag_too_long name tag (length tag))
    else if seen_in tag seen
    then some (tag_duplicate name tag)
    else none

unfoldable pub check_tags : Text → ℕ → List Text → List Text → Option ConfigError
unfolding check_tag
check_tags name i seen [] = none
check_tags name i seen (tag ∷ tags) = elim (check_tag name i seen (trim_space tag)) [
  | some e ↦ some e
  | none ↦ check_tags name (i + 1) (trim_space tag ∷ seen) tags
]

unfoldable pub validate_tags : Text → List Text → Option ConfigError
unfolding check_tags
validate_tags name tags =
    if ltb max_tags_per_tuber (length tags)
    then some (too_many_tags name (length tags))
    else check_tags name 1 [] tags

abbrev pub out_of_range : ℤ → Bool
out_of_range port = ltb_ℤ port (pos 1) || ltb_ℤ (pos 65535) port

abbrev check_hop : Text → ℕ → Text → Option Hop → Option ConfigError
check_hop name n tok none = some (hop_unparsed name n tok)
check_hop name n tok (some hop) =
    if is_empty hop.host
    then some (hop_host_empty name n tok)
    else if out_of_range hop.port
    then some (hop_port_out_of_range name n tok hop.port)
    else none

-- The loop of validateJump, from the `n`th hop.
unfoldable pub check_hops : Text → Text → ℕ → List Text → Option ConfigError
check_hops current_user name n [] = none
check_hops current_user name n (tok ∷ rest) =
    let later = check_hops current_user name (n + 1) rest in
    if is_empty (trim_space tok)
    then some (hop_empty name n)
    else elim (check_hop name n (trim_space tok) (parse_ssh current_user (trim_space tok))) [
      | some e ↦ some e
      | none ↦ later
    ]

unfoldable pub validate_jump : Text → Text → Text → Option ConfigError
unfolding check_hops
validate_jump current_user name value =
    let jump = trim_space value in
    if is_empty jump then none else check_hops current_user name 1 (split_on b',' jump)

abbrev pub is_supported : Text → Bool
is_supported type =
    text_eq type (lit "local") || text_eq type (lit "remote") || text_eq type (lit "dynamic")

abbrev pub or_then : Option ConfigError → Option ConfigError → Option ConfigError
or_then (some e) later = some e
or_then none later = later

-- validateTuber, with the names of the tubers before it
unfoldable pub validate_tuber : Text → List Text → Tuber → Option ConfigError
unfolding validate_jump validate_tags validate_host_port
validate_tuber current_user seen t =
    if is_empty (trim_space t.name)
    then some (name_empty t.name)
    else if not (valid_name t.name)
    then some (name_invalid t.name)
    else if seen_in t.name seen
    then some (name_duplicate t.name)
    else if not (is_supported t.type)
    then some (type_unsupported t.name t.type)
    else if is_empty (trim_space t.local)
    then some (local_empty t.name)
    else if not (text_eq t.type (lit "dynamic")) && is_empty (trim_space t.remote)
    then some (remote_empty t.name)
    else if text_eq t.type (lit "local") && not (validate_host_port t.remote)
    then some (remote_invalid t.name t.remote)
    else if is_empty (trim_space t.host)
    then some (host_empty t.name)
    else if out_of_range t.port
    then some (port_out_of_range t.name t.port)
    else or_then (validate_jump current_user t.name t.jump) (validate_tags t.name t.tags)

unfoldable pub validate_from : Text → List Text → List Tuber → Option ConfigError
unfolding validate_tuber
validate_from current_user seen [] = none
validate_from current_user seen (t ∷ ts) =
    let later = validate_from current_user (t.name ∷ seen) ts in
    elim (validate_tuber current_user seen t) [ some e ↦ some e | none ↦ later ]

-- Validate
unfoldable pub validate : Text → Config → Option ConfigError
unfolding validate_from
validate current_user c = validate_from current_user [] c.tubers
