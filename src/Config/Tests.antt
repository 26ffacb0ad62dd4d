-- ===== src/Config/Tests.antt =====
-- The results on configurations at concrete inputs.
use portato.Prelude.{
  ℕ, ◌≡◌, ◌↔◌, ◌&&◌, refl, true, false, none, some, List, [], ◌∷◌, all, Text, lit, text_eq, ◌+◌,
  arith, is_space, trim_left, trim_right, trim_space, split_last, split_first, contains_char,
  split_on, length,
}
use portato.Prelude.Int.{pos}
use portato.Prelude.Decimal.{itoa, itoa_ℕ, digits_fuel, atoi, digits_value}
use portato.Config.Types.{tuber_changed, Tuber, Config}
use portato.Config.Addr.{validate_host_port, split_host_port}
use portato.Config.Names.{valid_name, valid}
use portato.Config.Ports.{bump_local_port, uses}
use portato.Config.Types.Changed.{with_compared, tuber_changed_iff}
use portato.Config.Ports.Bump.{bump_local_port-bare}
use portato.Config.Ports.NextFree.{all_used}
use portato.Config.Ssh.{parse_ssh_explicit, hop_text, parse_jump_chain, parse_ssh}
use portato.Config.Ssh.RoundTrip.{parse_ssh_explicit-hop_text}
use portato.Config.Validate.{
  validate, validate_from, validate_tuber, validate_jump, validate_tags, check_tags, check_tag,
  check_hops,
}
use portato.Config.Validate.Jump.{hop_in_range, parse_jump_chain-validated}
use portato.Config.Validate.Accepted.{is_accepted, distinct, names, validate_iff}
use portato.Config.Prepare.{Env, prepare, prepare_tubers, resolve_tuber, lookup_alias, matched}
use portato.Config.Patch.{prepare_and_validate, with_tuber_added, with_tuber_removed}
use portato.Config.Patch.Edits.{with_tuber_removed-added, prepare_and_validate-stable}

abbrev tuber : Text → Text → Tuber
tuber name local = record {
  name = name;
  type = lit "local";
  local = local;
  remote = lit "db:5432";
  ssh = lit "me@b";
  identity = [];
  enabled = true;
  tags = lit "db" ∷ [];
  jump = [];
  password_auth = none;
  socks5_user = [];
  socks5_password = [];
  user = lit "me";
  host = lit "b";
  port = pos 22;
  jumps = [];
  ssh_identity = [];
}

abbrev config_of : List Tuber → Config
config_of ts = record {
  defaults = record {
    identity = [];
    known_hosts = [];
    accept_new_hosts = false;
    socks5_user = [];
    socks5_password = [];
    identity_passphrase_store = false;
    password_auth = none;
    ssh_password_store = false;
    update_check = none;
    log = record { max_size_mb = pos 5; max_age_days = pos 7; retain = pos 3 };
  };
  tubers = ts;
}

-- A user without an ssh configuration.
abbrev env : Env
env = record {
  current_user = lit "me";
  home = lit "/home/me";
  expand_tilde = λ s. s;
  ssh_config = none;
}

abbrev config : Config
config = config_of (tuber (lit "a") (lit "1") ∷ [])

abbrev bigger : Config
bigger = config_of (tuber (lit "a") (lit "1") ∷ tuber (lit "c") (lit "2") ∷ [])

validate_iff_example :
    (validate (lit "me") config ≡ none)
    ↔ ((all (is_accepted (lit "me")) config.tubers && distinct (names config.tubers)) ≡ true)
validate_iff_example = validate_iff (lit "me") config

parse_ssh_explicit-hop_text_example :
    parse_ssh_explicit (lit "root") (hop_text (lit "me") (lit "b") (pos 2222))
    ≡ some (record {
      user = lit "me";
      host = lit "b";
      port = pos 2222;
      user_explicit = true;
      port_explicit = true;
    })
unfolding trim_space trim_left trim_right is_space itoa itoa_ℕ digits_fuel
parse_ssh_explicit-hop_text_example =
    parse_ssh_explicit-hop_text (lit "root") (lit "me") (lit "b") 2222 refl refl (omega arith)

config-prepared : prepare env config ≡ valid config
unfolding prepare prepare_tubers resolve_tuber lookup_alias matched parse_ssh_explicit trim_space
    trim_left trim_right is_space split_last
config-prepared = refl

config-accepted : validate (lit "me") config ≡ none
unfolding validate validate_from validate_tuber validate_jump validate_tags check_tags check_tag
    valid_name trim_space trim_left trim_right is_space text_eq split_last split_first
    validate_host_port split_host_port contains_char
config-accepted = refl

bigger-added : with_tuber_added (valid env) (tuber (lit "c") (lit "2")) config ≡ valid bigger
unfolding with_tuber_added prepare_and_validate prepare prepare_tubers resolve_tuber lookup_alias
    matched parse_ssh_explicit trim_space trim_left trim_right is_space split_last validate
    validate_from validate_tuber validate_jump validate_tags check_tags check_tag valid_name text_eq
    split_first validate_host_port split_host_port contains_char
bigger-added = refl

with_tuber_removed-added_example : with_tuber_removed (valid env) (lit "c") bigger ≡ valid config
with_tuber_removed-added_example =
    with_tuber_removed-added env config bigger (tuber (lit "c") (lit "2")) config-prepared
      config-accepted bigger-added

config-checked : prepare_and_validate (valid env) config ≡ valid config
unfolding prepare_and_validate
config-checked = rw (config-prepared, config-accepted) refl

prepare_and_validate-stable_example : prepare_and_validate (valid env) config ≡ valid config
unfolding trim_space trim_left trim_right is_space
prepare_and_validate-stable_example =
    prepare_and_validate-stable env config config refl config-checked

parse_jump_chain-validated_example :
    (length (parse_jump_chain (lit "me") (lit "a@b,c:2")) ≡ 2)
    × (all hop_in_range (parse_jump_chain (lit "me") (lit "a@b,c:2")) ≡ true)
unfolding validate_jump check_hops parse_ssh parse_ssh_explicit split_on split_last atoi
    digits_value trim_space trim_left trim_right is_space
parse_jump_chain-validated_example =
    parse_jump_chain-validated (lit "me") (lit "db") (lit "a@b,c:2") refl refl

abbrev through : Tuber
through = record (tuber (lit "a") (lit "1")) {
  enabled = false;
  jumps = record { user = lit "me"; host = lit "j"; port = pos 22 } ∷ [];
}

tuber_changed_iff_example :
    (tuber_changed (tuber (lit "a") (lit "1")) through ≡ false)
    ↔ (with_compared (tuber (lit "a") (lit "1")) through ≡ through)
tuber_changed_iff_example = tuber_changed_iff (tuber (lit "a") (lit "1")) through

bump_local_port-bare_example :
    (n : ℕ) × (bump_local_port (lit " 80") (pos 80 ∷ pos 81 ∷ [])
      ≡ portato.Prelude.Decimal.itoa (pos (80 + n)))
    × (uses (pos 80 ∷ pos 81 ∷ []) (pos (80 + n)) ≡ false)
    × (all_used n 80 (pos 80 ∷ pos 81 ∷ []) ≡ true)
unfolding atoi digits_value trim_space trim_left trim_right is_space
bump_local_port-bare_example =
    bump_local_port-bare (lit " 80") 80 (pos 80 ∷ pos 81 ∷ []) refl (omega arith)
