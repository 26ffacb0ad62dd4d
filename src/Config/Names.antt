-- ===== src/Config/Names.antt =====
-- internal/config/config.go: the names of tubers and tags, and the errors of a configuration.
use portato.Prelude.{
  ℕ, ◌≡◌, refl, Bool, false, ◌&&◌, ◌||◌, all, Text, is_empty, leb, ◌==◌, if◌then◌else◌,
}
use portato.Prelude.Int.{ℤ}

abbrev pub is_name_char : ℕ → Bool
is_name_char r =
    (r == b'-')
    || (r == b'_')
    || (leb b'a' r && leb r b'z')
    || (leb b'A' r && leb r b'Z')
    || (leb b'0' r && leb r b'9')

-- validName
unfoldable pub valid_name : Text → Bool
valid_name s = if is_empty s then false else all is_name_char s

-- Each constructor is one message; the arguments are what the message prints.
pub data ConfigError : Type 0 where
  name_empty : Text → ConfigError
  name_invalid : Text → ConfigError
  name_duplicate : Text → ConfigError
  type_unsupported : Text → Text → ConfigError
  local_empty : Text → ConfigError
  remote_empty : Text → ConfigError
  remote_invalid : Text → Text → ConfigError
  host_empty : Text → ConfigError
  port_out_of_range : Text → ℤ → ConfigError
  hop_empty : Text → ℕ → ConfigError
  hop_unparsed : Text → ℕ → Text → ConfigError
  hop_host_empty : Text → ℕ → Text → ConfigError
  hop_port_out_of_range : Text → ℕ → Text → ℤ → ConfigError
  too_many_tags : Text → ℕ → ConfigError
  tag_empty : Text → ℕ → ConfigError
  tag_invalid : Text → Text → ConfigError
  tag_too_long : Text → Text → ℕ → ConfigError
  tag_duplicate : Text → Text → ConfigError
  -- of the ssh configuration's ProxyJump
  chain_too_deep : ConfigError
  chain_hop_empty : ConfigError
  chain_hop_unparsed : Text → ConfigError
  chain_cycle : Text → ConfigError
  of_proxy_jump : Text → ConfigError → ConfigError
  -- the user's ssh configuration could not be read
  ssh_config_unreadable : Text → ConfigError
  tuber_not_found : Text → ConfigError
  -- of the importer
  host_unresolved : Text → ConfigError
  -- of the document that a configuration file holds
  document_invalid : ConfigError
  root_not_mapping : ConfigError
  tubers_missing : ConfigError
  tubers_not_sequence : ConfigError
  defaults_not_mapping : ConfigError
  -- reading, writing, parsing or printing failed, with the message
  file_failed : Text → ConfigError

pub data Checked {ℓ} (A : Type ℓ) : Type ℓ where
  valid : A → Checked A
  failed : ConfigError → Checked A

abbrev pub then_check {ℓ κ} : {A : Type ℓ} {B : Type κ} → Checked A → (A → Checked B) → Checked B
then_check (valid a) k = k a
then_check (failed e) k = failed e

pub then_check-valid {ℓ κ} :
    {A : Type ℓ} {B : Type κ} (c : Checked A) (k : A → Checked B) (b : B)
    → then_check c k ≡ valid b
    → (a : A) × (c ≡ valid a) × (k a ≡ valid b)
then_check-valid (valid a) k b h = (a, refl, h)
then_check-valid (failed e) k b h = absurd cc

pub valid-inj {ℓ} : {A : Type ℓ} {a b : A} → valid a ≡ valid b → a ≡ b
valid-inj p = cc
