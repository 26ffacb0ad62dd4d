-- ===== src/Config/Types.antt =====
-- The types of internal/config/config.go, and the comparisons of configurations that
-- internal/config/config.go and internal/forward/engine.go make.
pub mod Changed
use portato.Prelude.{
  Bool, true, false, ◌&&◌, ◌||◌, not, Option, none, some, List, [], ◌∷◌, Text, text_eq,
  if◌then◌else◌,
}
use portato.Prelude.Int.{ℤ, eqb_ℤ}

pub record LogConfig : Type 0 where
  pub max_size_mb : ℤ
  pub max_age_days : ℤ
  pub retain : ℤ

-- A `*bool` is an optional truth value.
pub record Defaults : Type 0 where
  pub identity : Text
  pub known_hosts : Text
  pub accept_new_hosts : Bool
  pub socks5_user : Text
  pub socks5_password : Text
  pub identity_passphrase_store : Bool
  pub password_auth : Option Bool
  pub ssh_password_store : Bool
  pub update_check : Option Bool
  pub log : LogConfig

pub record Hop : Type 0 where
  pub user : Text
  pub host : Text
  pub port : ℤ

pub record Tuber : Type 0 where
  pub name : Text
  pub type : Text
  pub local : Text
  pub remote : Text
  pub ssh : Text
  pub identity : Text
  pub enabled : Bool
  pub tags : List Text
  pub jump : Text
  pub password_auth : Option Bool
  pub socks5_user : Text
  pub socks5_password : Text
  pub user : Text
  pub host : Text
  pub port : ℤ
  pub jumps : List Hop
  pub ssh_identity : Text

pub record Config : Type 0 where
  pub defaults : Defaults
  pub tubers : List Tuber

abbrev pub bool_eq : Bool → Bool → Bool
bool_eq true b = b
bool_eq false b = not b

-- boolPtrEqual, and sameBoolPtr of the engine
unfoldable pub bool_ptr_equal : Option Bool → Option Bool → Bool
bool_ptr_equal none none = true
bool_ptr_equal none (some b) = false
bool_ptr_equal (some a) none = false
bool_ptr_equal (some a) (some b) = bool_eq a b

abbrev pub log_equal : LogConfig → LogConfig → Bool
log_equal a b =
    eqb_ℤ a.max_size_mb b.max_size_mb
    && eqb_ℤ a.max_age_days b.max_age_days
    && eqb_ℤ a.retain b.retain

-- Defaults.Equal
unfoldable pub defaults_equal : Defaults → Defaults → Bool
defaults_equal d o =
    text_eq d.identity o.identity
    && text_eq d.known_hosts o.known_hosts
    && bool_eq d.accept_new_hosts o.accept_new_hosts
    && text_eq d.socks5_user o.socks5_user
    && text_eq d.socks5_password o.socks5_password
    && bool_eq d.identity_passphrase_store o.identity_passphrase_store
    && bool_eq d.ssh_password_store o.ssh_password_store
    && log_equal d.log o.log
    && bool_ptr_equal d.password_auth o.password_auth

unfoldable pub same_strings : List Text → List Text → Bool
same_strings [] [] = true
same_strings [] (b ∷ bs) = false
same_strings (a ∷ as') [] = false
same_strings (a ∷ as') (b ∷ bs) = text_eq a b && same_strings as' bs

-- The ladder of early returns of `tuberChanged`.
unfoldable pub tuber_changed : Tuber → Tuber → Bool
tuber_changed a b =
    if not (text_eq a.name b.name) || not (text_eq a.type b.type)
    then true
    else if not (text_eq a.local b.local) || not (text_eq a.remote b.remote)
    then true
    else if not (text_eq a.ssh b.ssh) || not (text_eq a.identity b.identity)
    then true
    else if not (text_eq a.user b.user) || not (text_eq a.host b.host) || not (eqb_ℤ a.port b.port)
    then true
    else if not (bool_ptr_equal a.password_auth b.password_auth)
    then true
    else if not (text_eq a.jump b.jump)
    then true
    else not (text_eq a.socks5_user b.socks5_user)
      || not (text_eq a.socks5_password b.socks5_password)

-- On unless it is switched off explicitly.
abbrev pub opted_in : Option Bool → Bool
opted_in none = true
opted_in (some b) = b

-- ResolvedPasswordAuth
unfoldable pub resolved_password_auth : Tuber → Defaults → Bool
resolved_password_auth t d =
    if not (opted_in t.password_auth)
    then false
    else if not (opted_in d.password_auth)
    then false
    else true
