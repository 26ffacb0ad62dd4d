-- ===== src/Config/Ssh.antt =====
-- internal/config/config.go: parseSSHExplicit, and the chain of a `jump:` value. The name of the
-- operating system's user is an argument.
pub mod RoundTrip
use portato.Prelude.{
  ℕ, ◌≡◌, Bool, true, false, Option, none, some, List, [], ◌∷◌, ◌++◌, Text, is_empty, trim_space,
  split_last, split_on, if◌then◌else◌,
}
use portato.Prelude.Maps.{is_some}
use portato.Prelude.Int.{ℤ, pos}
use portato.Prelude.Decimal.{atoi, itoa}
use portato.Config.Types.{Hop}

-- What parseSSHExplicit returns without an error.
pub record Target : Type 0 where
  pub user : Text
  pub host : Text
  pub port : ℤ
  pub user_explicit : Bool
  pub port_explicit : Bool

abbrev pub default_ssh_port : ℤ
default_ssh_port = pos 22

abbrev split_user : Text → Option (Text × Text) → Option Text × Text
split_user s none = (none, s)
split_user s (some (usr, host_part)) = (some usr, host_part)

abbrev numbered : Text → Text → Option ℤ → Text × Option ℤ
numbered host_part host none = (host_part, none)
numbered host_part host (some n) = (host, some n)

abbrev split_port : Text → Option (Text × Text) → Text × Option ℤ
split_port host_part none = (host_part, none)
split_port host_part (some (host, port)) = numbered host_part host (atoi port)

abbrev or_default {ℓ} : {A : Type ℓ} → A → Option A → A
or_default d none = d
or_default d (some a) = a

-- parseSSHExplicit; `none` is the error on an empty value.
unfoldable pub parse_ssh_explicit : Text → Text → Option Target
parse_ssh_explicit current_user value =
    let s = trim_space value in
    if is_empty s
    then none
    else let (usr, host_part) = split_user s (split_last b'@' s) in
      let (host, port) = split_port host_part (split_last b':' host_part) in
      some (record {
        user = or_default current_user usr;
        host = host;
        port = or_default default_ssh_port port;
        user_explicit = is_some usr;
        port_explicit = is_some port;
      })

-- parseSSH
unfoldable pub parse_ssh : Text → Text → Option Hop
unfolding parse_ssh_explicit
parse_ssh current_user s = elim (parse_ssh_explicit current_user s) [
  | none ↦ none
  | some t ↦ some (record { user = t.user; host = t.host; port = t.port })
]

-- The loop of parseJumpChain, which passes over what it cannot parse.
unfoldable pub parse_hops : Text → List Text → List Hop
parse_hops current_user [] = []
parse_hops current_user (tok ∷ rest) =
    let hops = parse_hops current_user rest in
    if is_empty (trim_space tok)
    then hops
    else elim (parse_ssh current_user tok) [ none ↦ hops | some hop ↦ hop ∷ hops ]

unfoldable pub parse_jump_chain : Text → Text → List Hop
unfolding parse_hops
parse_jump_chain current_user jump =
    if is_empty (trim_space jump) then [] else parse_hops current_user (split_on b',' jump)

-- fmt.Sprintf("%s@%s:%d", u, host, port)
abbrev pub hop_text : Text → Text → ℤ → Text
hop_text u host port = u ++ (b'@' ∷ (host ++ (b':' ∷ itoa port)))
