-- ===== src/Config/Addr.antt =====
-- Addresses: `normalizeAddrPort`, `normalizeRemoteAddr` and `validateHostPort` of
-- internal/config/config.go, over the standard library's net.SplitHostPort and net.JoinHostPort.
use portato.Prelude.{
  Bool, false, ◌&&◌, ◌||◌, not, Option, none, some, [], ◌∷◌, ◌++◌, Text, lit, is_empty, trim_space,
  contains_char, split_last, split_first, trim_prefix_char, ◌==◌, text_eq, if◌then◌else◌,
}
use portato.Config.Types.{Tuber}

-- net.JoinHostPort
unfoldable pub join_host_port : Text → Text → Text
join_host_port host port =
    if contains_char b':' host then b'[' ∷ (host ++ (b']' ∷ b':' ∷ port)) else host ++ (b':' ∷ port)

-- The rest of net.SplitHostPort after a bracketed host: a colon and the port, the last colon.
abbrev after_bracket : Text → Text → Option (Text × Text)
after_bracket host [] = none
after_bracket host (c ∷ port) =
    if (c == b':')
      && not (contains_char b':' port)
      && not (contains_char b'[' host)
      && not (contains_char b'[' port)
      && not (contains_char b']' port)
    then some (host, port)
    else none

-- After a host with no bracket in front.
abbrev plain_host : Option (Text × Text) → Option (Text × Text)
plain_host none = none
plain_host (some (host, port)) =
    if contains_char b':' host
      || contains_char b'[' host
      || contains_char b'[' port
      || contains_char b']' host
      || contains_char b']' port
    then none
    else some (host, port)

abbrev bracketed : Option (Text × Text) → Option (Text × Text)
bracketed none = none
bracketed (some (host, rest)) = after_bracket host rest

-- net.SplitHostPort, with `none` for its errors
unfoldable pub split_host_port : Text → Option (Text × Text)
split_host_port [] = none
split_host_port (c ∷ s) =
    if c == b'[' then bracketed (split_first b']' s) else plain_host (split_last b':' (c ∷ s))

abbrev pub default_host : Text
default_host = lit "127.0.0.1"

abbrev pub remote_wildcard : Text
remote_wildcard = lit "*"

abbrev with_default : Text → Text → Option (Text × Text) → Text
with_default s d none = s
with_default s d (some (host, port)) = join_host_port (if is_empty host then d else host) port

unfoldable pub normalize_addr_port : Text → Text → Text
normalize_addr_port s0 default_h =
    let s = trim_space s0 in
    if is_empty s
    then []
    else if contains_char b':' s
    then with_default s default_h (split_host_port s)
    else join_host_port default_h s

abbrev starts_with_colon : Text → Bool
starts_with_colon [] = false
starts_with_colon (c ∷ s) = c == b':'

abbrev with_wildcard : Text → Option (Text × Text) → Text
with_wildcard s none = s
with_wildcard s (some (host, port)) =
    join_host_port (if is_empty host || text_eq host (lit "*") then remote_wildcard else host) port

unfoldable pub normalize_remote_addr : Text → Text
normalize_remote_addr s0 =
    let s = trim_space s0 in
    if is_empty s
    then []
    else if not (contains_char b':' s) || starts_with_colon s
    then join_host_port remote_wildcard (trim_prefix_char b':' s)
    else with_wildcard s (split_host_port s)

-- Tuber.ListenAddr
unfoldable pub listen_addr : Tuber → Text
listen_addr t = normalize_addr_port t.local default_host

-- Tuber.RemoteListenAddr
unfoldable pub remote_listen_addr : Tuber → Text
remote_listen_addr t = normalize_remote_addr t.remote

-- validateHostPort: whether it returns nil
unfoldable pub validate_host_port : Text → Bool
validate_host_port s = elim (split_host_port (trim_space s)) [
  | none ↦ false
  | some (host, port) ↦ not (is_empty host) && not (is_empty port)
]
