-- ===== src/Config/Prepare.antt =====
-- internal/config/config.go: prepareWith and the resolution of a tuber's ssh target against the
-- user's ssh configuration. What the third-party ssh_config answers to a key of an alias, and what
-- the operating system says of the user, are fields of `Env`.
pub mod Idempotent
use portato.Prelude.{
  ℕ, suc, ◌+◌, ◌≡◌, Bool, true, false, not, ◌&&◌, ◌||◌, Option, none, some, List, [], ◌∷◌, ◌++◌,
  Text, lit, is_empty, text_eq, trim_space, split_on, ltb, ◌==◌, if◌then◌else◌,
}
use portato.Prelude.Int.{ℤ}
use portato.Prelude.Decimal.{atoi}
use portato.Config.Types.{Config, Tuber, Hop}
use portato.Config.Ssh.{Target, parse_ssh_explicit, parse_jump_chain, hop_text}
use portato.Config.Validate.{validate_jump, seen_in}
use portato.Config.Names.{
  ConfigError, chain_too_deep, chain_hop_empty, chain_hop_unparsed, chain_cycle, of_proxy_jump,
  Checked, valid, failed, then_check,
}

pub record Env : Type 0 where
  pub current_user : Text
  -- os.UserHomeDir, with the empty text on an error
  pub home : Text
  -- expandTilde, whose path join is the operating system's
  pub expand_tilde : Text → Text
  -- ssh_config.Config.Get of an alias and a key; `none` for a nil configuration
  pub ssh_config : Option (Text → Text → Text)

pub record AliasValues : Type 0 where
  pub host_name : Text
  pub user : Text
  pub port : Text
  pub identity : Text
  pub proxy_jump : Text

unfoldable pub matched : AliasValues → Bool
matched v =
    not (is_empty v.host_name)
    || not (is_empty v.user)
    || not (is_empty v.port)
    || not (is_empty v.identity)
    || not (is_empty v.proxy_jump)

abbrev no_values : AliasValues
no_values = record { host_name = []; user = []; port = []; identity = []; proxy_jump = [] }

abbrev get_values : (Text → Text) → AliasValues
get_values get = record {
  host_name = trim_space (get (lit "HostName"));
  user = trim_space (get (lit "User"));
  port = trim_space (get (lit "Port"));
  identity = trim_space (get (lit "IdentityFile"));
  proxy_jump = trim_space (get (lit "ProxyJump"));
}

unfoldable pub lookup_alias : Option (Text → Text → Text) → Text → AliasValues
lookup_alias none alias = no_values
lookup_alias (some get) alias = get_values (get alias)

-- The replacer of expandIdentityTokens.
unfoldable pub replace_tokens : Text → Text → Text → Text → Text
replace_tokens home host usr [] = []
replace_tokens home host usr (c ∷ []) = c ∷ []
replace_tokens home host usr (c ∷ d ∷ s) =
    let rest = replace_tokens home host usr s in
    let all_but_first = replace_tokens home host usr (d ∷ s) in
    if not (c == b'%')
    then c ∷ all_but_first
    else if d == b'd'
    then home ++ rest
    else if d == b'h'
    then host ++ rest
    else if d == b'u'
    then usr ++ rest
    else c ∷ all_but_first

unfoldable pub expand_identity_tokens : Env → Text → Text → Text → Text
unfolding replace_tokens
expand_identity_tokens env idf ssh_user host =
    env.expand_tilde (replace_tokens env.home host ssh_user idf)

abbrev or_port : ℤ → Option ℤ → ℤ
or_port port none = port
or_port port (some n) = n

-- The ssh user, host and port after the alias has filled what was not explicit.
abbrev pub alias_host : AliasValues → Text → Text
alias_host v host = if is_empty v.host_name then host else v.host_name

abbrev pub alias_user : AliasValues → Bool → Text → Text
alias_user v explicit usr = if not explicit && not (is_empty v.user) then v.user else usr

abbrev pub alias_port : AliasValues → Bool → ℤ → ℤ
alias_port v explicit port =
    if not explicit && not (is_empty v.port) then or_port port (atoi v.port) else port

unfoldable pub apply_alias : Env → AliasValues → Bool → Bool → Tuber → Tuber
unfolding expand_identity_tokens
apply_alias env v user_explicit port_explicit t =
    let usr = alias_user v user_explicit t.user in
    record t {
      host = alias_host v t.host;
      user = usr;
      port = alias_port v port_explicit t.port;
      ssh_identity =
          if is_empty (trim_space t.identity) && not (is_empty v.identity)
          then expand_identity_tokens env v.identity usr v.host_name
          else t.ssh_identity;
    }

-- expandJumpHop, with the keys of the map `visited`
unfoldable pub expand_jump_hop : Env → Text → List Text → Checked (Text × List Text)
expand_jump_hop env tok visited = elim (parse_ssh_explicit env.current_user tok) [
  | none ↦ failed (chain_hop_unparsed tok)
  | some p ↦
      let v = lookup_alias env.ssh_config p.host in
      if not (matched v)
      then valid (hop_text p.user p.host p.port, visited)
      else if seen_in p.host visited
      then failed (chain_cycle p.host)
      else valid (
        hop_text (alias_user v p.user_explicit p.user) (alias_host v p.host)
            (alias_port v p.port_explicit p.port),
        p.host ∷ visited,
      )
]

-- The loop of resolveJumpChain: the expanded hops.
unfoldable pub expand_hops : Env → List Text → List Text → Checked (List Text)
unfolding expand_jump_hop
expand_hops env [] visited = valid []
expand_hops env (part ∷ rest) visited =
    let tok = trim_space part in
    if is_empty tok
    then failed chain_hop_empty
    else then_check (expand_jump_hop env tok visited)
        (λ r. then_check (expand_hops env rest r.1) (λ hops. valid (r.0 ∷ hops)))

-- strings.Join(out, ",")
unfoldable pub join_hops : List Text → Text
join_hops [] = []
join_hops (h ∷ []) = h
join_hops (h ∷ g ∷ rest) = h ++ (b',' ∷ join_hops (g ∷ rest))

abbrev pub max_jump_depth : ℕ
max_jump_depth = 8

unfoldable pub resolve_jump_chain : Env → Text → List Text → ℕ → Checked Text
unfolding expand_hops join_hops
resolve_jump_chain env pj visited depth =
    if ltb max_jump_depth depth
    then failed chain_too_deep
    else then_check (expand_hops env (split_on b',' pj) visited) (λ hops. valid (join_hops hops))

abbrev pub with_target : Tuber → Option Target → Tuber
with_target t none = t
with_target t (some p) = record t { user = p.user; host = p.host; port = p.port }

abbrev pub explicit_user : Option Target → Bool
explicit_user none = false
explicit_user (some p) = p.user_explicit

abbrev pub explicit_port : Option Target → Bool
explicit_port none = false
explicit_port (some p) = p.port_explicit

abbrev named : Text → Checked Text → Checked Text
named name (valid a) = valid a
named name (failed e) = failed (of_proxy_jump name e)

abbrev jumps_of : Env → Text → Text → Option ConfigError → Checked (List Hop)
jumps_of env name resolved (some e) = failed e
jumps_of env name resolved none = valid (parse_jump_chain env.current_user resolved)

-- The hops of a ProxyJump that the ssh configuration gives.
unfoldable pub proxy_jumps : Env → Text → Text → Checked (List Hop)
unfolding resolve_jump_chain
proxy_jumps env name proxy_jump =
    then_check (named name (resolve_jump_chain env proxy_jump [] 0))
      (λ resolved. jumps_of env name resolved (validate_jump env.current_user name resolved))

unfoldable pub resolve_tuber : Env → Tuber → Checked Tuber
unfolding matched lookup_alias apply_alias proxy_jumps
resolve_tuber env t0 =
    let p = parse_ssh_explicit env.current_user t0.ssh in
    let t1 = with_target t0 p in
    let v = lookup_alias env.ssh_config t1.host in
    let t = if matched v then apply_alias env v (explicit_user p) (explicit_port p) t1 else t1 in
    if not (is_empty (trim_space t.jump))
    then valid (record t { jumps = parse_jump_chain env.current_user t.jump })
    else if not (matched v) || is_empty v.proxy_jump
    then valid t
    else then_check (proxy_jumps env t.name v.proxy_jump)
        (λ hops. valid (record t { jumps = hops }))

abbrev pub with_type : Tuber → Tuber
with_type t = if is_empty (trim_space t.type) then record t { type = lit "local" } else t

unfoldable pub prepare_tubers : Env → List Tuber → Checked (List Tuber)
unfolding resolve_tuber
prepare_tubers env [] = valid []
prepare_tubers env (t ∷ ts) =
    then_check (resolve_tuber env (with_type t))
      (λ u. then_check (prepare_tubers env ts) (λ us. valid (u ∷ us)))

-- prepareWith, when the ssh configuration could be read
unfoldable pub prepare : Env → Config → Checked Config
unfolding prepare_tubers
prepare env c = then_check (prepare_tubers env c.tubers) (λ ts. valid (record c { tubers = ts }))
