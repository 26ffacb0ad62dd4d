-- ===== src/Importer/Plan.antt =====
-- internal/importer/plan.go: the tubers that an import adds, their names, and what it skips.
pub mod Names
pub mod Imports
use portato.Prelude.{
  ℕ, zero, suc, ◌+◌, ◌≡◌, Bool, true, false, not, ◌&&◌, ◌||◌, Option, none, some, List, [], ◌∷◌,
  ◌++◌, length, Text, lit, text_eq, is_empty, trim_space, leb, ◌==◌, if◌then◌else◌,
}
use portato.Prelude.Int.{ℤ, pos, ltb_ℤ}
use portato.Prelude.Decimal.{atoi, itoa, itoa_ℕ}
use portato.Config.Types.{Config, Tuber}
use portato.Config.Addr.{split_host_port, listen_addr, remote_listen_addr}
use portato.Config.Names.{host_unresolved, Checked, valid, failed, then_check}
use portato.Config.Validate.{seen_in, out_of_range}
use portato.Config.Prepare.{Env, resolve_tuber}

-- Patterns are not read here.
pub record Candidate : Type 0 where
  pub ssh_host : Text
  pub type : Text
  pub local : Text
  pub remote : Text

pub record Planned : Type 0 where
  pub tuber : Tuber
  pub candidate : Candidate

pub record Plan : Type 0 where
  pub add : List Planned
  pub skipped : List Candidate

abbrev in_range : Option ℤ → Bool
in_range none = false
in_range (some n) = not (out_of_range n)

unfoldable pub valid_port : Text → Bool
valid_port s = in_range (atoi s)

abbrev bind_of : Text → Option (Text × Text) → Option (Text × Text)
bind_of s (some (h, p)) = if valid_port p then some (h, p) else none
bind_of s none = if valid_port s then some ([], s) else none

-- splitBind; `none` for ok = false
unfoldable pub split_bind : Text → Option (Text × Text)
unfolding valid_port
split_bind s = bind_of s (split_host_port s)

abbrev port_text : Option (Text × Text) → Text
port_text none = []
port_text (some (h, p)) = p

unfoldable pub declared_port : Candidate → Text
unfolding split_bind
declared_port c =
    port_text (split_bind (if text_eq c.type (lit "remote") then c.remote else c.local))

-- unicode.ToLower as far as its result can be a letter of the alphabet below: the Kelvin sign and
-- the dotted capital I are the two letters outside ASCII with such a lower case.
abbrev pub to_lower : ℕ → ℕ
to_lower r =
    if leb b'A' r && leb r b'Z'
    then r + 32
    else if r == 0x212a
    then b'k'
    else if r == 0x130
    then b'i'
    else r

abbrev pub is_lower_name : ℕ → Bool
is_lower_name r =
    (r == b'-') || (r == b'_') || (leb b'a' r && leb r b'z') || (leb b'0' r && leb r b'9')

-- One rune of the loop of sanitizeName, on `dash` and the text built so far.
abbrev sanitize_rune : Bool × Text → ℕ → Bool × Text
sanitize_rune (dash, b) r =
    if not (is_lower_name r)
    then (true, b)
    else (false, (if dash && not (is_empty b) then b ++ b'-' ∷ [] else b) ++ r ∷ [])

unfoldable pub sanitize_from : Bool × Text → Text → Text
sanitize_from (dash, b) [] = b
sanitize_from st (r ∷ s) = sanitize_from (sanitize_rune st (to_lower r)) s

unfoldable pub sanitize_name : Text → Text
unfolding sanitize_from
sanitize_name s = sanitize_from (false, []) s

abbrev pub suffixed : Text → ℕ → Text
suffixed base n = base ++ (b'-' ∷ itoa_ℕ n)

-- The loop of tuberName from a name, with the number of the next suffix, on fuel: each round passes
-- one of the names that are taken.
unfoldable pub next_name : ℕ → Text → ℕ → List Text → Text → Text
next_name zero base n taken name = name
next_name (suc f) base n taken name =
    let later = next_name f base (n + 1) taken (suffixed base n) in
    if seen_in name taken then later else name

abbrev with_port : Text → Text → Text
with_port base port = if is_empty port then base else base ++ (b'-' ∷ port)

abbrev or_imported : Text → Text
or_imported base = if is_empty base then lit "imported" else base

unfoldable pub tuber_name : Candidate → List Text → Text
unfolding sanitize_name declared_port next_name
tuber_name c taken =
    let base = or_imported (with_port (sanitize_name c.ssh_host) (declared_port c)) in
    next_name (length taken) base 2 taken base

unfoldable pub coverage_key : Text → Text → Text → Text → ℤ → Text
coverage_key typ local remote host port =
    typ ++ (b'|' ∷ (local ++ (b'|' ∷ (remote ++ (b'|' ∷ (host ++ (b'|' ∷ itoa port)))))))

-- A tuber with the given fields and no others.
abbrev pub tuber_with : Text → Text → Text → Text → Text → Tuber
tuber_with name type local remote ssh = record {
  name = name;
  type = type;
  local = local;
  remote = remote;
  ssh = ssh;
  identity = [];
  enabled = false;
  tags = [];
  jump = [];
  password_auth = none;
  socks5_user = [];
  socks5_password = [];
  user = [];
  host = [];
  port = pos 0;
  jumps = [];
  ssh_identity = [];
}

abbrev endpoint : Checked Tuber → Text × ℤ
endpoint (valid t) = (t.host, t.port)
endpoint (failed e) = ([], pos 0)

-- config.ResolveSSHHost
unfoldable pub resolve_ssh_host : Env → Text → Text × ℤ
resolve_ssh_host env target = endpoint (resolve_tuber env (tuber_with [] [] [] [] target))

abbrev endpoint_of : Env → Tuber → Text × ℤ
endpoint_of env t =
    if is_empty (trim_space t.ssh)
    then (t.host, t.port)
    else let (h, p) = resolve_ssh_host env t.ssh in if is_empty h then (t.host, t.port) else (h, p)

unfoldable pub tuber_key : Env → Tuber → Text
unfolding resolve_ssh_host coverage_key
tuber_key env t =
    let (host, port) = endpoint_of env t in
    coverage_key t.type (listen_addr t) (remote_listen_addr t) host port

unfoldable pub covered_by : Env → List Tuber → List Text
unfolding tuber_key
covered_by env [] = []
covered_by env (t ∷ ts) = tuber_key env t ∷ covered_by env ts

abbrev pub taken_names : List Tuber → List Text
taken_names [] = []
taken_names (t ∷ ts) = t.name ∷ taken_names ts

unfoldable pub candidate_key : Env → Candidate → Text
unfolding resolve_ssh_host coverage_key
candidate_key env c =
    let probe = tuber_with [] c.type c.local c.remote [] in
    let (host, port) = resolve_ssh_host env c.ssh_host in
    coverage_key probe.type (listen_addr probe) (remote_listen_addr probe) host port

abbrev pub planned : Candidate → Text → Planned
planned c name = record {
  tuber = tuber_with name c.type c.local c.remote c.ssh_host;
  candidate = c;
}

-- The loop of PlanImport over the candidates.
unfoldable pub plan_from : Env → List Text → List Text → List Candidate → Checked Plan
unfolding candidate_key tuber_name resolve_ssh_host
plan_from env covered taken [] = valid (record { add = []; skipped = [] })
plan_from env covered taken (c ∷ cands) =
    let key = candidate_key env c in
    let name = tuber_name c taken in
    let dup = seen_in key covered in
    if is_empty (resolve_ssh_host env c.ssh_host).0
    then failed (host_unresolved c.ssh_host)
    else then_check
        (plan_from env (if dup then covered else key ∷ covered)
          (if dup then taken else name ∷ taken) cands)
        (λ plan. valid (
          if dup
          then record plan { skipped = c ∷ plan.skipped }
          else record plan { add = planned c name ∷ plan.add }))

unfoldable pub plan_import : Env → Config → List Candidate → Checked Plan
unfolding plan_from covered_by
plan_import env cfg cands = plan_from env (covered_by env cfg.tubers) (taken_names cfg.tubers) cands
