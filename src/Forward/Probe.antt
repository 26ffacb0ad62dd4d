-- ===== src/Forward/Probe.antt =====
-- internal/forward/probe.go: the probe of a tuber's server. The answers of the hops and of the channel
-- that the probe opens are arguments, and so is what net.ParseIP says of a host.
pub mod Outcomes
mod Tests
use portato.Prelude.{
  ℕ, ◌≡◌, Bool, true, false, ◌&&◌, ◌||◌, Option, none, some, List, Text, ◌++◌, lit, text_eq,
  if◌then◌else◌,
}
use portato.Prelude.Search.{contains}
use portato.Config.Types.{Tuber}
use portato.Config.Addr.{split_host_port, remote_listen_addr}
use portato.Forward.DialErrors.{DialError, unknown_host, other, message_of}
use portato.Forward.Dial.{Auths, keys, HopAnswer, DialResult, client, error, dial_conn}

pub data ProbeOutcome : Type 0 where
  healthy : ProbeOutcome
  forwarding_denied : ProbeOutcome
  auth_unavailable : ProbeOutcome
  auth_failed : ProbeOutcome
  host_key : ProbeOutcome
  connect_failed : ProbeOutcome
  other_failure : ProbeOutcome

unfoldable pub string : ProbeOutcome → Text
string healthy = lit "healthy"
string forwarding_denied = lit "forwarding-denied"
string auth_unavailable = lit "auth-unavailable"
string auth_failed = lit "auth-failed"
string host_key = lit "host-key"
string connect_failed = lit "connect-failed"
string other_failure = lit "other"

pub record ProbeResult : Type 0 where
  pub outcome : ProbeOutcome
  pub detail : Text

-- The cases of the message, in the order of the code.
unfoldable pub outcome_of : Text → ProbeOutcome
unfolding contains
outcome_of msg =
    if contains (lit "auth failed") msg
    then auth_failed
    else if contains (lit "no ssh auth method available") msg
    then auth_unavailable
    else if contains (lit "connect refused") msg
        || contains (lit "connect timeout") msg
        || contains (lit "no such host") msg
    then connect_failed
    else other_failure

-- classifyProbeDialErr, of an error that is not nil
unfoldable pub classify_probe_dial_err : DialError → ProbeResult
unfolding outcome_of message_of
classify_probe_dial_err (unknown_host host fingerprint) = record {
  outcome = host_key;
  detail = message_of (unknown_host host fingerprint);
}
classify_probe_dial_err (other msg) = record { outcome = outcome_of msg; detail = msg }

-- dialHintMsg, with isProhibited of the error
unfoldable pub dial_hint_msg : Text → Bool → Text
dial_hint_msg prefix prohibited =
    if prohibited
    then prefix ++ lit ": direct-tcpip rejected (AllowTcpForwarding no on the server?)"
    else prefix

-- `is_remote_ip` tells of a host that it is an IP address that is no loopback.
unfoldable pub is_non_loopback_bind : (Text → Bool) → Text → Bool
unfolding split_host_port
is_non_loopback_bind is_remote_ip addr = elim (split_host_port addr) [
  | none ↦ false
  | some (host, port) ↦
      text_eq host (lit "")
      || text_eq host (lit "*")
      || text_eq host (lit "0.0.0.0")
      || text_eq host (lit "::")
      || text_eq host (lit "[::]")
      || is_remote_ip host
]

-- What the server answers to the channel of the probe: isProhibited, or anything else.
pub data ChannelAnswer : Type 0 where
  prohibited : ChannelAnswer
  permitted : ChannelAnswer

abbrev permitted_detail : Bool → Text
permitted_detail public =
    if public
    then lit
        "forwarding permitted; -R non-loopback bind assumed (GatewayPorts not verifiable client-side — if the public address is unreachable, set `GatewayPorts yes` on the server)"
    else lit "forwarding permitted"

abbrev after_channel : Tuber → (Text → Bool) → ChannelAnswer → ProbeResult
after_channel cfg is_remote_ip prohibited = record {
  outcome = forwarding_denied;
  detail = lit "AllowTcpForwarding no on the server (direct-tcpip rejected)";
}
after_channel cfg is_remote_ip permitted = record {
  outcome = healthy;
  detail = permitted_detail (
      text_eq cfg.type (lit "remote")
      && is_non_loopback_bind is_remote_ip (remote_listen_addr cfg));
}

abbrev after_dial : Tuber → (Text → Bool) → ChannelAnswer → DialResult → ProbeResult
after_dial cfg is_remote_ip channel (client c leash) = after_channel cfg is_remote_ip channel
after_dial cfg is_remote_ip channel (error e) = classify_probe_dial_err e

-- ProbeForwarding, with what authMethods gives
unfoldable pub probe_forwarding :
    Tuber → (Text → Bool) → Option (List Text) → (ℕ → HopAnswer) → ChannelAnswer → ProbeResult
unfolding classify_probe_dial_err is_non_loopback_bind dial_conn
probe_forwarding cfg is_remote_ip none answers channel = record {
  outcome = auth_unavailable;
  detail =
      lit
        "no ssh-agent and no unencrypted identity; start ssh-agent/ssh-add, or cache the key passphrase via `portato add-identity`";
}
probe_forwarding cfg is_remote_ip (some offered) answers channel =
    after_dial cfg is_remote_ip channel (dial_conn cfg keys keys answers).1
