-- ===== src/Forward/Tuber/Views.antt =====
-- internal/forward/tuber.go: what a tuber shows of itself.
use portato.Prelude.{Bool, ◌||◌, not, Option, none, some, [], Text, lit, is_empty, if◌then◌else◌}
use portato.Prelude.Int.{ℤ, pos, eqb_ℤ}
use portato.Prelude.Decimal.{atoi}
use portato.Config.Addr.{listen_addr, split_host_port}
use portato.Forward.State.{Status}
use portato.Forward.Tuber.{Tuber, Listener, Result, ok, err, is_remote}

abbrev port_of : Option (Text × Text) → Option ℤ
port_of none = none
port_of (some (host, port)) = elim (atoi port) [
  | none ↦ none
  | some p ↦ if eqb_ℤ p (pos 0) then none else some p
]

-- LiveLocalPort
unfoldable pub live_local_port : Tuber → Option ℤ
live_local_port t = elim t.listener [ none ↦ none | some ln ↦ port_of (split_host_port ln.addr) ]

unfoldable pub status : Tuber → Status
status t = record {
  name = t.cfg.name;
  type = t.cfg.type;
  local = elim t.listener [ none ↦ listen_addr t.cfg | some ln ↦ ln.addr ];
  remote = t.cfg.remote;
  state = t.state;
  error = t.err_msg;
  connected_at = t.connected_at;
  tags = t.cfg.tags;
  pending_host = t.pending_host;
  pending_fingerprint = t.pending_fingerprint;
  pending_host_line = t.pending_host_line;
  pending_passphrase = t.pending_passphrase;
  passphrase_attempts = t.passphrase_attempts;
  pending_password = t.pending_password;
  password_attempts = t.password_attempts;
}

-- ListenerFile: the listener to duplicate; `err []` is ErrNoListener.
unfoldable pub listener_file : Tuber → Result Listener
listener_file t = elim t.listener [
  | none ↦ err []
  | some ln ↦
      if not t.running || is_remote t.cfg
      then err []
      else if ln.is_tcp
      then ok ln
      else err (lit "listener is not a *net.TCPListener")
]

-- PendingHostLine
unfoldable pub pending_host_line_ok : Tuber → Text × Bool
pending_host_line_ok t = (t.pending_host_line, not (is_empty t.pending_host_line))
