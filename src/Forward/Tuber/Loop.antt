-- ===== src/Forward/Tuber/Loop.antt =====
-- The goroutine of a running tuber: `run` and `runRemote` of internal/forward/tuber.go. A step is
-- what the loop does between two points where another goroutine may take the mutex.
use portato.Prelude.{
  ℕ, ◌+◌, Bool, false, ◌||◌, not, Option, none, some, [], ◌++◌, Text, lit, is_empty, if◌then◌else◌,
}
use portato.Prelude.Int.{ℤ, pos, inc, sub_ℕ}
use portato.Config.Addr.{remote_listen_addr}
use portato.Forward.Backoff.{next_backoff, next_attempt_after_disconnect, max_duration}
use portato.Forward.State.{State, connecting, connected, reconnecting, error}
use portato.Forward.Tuber.{Tuber, notify_change, nonzero}

abbrev pub set_state : State → Tuber → Tuber
set_state s t = notify_change (record t { state = s })

abbrev pub set_state_err : State → Text → Tuber → Tuber
set_state_err s msg t = notify_change (record t { state = s; err_msg = msg })

-- The sinks that a dial calls.
unfoldable pub record_unknown_host : Text → Text → Text → Tuber → Tuber
record_unknown_host host fingerprint line t = record t {
  pending_host = host;
  pending_fingerprint = fingerprint;
  pending_host_line = line;
}

unfoldable pub passphrase_sink : Text → Tuber → Tuber
passphrase_sink path t =
    if is_empty path
    then notify_change (record t { pending_passphrase = [] })
    else notify_change (record t {
      pending_passphrase = path;
      passphrase_attempts =
          if is_empty t.pending_passphrase
          then t.passphrase_attempts
          else t.passphrase_attempts + 1;
    })

unfoldable pub password_sink : Text → Tuber → Tuber
password_sink account t =
    if is_empty account
    then notify_change (record t { pending_password = [] })
    else notify_change (record t {
      pending_password = account;
      password_attempts =
          if is_empty t.pending_password then t.password_attempts else t.password_attempts + 1;
    })

unfoldable pub clear_pending_host : Tuber → Tuber
clear_pending_host t = record t {
  pending_host = [];
  pending_fingerprint = [];
  pending_host_line = [];
}

unfoldable pub clear_pending_passphrase : Tuber → Tuber
clear_pending_passphrase t =
    let cleared = record t { pending_passphrase = []; passphrase_attempts = 0 } in
    if not (is_empty t.pending_passphrase) || nonzero t.passphrase_attempts
    then notify_change cleared
    else cleared

unfoldable pub clear_pending_password : Tuber → Tuber
clear_pending_password t =
    let cleared = record t { pending_password = []; password_attempts = 0 } in
    if not (is_empty t.pending_password) || nonzero t.password_attempts
    then notify_change cleared
    else cleared

-- Where the loop stands: what it does next.
pub data Pc : Type 0 where
  -- the test of the context at the head of the loop, then what precedes the dial
  head entering clearing_host clearing_passphrase clearing_password dialing : Pc
  -- a dial that failed, with the text of its error
  dropping_passphrase dropping_password failing : Text → Pc
  -- `client.Listen` on the server, of `runRemote` only
  binding : ℕ → Pc
  -- the client is published, serves, and is withdrawn
  publishing serving : ℕ → Pc
  withdrawing leaving disconnecting : Pc
  -- asleep after a failure, then awake; asleep after a session
  sleeping_failed : ℤ → Pc
  resuming : Pc
  sleeping_dropped : ℤ → Pc
  exited : Pc

-- What the environment answers where the loop waits.
pub data Answer : Type 0 where
  -- nothing is awaited
  go : Answer
  -- of dialSSH, which calls the sinks any number of times before it returns
  host_unknown : Text → Text → Text → Answer
  needs_passphrase needs_password : Text → Answer
  dial_failed : Text → Answer
  dialed : ℕ → Answer
  -- of client.Listen
  listen_refused : Text → Answer
  listening : Answer
  -- the time when a session begins or ends
  at : ℕ → Answer
  -- of `select` in sleep: the timer, or the context
  timer cancelled_first : Answer

pub record Loop : Type 0 where
  pub id : ℕ
  pub remote : Bool
  pub cancelled : Bool
  pub attempt : ℤ
  pub pc : Pc

-- A fresh loop, as `go t.run(…)` and `go t.runRemote(…)` start it.
abbrev pub new_loop : ℕ → Bool → Loop
new_loop id remote = record {
  id = id;
  remote = remote;
  cancelled = false;
  attempt = pos 0;
  pc = head;
}

-- time.Since; of the zero time it is the longest duration.
abbrev pub since : ℕ → Option ℕ → ℤ
since now none = pos max_duration
since now (some t) = sub_ℕ now t

abbrev pub server_listen_failed : Text → Text → Text
server_listen_failed addr e =
    lit "listen "
    ++ (addr
        ++ (lit " on server: "
            ++ (e
                ++ lit
                    " (check AllowTcpForwarding on the server; for a non-loopback bind also GatewayPorts, in sshd_config)")))

-- attempt++ and the sleep after it
abbrev after_failure : Loop → Loop
after_failure l = record l {
  attempt = inc l.attempt;
  pc = sleeping_failed (next_backoff (inc l.attempt));
}

abbrev goes : Loop → Pc → Loop
goes l p = record l { pc = p }

-- One step at each place. An answer that does not fit the place changes nothing.
unfoldable pub step_at : Pc → Answer → Tuber → Loop → Tuber × Loop
step_at head go t l = (t, goes l (if l.cancelled then exited else entering))
step_at entering go t l = (set_state connecting t, goes l clearing_host)
step_at clearing_host go t l = (clear_pending_host t, goes l clearing_passphrase)
step_at clearing_passphrase go t l = (clear_pending_passphrase t, goes l clearing_password)
step_at clearing_password go t l = (clear_pending_password t, goes l dialing)
step_at dialing (host_unknown host fp line) t l = (record_unknown_host host fp line t, l)
step_at dialing (needs_passphrase path) t l = (passphrase_sink path t, l)
step_at dialing (needs_password account) t l = (password_sink account t, l)
step_at dialing (dial_failed msg) t l = (t, goes l (dropping_passphrase msg))
step_at dialing (dialed client) t l =
    (t, goes l (if l.remote then binding client else publishing client))
step_at (dropping_passphrase msg) go t l =
    (clear_pending_passphrase t, goes l (dropping_password msg))
step_at (dropping_password msg) go t l = (clear_pending_password t, goes l (failing msg))
step_at (failing msg) go t l = (set_state_err error msg t, after_failure l)
step_at (binding client) (listen_refused e) t l =
    (set_state_err error (server_listen_failed (remote_listen_addr t.cfg) e) t, after_failure l)
step_at (binding client) listening t l = (t, goes l (publishing client))
step_at (publishing client) (at now) t l = (
  notify_change
      (record t { client = some client; err_msg = []; connected_at = some now; state = connected }),
  goes l (serving client),
)
step_at (serving client) (at now) t l = (
  t,
  record l {
    attempt = next_attempt_after_disconnect (since now t.connected_at) l.attempt;
    pc = withdrawing;
  },
)
step_at withdrawing go t l = (record t { client = none }, goes l leaving)
step_at leaving go t l = (t, goes l (if l.cancelled then exited else disconnecting))
step_at disconnecting go t l =
    (set_state reconnecting t, goes l (sleeping_dropped (next_backoff l.attempt)))
step_at (sleeping_failed d) timer t l = (t, goes l resuming)
step_at (sleeping_failed d) cancelled_first t l = (t, if l.cancelled then goes l exited else l)
step_at resuming go t l = (set_state reconnecting t, goes l head)
step_at (sleeping_dropped d) timer t l = (t, goes l head)
step_at (sleeping_dropped d) cancelled_first t l = (t, if l.cancelled then goes l exited else l)
step_at _ _ t l = (t, l)

unfoldable pub step : Answer → Tuber → Loop → Tuber × Loop
unfolding step_at
step a t l = step_at l.pc a t l
