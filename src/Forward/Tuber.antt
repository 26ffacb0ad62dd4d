-- ===== src/Forward/Tuber.antt =====
-- internal/forward/tuber.go: the fields of a tuber, and each method as the change that it makes to
-- them while it holds the mutex. What a method asks of the network is an argument; an SSH client
-- and a run loop are numbers, and the loop's cancel function and done channel are one `job`.
pub mod Views
pub mod Loop
pub mod System
pub mod Pending
pub mod Invariant
pub mod Ownership
pub mod Shutdown
pub mod StopInDial
pub mod Retry
use portato.Prelude.{
  ℕ, ◌+◌, ◌≡◌, Bool, true, false, ◌&&◌, ◌||◌, not, Option, none, some, List, [], ◌∷◌, ◌++◌, Text,
  lit, is_empty, text_eq, ◌==◌, if◌then◌else◌,
}
use portato.Prelude.Int.{ℤ, pos, eqb_ℤ}
use portato.Prelude.Decimal.{atoi}
use portato.Config.Types.{Tuber as TuberConfig, Defaults}
use portato.Config.Addr.{listen_addr, split_host_port}
use portato.Forward.State.{State, off, connecting, error, state_eq, Status}

-- A bound local listener: the address that it reports, and whether it is a *net.TCPListener.
pub record Listener : Type 0 where
  pub addr : Text
  pub is_tcp : Bool

-- A value, or the text of an error.
pub data Result {ℓ} (A : Type ℓ) : Type ℓ where
  ok : A → Result A
  err : Text → Result A

-- `notified` counts the calls of onChange.
pub record Tuber : Type 0 where
  pub cfg : TuberConfig
  pub defaults : Defaults
  pub state : State
  pub err_msg : Text
  pub connected_at : Option ℕ
  pub running : Bool
  pub listener : Option Listener
  pub client : Option ℕ
  pub job : Option ℕ
  pub pending_host : Text
  pub pending_fingerprint : Text
  pub pending_host_line : Text
  pub pending_passphrase : Text
  pub passphrase_attempts : ℕ
  pub pending_password : Text
  pub password_attempts : ℕ
  pub notified : ℕ

abbrev pub notify_change : Tuber → Tuber
notify_change t = record t { notified = t.notified + 1 }

unfoldable pub new_tuber : TuberConfig → Defaults → Tuber
new_tuber cfg def = record {
  cfg = cfg;
  defaults = def;
  state = off;
  err_msg = [];
  connected_at = none;
  running = false;
  listener = none;
  client = none;
  job = none;
  pending_host = [];
  pending_fingerprint = [];
  pending_host_line = [];
  pending_passphrase = [];
  passphrase_attempts = 0;
  pending_password = [];
  password_attempts = 0;
  notified = 0;
}

abbrev pub is_remote : TuberConfig → Bool
is_remote cfg = text_eq cfg.type (lit "remote")

abbrev pub listen_failed : Text → Text → Text
listen_failed addr e = lit "listen " ++ (addr ++ (lit ": " ++ e))

abbrev pub already_running : Text
already_running = lit "tuber already running"

-- The fields that a successful start sets, with the listener of a local or dynamic tuber.
abbrev pub started : Tuber → Option Listener → ℕ → Tuber
started t ln job =
    notify_change
      (record t { listener = ln; job = some job; running = true; state = connecting; err_msg = [] })

-- Start. `listened` is what net.Listen returns, `job` stands for the new context and channel. The
-- second part is the error.
unfoldable pub start : Result Listener → ℕ → Tuber → Tuber × Option Text
start listened job t =
    if t.running
    then (t, some already_running)
    else if is_remote t.cfg
    then (started t t.listener job, none)
    else elim listened [
      | ok ln ↦ (started t (some ln) job, none)
      | err e ↦ (
        notify_change (record t { state = error; err_msg = listen_failed (listen_addr t.cfg) e }),
        some (listen_failed (listen_addr t.cfg) e),
      )
    ]

unfoldable pub start_with : Listener → ℕ → Tuber → Tuber × Option Text
start_with ln job t =
    if t.running
    then (t, some already_running)
    else if is_remote t.cfg
    then (
      t,
      some
          (lit "StartWith: " ++ (t.cfg.name ++ lit " is type=remote (no local listener to adopt)")),
    )
    else (started t (some ln) job, none)

abbrev pub nonzero : ℕ → Bool
nonzero n = not (n == 0)

-- clearPendingLocked: what it returns, and the fields that it resets.
abbrev pub has_pending : Tuber → Bool
has_pending t =
    not (is_empty t.pending_host)
    || not (is_empty t.pending_fingerprint)
    || not (is_empty t.pending_host_line)
    || not (is_empty t.pending_passphrase)
    || not (is_empty t.pending_password)
    || nonzero t.passphrase_attempts
    || nonzero t.password_attempts

abbrev pub without_pending : Tuber → Tuber
without_pending t = record t {
  pending_host = [];
  pending_fingerprint = [];
  pending_host_line = [];
  pending_passphrase = [];
  passphrase_attempts = 0;
  pending_password = [];
  password_attempts = 0;
}

unfoldable pub clear_pending_locked : Tuber → Tuber × Bool
clear_pending_locked t = (without_pending t, has_pending t)

abbrev pub is_dirty : Tuber → Bool
is_dirty t = not (state_eq t.state off) || not (is_empty t.err_msg)

abbrev pub folded_off : Tuber → Tuber
folded_off t = record t { state = off; err_msg = []; connected_at = none }

abbrev notify_if : Bool → Tuber → Tuber
notify_if changed t = if changed then notify_change t else t

-- What Stop takes out of the tuber, to cancel, close and wait for after it has let the mutex go.
pub record Handles : Type 0 where
  pub listener : Option Listener
  pub job : Option ℕ
  pub client : Option ℕ

abbrev pub no_handles : Handles
no_handles = record { listener = none; job = none; client = none }

-- The part of Stop under the mutex. `||` calls clearPendingLocked only if what stands before it
-- is false.
unfoldable pub stop : Tuber → Tuber × Handles
unfolding clear_pending_locked
stop t =
    if not t.running
    then (
      (if is_dirty t
          then notify_if true (folded_off t)
          else let (t', changed) = clear_pending_locked t in notify_if changed (folded_off t')),
      no_handles,
    )
    else (
      notify_change (record (without_pending (folded_off t)) {
        running = false;
        listener = none;
        client = none;
        job = none;
      }),
      record { listener = t.listener; job = t.job; client = t.client },
    )

-- Restart, when nothing else happens between its two parts.
unfoldable pub restart : Result Listener → ℕ → Tuber → Tuber × Option Text
unfolding stop start
restart listened job t = start listened job (stop t).0

-- The part of Reconfigure under the mutex, and whether a Restart follows.
unfoldable pub reconfigure_locked : TuberConfig → Defaults → Tuber → Tuber × Bool
unfolding clear_pending_locked
reconfigure_locked cfg def t0 =
    let t = record t0 { cfg = cfg; defaults = def } in
    if t0.running
    then (t, true)
    else let (t', pc) = clear_pending_locked t in
      if is_dirty t' || pc then (notify_change (folded_off t'), false) else (t', false)

unfoldable pub reconfigure :
    TuberConfig → Defaults → Result Listener → ℕ → Tuber → Tuber × Option Text
unfolding reconfigure_locked restart
reconfigure cfg def listened job t0 =
    let (t, running) = reconfigure_locked cfg def t0 in
    if running then restart listened job t else (t, none)

unfoldable pub update_metadata : TuberConfig → Defaults → Tuber → Tuber
update_metadata cfg def t = notify_change (record t { cfg = cfg; defaults = def })
