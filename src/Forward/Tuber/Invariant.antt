-- ===== src/Forward/Tuber/Invariant.antt =====
-- Which fields of a tuber belong together: internal/forward/tuber.go.
use portato.Prelude.{ℕ, ◌≡◌, Bool, true, false, Option, none, some, [], arith}
use portato.Config.Types.{Tuber as TuberConfig, Defaults}
use portato.Forward.State.{off, connected}
use portato.Forward.Tuber.{
  Tuber, Result, Listener, start, start_with, stop, reconfigure_locked, update_metadata,
}
use portato.Forward.Tuber.Loop.{
  Loop, Answer, Pc, head, step, step_at, passphrase_sink, password_sink, record_unknown_host,
  clear_pending_host, clear_pending_passphrase, clear_pending_password,
}

abbrev pub is_some : Option ℕ → Bool
is_some none = false
is_some (some n) = true

-- The fields that a reader of the tuber may rely on together.
pub record IsConsistent (t : Tuber) : Type 0 where
  pub job_running : is_some t.job ≡ t.running
  pub stopped_unbound : t.running ≡ false → t.listener ≡ none
  pub off_clean : t.state ≡ off → (t.err_msg ≡ []) × (t.connected_at ≡ none)
  pub connected_clean : t.state ≡ connected → (t.err_msg ≡ []) × (is_some t.connected_at ≡ true)

pub start-IsConsistent :
    (r : Result Listener) (job : ℕ) (t : Tuber) → IsConsistent t → IsConsistent (start r job t).0
unfolding start
start-IsConsistent r job t v = ground arith

pub start_with-IsConsistent :
    (ln : Listener) (job : ℕ) (t : Tuber) → IsConsistent t → IsConsistent (start_with ln job t).0
unfolding start_with
start_with-IsConsistent ln job t v = ground arith

pub stop-IsConsistent : (t : Tuber) → IsConsistent t → IsConsistent (stop t).0
unfolding stop
stop-IsConsistent t v = ground arith

pub reconfigure_locked-IsConsistent :
    (cfg : TuberConfig) (def : Defaults) (t : Tuber)
    → IsConsistent t
    → IsConsistent (reconfigure_locked cfg def t).0
unfolding reconfigure_locked
reconfigure_locked-IsConsistent cfg def t v = ground arith

pub update_metadata-IsConsistent :
    (cfg : TuberConfig) (def : Defaults) (t : Tuber)
    → IsConsistent t
    → IsConsistent (update_metadata cfg def t)
unfolding update_metadata
update_metadata-IsConsistent cfg def t v = ground arith

step_at-IsConsistent :
    (p : Pc) (a : Answer) (t : Tuber) (l : Loop) → IsConsistent t → IsConsistent (step_at p a t l).0
unfolding step_at passphrase_sink password_sink record_unknown_host clear_pending_host
    clear_pending_passphrase clear_pending_password
step_at-IsConsistent head a t l v = ground arith
step_at-IsConsistent _ a t l v = ground arith

pub step-IsConsistent :
    (a : Answer) (t : Tuber) (l : Loop) → IsConsistent t → IsConsistent (step a t l).0
unfolding step
step-IsConsistent a t l v = step_at-IsConsistent l.pc a t l v
