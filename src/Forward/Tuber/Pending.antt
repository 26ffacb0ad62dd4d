-- ===== src/Forward/Tuber/Pending.antt =====
-- What Stop, Reconfigure and Restart leave of a tuber that is not running, on every branch.
use portato.Prelude.{◌+◌, ◌≡◌, true, false, none, [], arith, if◌then◌else◌}
use portato.Config.Types.{Tuber as TuberConfig, Defaults}
use portato.Forward.State.{off}
use portato.Forward.Tuber.{Tuber, stop, reconfigure_locked, has_pending, is_dirty, no_handles}

-- No prompt is left on the tuber.
abbrev pub IsQuiet : Tuber → Type 0
IsQuiet t = has_pending t ≡ false

-- Stop of a running tuber leaves it off with no prompt, no listener, client or job, hands all
-- three over, and notifies once.
pub stop_running :
    (t : Tuber)
    → t.running ≡ true
    → let (u, h) = stop t in
      (u.state ≡ off)
      × (u.err_msg ≡ [])
      × (u.connected_at ≡ none)
      × (u.running ≡ false)
      × IsQuiet u
      × (u.listener ≡ none)
      × (u.client ≡ none)
      × (u.job ≡ none)
      × (h.listener ≡ t.listener)
      × (h.client ≡ t.client)
      × (h.job ≡ t.job)
      × (u.notified ≡ t.notified + 1)
unfolding stop
stop_running t h = ground arith

-- Stop of a tuber that is not running always leaves it off with no error, but it drops the
-- prompts only if the tuber was off with no error before: after a failure they all stay.
pub stop_not_running :
    (t : Tuber)
    → t.running ≡ false
    → let (u, h) = stop t in
      (u.state ≡ off)
      × (u.err_msg ≡ [])
      × (u.connected_at ≡ none)
      × (has_pending u ≡ (if is_dirty t then has_pending t else false))
      × (h ≡ no_handles)
      × (u.notified ≡ (
          if is_dirty t
          then t.notified + 1
          else if has_pending t
          then t.notified + 1
          else t.notified))
unfolding stop
stop_not_running t h = ground arith

-- Reconfigure of a tuber that is not running leaves it off with no error and no prompt in any case,
-- with the new configuration and defaults, and asks for no restart.
pub reconfigure_locked-IsQuiet :
    (cfg : TuberConfig) (def : Defaults) (t : Tuber)
    → t.running ≡ false
    → let (u, restarts) = reconfigure_locked cfg def t in
      (u.state ≡ off)
      × (u.err_msg ≡ [])
      × IsQuiet u
      × (restarts ≡ false)
      × (u.cfg ≡ cfg)
      × (u.defaults ≡ def)
unfolding reconfigure_locked
reconfigure_locked-IsQuiet cfg def t h = ground arith
