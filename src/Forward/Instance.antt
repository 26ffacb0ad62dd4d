-- ===== src/Forward/Instance.antt =====
-- The tubers of internal/forward/tuber.go as the tuberers of the engine.
use portato.Prelude.{ℕ, ◌≡◌, refl, arith}
use portato.Config.Types.{Tuber as TuberConfig, Defaults}
use portato.Forward.Tuber.{
  Tuber, Listener, Result, new_tuber, start, start_with, stop, restart, reconfigure,
  reconfigure_locked, clear_pending_locked, update_metadata,
}
use portato.Forward.Tuber.Views.{status, live_local_port, listener_file}
use portato.Forward.Tuberer.{Tuberer}

-- The answer of net.Listen, and the number of the run loop that the call may start.
abbrev pub Net : Type 0
Net = Result Listener × ℕ

pub cfg-start : (r : Result Listener) (j : ℕ) (t : Tuber) → (start r j t).0.cfg ≡ t.cfg
unfolding start
cfg-start r j t = ground arith

pub cfg-stop : (t : Tuber) → (stop t).0.cfg ≡ t.cfg
unfolding stop clear_pending_locked
cfg-stop t = ground arith

pub cfg-restart : (r : Result Listener) (j : ℕ) (t : Tuber) → (restart r j t).0.cfg ≡ t.cfg
unfolding restart stop start clear_pending_locked
cfg-restart r j t = ground arith

pub cfg-reconfigure :
    (c : TuberConfig) (d : Defaults) (r : Result Listener) (j : ℕ) (t : Tuber)
    → (reconfigure c d r j t).0.cfg ≡ c
unfolding reconfigure reconfigure_locked restart stop start clear_pending_locked
cfg-reconfigure c d r j t = ground arith

pub cfg-update_metadata :
    (c : TuberConfig) (d : Defaults) (t : Tuber) → (update_metadata c d t).cfg ≡ c
unfolding update_metadata
cfg-update_metadata c d t = refl

pub name-status : (t : Tuber) → (status t).name ≡ t.cfg.name
unfolding status
name-status t = refl

pub cfg-new_tuber : (c : TuberConfig) (d : Defaults) → (new_tuber c d).cfg ≡ c
unfolding new_tuber
cfg-new_tuber c d = refl

-- The factory of NewEngine, with NewTuber.
abbrev pub tuberer : Tuberer
tuberer = record {
  T = Tuber;
  Net = Net;
  factory = new_tuber;
  start = λ n t. start n.0 n.1 t;
  start_with = λ ln n t. start_with ln n.1 t;
  stop = λ t. (stop t).0;
  restart = λ n t. restart n.0 n.1 t;
  reconfigure = λ c d n t. reconfigure c d n.0 n.1 t;
  update_metadata = update_metadata;
  status = status;
  live_local_port = live_local_port;
  listener_file = listener_file;
  config_of = λ t. t.cfg;
  config_of-factory = cfg-new_tuber;
  config_of-start = λ n t. cfg-start n.0 n.1 t;
  config_of-stop = cfg-stop;
  config_of-restart = λ n t. cfg-restart n.0 n.1 t;
  config_of-reconfigure = λ c d n t. cfg-reconfigure c d n.0 n.1 t;
  config_of-update_metadata = cfg-update_metadata;
  name-status = name-status;
}
