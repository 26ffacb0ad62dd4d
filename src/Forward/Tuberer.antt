-- ===== src/Forward/Tuberer.antt =====
-- The interface `tuberer` of internal/forward/engine.go, as the engine uses it. `Net` is what the
-- network answers to one call. The laws are those of *Tuber that the engine's results rest on.
use portato.Prelude.{◌≡◌, Option, Text}
use portato.Prelude.Int.{ℤ}
use portato.Config.Types.{Tuber as TuberConfig, Defaults}
use portato.Forward.State.{Status}
use portato.Forward.Tuber.{Listener, Result}

pub record Tuberer : Type 1 where
  pub T : Type 0
  pub Net : Type 0
  -- NewTuber with the engine's callbacks
  pub factory : TuberConfig → Defaults → T
  pub start : Net → T → T × Option Text
  pub start_with : Listener → Net → T → T × Option Text
  pub stop : T → T
  pub restart : Net → T → T × Option Text
  pub reconfigure : TuberConfig → Defaults → Net → T → T × Option Text
  pub update_metadata : TuberConfig → Defaults → T → T
  pub status : T → Status
  pub live_local_port : T → Option ℤ
  pub listener_file : T → Result Listener
  -- The configuration that a tuber has.
  pub config_of : T → TuberConfig
  pub config_of-factory : (c : TuberConfig) (d : Defaults) → config_of (factory c d) ≡ c
  pub config_of-start : (n : Net) (t : T) → config_of (start n t).0 ≡ config_of t
  pub config_of-stop : (t : T) → config_of (stop t) ≡ config_of t
  pub config_of-restart : (n : Net) (t : T) → config_of (restart n t).0 ≡ config_of t
  pub config_of-reconfigure :
      (c : TuberConfig) (d : Defaults) (n : Net) (t : T) → config_of (reconfigure c d n t).0 ≡ c
  pub config_of-update_metadata :
      (c : TuberConfig) (d : Defaults) (t : T) → config_of (update_metadata c d t) ≡ c
  pub name-status : (t : T) → (status t).name ≡ (config_of t).name
