-- ===== src/Forward/Engine/Starts.antt =====
-- internal/forward/engine.go: StartEnabled and StartEnabledWith, and LiveListenerFiles, which makes
-- the listeners that a StartEnabledWith adopts.
use portato.Prelude.{
  Bool, true, false, ◌&&◌, ◌||◌, not, Option, none, some, List, [], ◌∷◌, Text, text_eq,
  if◌then◌else◌,
}
use portato.Prelude.Maps.{Map, lookup, insert, select_keys, has_key, update_key}
use portato.Config.Types.{Tuber as TuberConfig}
use portato.Forward.Tuber.{Listener, ok, err}
use portato.Forward.Tuberer.{Tuberer}
use portato.Forward.Engine.{Engine, Nets, EngineError, listener_error}

module _ (K : Tuberer) where
  open K use {T, Net}

  -- The jobs of StartEnabled, in the order of the configuration. A tuber that is not in the map
  -- is passed over.
  unfoldable pub start_each : Nets K → List TuberConfig → Map T → Map T
  start_each ns [] m = m
  start_each ns (t ∷ rest) m =
      start_each ns rest
        (if t.enabled then update_key t.name (λ tn. (K.start (ns t.name) tn).0) m else m)

  unfoldable pub start_enabled : Nets K → Engine K → Engine K
  unfolding start_each
  start_enabled ns e = record e { tubers = start_each ns e.cfg.tubers e.tubers }

  abbrev is_none : Option Text → Bool
  is_none none = true
  is_none (some x) = false

  -- One job of StartEnabledWith: an adopted listener that is rejected falls back to a bind.
  unfoldable pub adopt : Net → Option Listener → T → T
  adopt n none tn = (K.start n tn).0
  adopt n (some ln) tn =
      let (tn', error) = K.start_with ln n tn in if is_none error then tn' else (K.start n tn').0

  unfoldable pub adopt_each : Nets K → Map Listener → List TuberConfig → Map T → Map T
  unfolding adopt
  adopt_each ns adopted [] m = m
  adopt_each ns adopted (t ∷ rest) m =
      adopt_each ns adopted rest
        (if t.enabled then update_key t.name (adopt (ns t.name) (lookup t.name adopted)) m else m)

  -- `used`: whether an enabled tuber of this name takes the listener.
  abbrev pub is_used : List TuberConfig → Map T → Text → Bool
  is_used [] m name = false
  is_used (t ∷ rest) m name =
      (t.enabled && has_key t.name m && text_eq t.name name) || is_used rest m name

  -- StartEnabledWith, and the adopted listeners that it closes.
  unfoldable pub start_enabled_with : Nets K → Map Listener → Engine K → Engine K × Map Listener
  unfolding adopt_each
  start_enabled_with ns adopted e = (
    record e { tubers = adopt_each ns adopted e.cfg.tubers e.tubers },
    select_keys (λ name. not (is_used e.cfg.tubers e.tubers name)) adopted,
  )

  -- LiveListenerFiles: the listeners of the running tubers, or the first hard error.
  unfoldable pub live_listener_files :
      List TuberConfig → Map T → Map Listener → Option EngineError × Map Listener
  live_listener_files [] m out = (none, out)
  live_listener_files (t ∷ rest) m out =
      let skipped = live_listener_files rest m out in
      elim (lookup t.name m) [
        | none ↦ skipped
        | some tn ↦ elim (K.listener_file tn) [
          | ok ln ↦ live_listener_files rest m (insert t.name ln out)
          | err [] ↦ skipped
          | err (c ∷ msg) ↦ (some (listener_error t.name (c ∷ msg)), [])
        ]
      ]
