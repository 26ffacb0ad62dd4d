-- ===== src/Forward/Engine/Reloading.antt =====
-- internal/forward/engine.go: Reload.
use portato.Prelude.{◌+◌, ◌||◌, not, Option, none, some, [], ◌∷◌, Text, if◌then◌else◌}
use portato.Prelude.Maps.{Map, lookup, insert, map_values, select_keys, has_key, update_key}
use portato.Config.Types.{
  Config, Tuber as TuberConfig, Defaults, tuber_changed, same_strings, defaults_equal,
}
use portato.Forward.Tuberer.{Tuberer}
use portato.Forward.Engine.{Engine, Nets, by_name}

module _ (K : Tuberer) where
  open K use {T, Net}

  -- What Reload does with a tuber that was configured before.
  unfoldable pub changed : Defaults → Config → Net → TuberConfig → TuberConfig → T → T
  changed old_defaults cfg n old t tn =
      if tuber_changed old t || not (defaults_equal old_defaults cfg.defaults)
      then (K.reconfigure t cfg.defaults n tn).0
      else if not (same_strings old.tags t.tags)
      then K.update_metadata t cfg.defaults tn
      else tn

  -- And with one that is new.
  unfoldable pub added : Config → Net → TuberConfig → T
  added cfg n t = let tn = K.factory t cfg.defaults in if t.enabled then (K.start n tn).0 else tn

  -- One pass of the loop over newSet; `none` is the nil dereference of a tuber that was
  -- configured and is not there.
  unfoldable pub reload_one :
      Engine K → Config → Nets K → Text → TuberConfig → Map T → Option (Map T)
  unfolding changed added
  reload_one e cfg ns name t m = elim (lookup name e.configs) [
    | none ↦ some (insert name (added cfg (ns name) t) m)
    | some old ↦ elim (lookup name m) [
      | none ↦ none
      | some tn ↦ some (update_key name (λ _. changed e.defaults cfg (ns name) old t tn) m)
    ]
  ]

  unfoldable pub reload_each : Engine K → Config → Nets K → Map TuberConfig → Map T → Option (Map T)
  unfolding reload_one
  reload_each e cfg ns [] m = some m
  reload_each e cfg ns ((name, t) ∷ rest) m = elim (reload_one e cfg ns name t m) [
    | none ↦ none
    | some m' ↦ reload_each e cfg ns rest m'
  ]

  abbrev reloaded : Engine K → Config → Map TuberConfig → Map T → Engine K
  reloaded e cfg new_set tubers = record {
    cfg = cfg;
    defaults = cfg.defaults;
    tubers = tubers;
    configs = new_set;
    notified = e.notified + 1;
  }

  abbrev finish : Engine K → Config → Map TuberConfig → Option (Map T) → Option (Engine K)
  finish e cfg new_set none = none
  finish e cfg new_set (some tubers) = some (reloaded e cfg new_set tubers)

  -- Reload. The tubers whose names are gone are stopped and removed first.
  unfoldable pub reload : Config → Nets K → Engine K → Option (Engine K)
  unfolding by_name reload_each
  reload cfg ns e =
      let new_set = by_name cfg.tubers [] in
      let kept = select_keys (λ name. has_key name new_set) e.tubers in
      finish e cfg new_set (reload_each e cfg ns new_set kept)

  -- The tubers that Reload stops.
  unfoldable pub stopped_by_reload : Config → Engine K → Map T
  stopped_by_reload cfg e =
      map_values (λ name tn. K.stop tn)
        (select_keys (λ name. not (has_key name (by_name cfg.tubers []))) e.tubers)
