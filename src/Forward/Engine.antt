-- ===== src/Forward/Engine.antt =====
-- internal/forward/engine.go: the engine over the tubers of a configuration. The methods run under
-- the engine's mutex or on a snapshot taken under it; a map's order of iteration is the order of
-- its entries, and the theorems speak of the entries of each name.
pub mod Broker
pub mod Calls
pub mod Preflight
pub mod Starts
pub mod Reloading
pub mod Reload
pub mod Listing
mod Tests
use portato.Prelude.{
  ℕ, ◌+◌, ◌≡◌, Bool, true, false, ◌&&◌, ◌||◌, not, Option, none, some, List, [], ◌∷◌, ◌++◌, map,
  select, Text, lit, text_eq, if◌then◌else◌,
}
use portato.Prelude.Maps.{
  Map, lookup, insert, without, map_values, select_keys, has_key, is_some, update_key,
}
use portato.Prelude.Int.{ℤ, pos, eqb_ℤ}
use portato.Config.Types.{
  Config, Tuber as TuberConfig, Defaults, tuber_changed, same_strings, defaults_equal,
}
use portato.Config.Ports.{local_port}
use portato.Forward.State.{Status}
use portato.Forward.Tuber.{Listener, Result, ok, err, is_remote}
use portato.Forward.Tuberer.{Tuberer}

pub data EngineError : Type 0 where
  unknown_tuber : Text → EngineError
  port_in_use : ℤ → Text → EngineError
  -- an error of the tuber itself
  of_tuber : Text → EngineError
  -- of LiveListenerFiles
  listener_error : Text → Text → EngineError

abbrev pub lift_error : Option Text → Option EngineError
lift_error none = none
lift_error (some e) = some (of_tuber e)

abbrev pub has_name : Text → List TuberConfig → Bool
has_name name [] = false
has_name name (t ∷ rest) = text_eq t.name name || has_name name rest

-- newSet of Reload: the last tuber of a name wins.
unfoldable pub by_name : List TuberConfig → Map TuberConfig → Map TuberConfig
by_name [] m = m
by_name (t ∷ rest) m = by_name rest (insert t.name t m)

module _ (K : Tuberer) where
  open K use {T, Net}

  pub record Engine : Type 0 where
    pub cfg : Config
    pub defaults : Defaults
    pub tubers : Map T
    pub configs : Map TuberConfig
    pub notified : ℕ

  -- What the network answers to the calls on each tuber.
  abbrev pub Nets : Type 0
  Nets = Text → Net

  unfoldable pub add_missing :
      Defaults → Map T × Map TuberConfig → TuberConfig → Map T × Map TuberConfig
  add_missing d (tubers, configs) t =
      if has_key t.name tubers
      then (tubers, configs)
      else (insert t.name (K.factory t d) tubers, insert t.name t configs)

  -- The loop of buildAll.
  unfoldable pub build_from :
      Defaults → List TuberConfig → Map T × Map TuberConfig → Map T × Map TuberConfig
  unfolding add_missing
  build_from d [] m = m
  build_from d (t ∷ rest) m = build_from d rest (add_missing d m t)

  -- NewEngine, with buildAll
  unfoldable pub new_engine : Config → Engine
  unfolding build_from
  new_engine cfg =
      let (tubers, configs) = build_from cfg.defaults cfg.tubers ([], []) in
      record {
        cfg = cfg;
        defaults = cfg.defaults;
        tubers = tubers;
        configs = configs;
        notified = 0;
      }

  -- The first other tuber whose live listener has the port.
  unfoldable pub port_holder : ℤ → Text → Map T → Option Text
  port_holder port name [] = none
  port_holder port name ((other, tn) ∷ rest) =
      let later = port_holder port name rest in
      if text_eq other name then later else elim (K.live_local_port tn) [
        | none ↦ later
        | some live ↦ if eqb_ℤ live port then some other else later
      ]

  abbrev conflict : ℤ → Option Text → Option EngineError
  conflict port none = none
  conflict port (some other) = some (port_in_use port other)

  abbrev check_port : Text → Map T → Option ℤ → Option EngineError
  check_port name tubers none = none
  check_port name tubers (some port) =
      if eqb_ℤ port (pos 0) then none else conflict port (port_holder port name tubers)

  unfoldable pub preflight_local_port : Engine → Text → Option EngineError
  preflight_local_port e name = elim (lookup name e.configs) [
    | none ↦ none
    | some cfg ↦ if is_remote cfg then none else check_port name e.tubers (local_port cfg.local)
  ]

  -- A call on one tuber that is there; the engine's maps keep their other entries.
  abbrev pub call : Engine → Text → T × Option Text → Engine × Option EngineError
  call e name (tn, error) =
      (record e { tubers = update_key name (λ _. tn) e.tubers }, lift_error error)

  unfoldable pub enable : Net → Text → Engine → Engine × Option EngineError
  unfolding preflight_local_port
  enable n name e = elim (lookup name e.tubers) [
    | none ↦ (e, some (unknown_tuber name))
    | some tn ↦ elim (preflight_local_port e name) [
      | some error ↦ (e, some error)
      | none ↦ call e name (K.start n tn)
    ]
  ]

  unfoldable pub disable : Text → Engine → Engine × Option EngineError
  disable name e = elim (lookup name e.tubers) [
    | none ↦ (e, some (unknown_tuber name))
    | some tn ↦ call e name (K.stop tn, none)
  ]

  unfoldable pub restart : Net → Text → Engine → Engine × Option EngineError
  restart n name e = elim (lookup name e.tubers) [
    | none ↦ (e, some (unknown_tuber name))
    | some tn ↦ call e name (K.restart n tn)
  ]

  unfoldable pub up_all : Nets → Engine → Engine
  up_all ns e = record e { tubers = map_values (λ name tn. (K.start (ns name) tn).0) e.tubers }

  -- DownAll, and StopAll
  unfoldable pub down_all : Engine → Engine
  down_all e = record e { tubers = map_values (λ name tn. K.stop tn) e.tubers }

  abbrev cons_status : Option T → List Status → List Status
  cons_status none out = out
  cons_status (some tn) out = K.status tn ∷ out

  unfoldable pub list_configured : List TuberConfig → Map T → List Status
  list_configured [] m = []
  list_configured (t ∷ rest) m = cons_status (lookup t.name m) (list_configured rest m)

  unfoldable pub list_others : List TuberConfig → Map T → List Status
  list_others ts [] = []
  list_others ts ((name, tn) ∷ m) =
      let rest = list_others ts m in if has_name name ts then rest else K.status tn ∷ rest

  unfoldable pub list : Engine → List Status
  unfolding list_configured list_others
  list e = list_configured e.cfg.tubers e.tubers ++ list_others e.cfg.tubers e.tubers
