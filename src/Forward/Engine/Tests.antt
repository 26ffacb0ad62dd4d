-- ===== src/Forward/Engine/Tests.antt =====
-- The results on the engine at concrete inputs, over the tubers of tuber.go.
use portato.Prelude.{
  ◌≡◌, ◌≤◌, ◌⊎◌, refl, true, some, [], ◌∷◌, map, get_elem?, Text, lit, text_eq, trim_space,
  trim_left, trim_right, is_space, split_last,
}
use portato.Prelude.Int.{pos}
use portato.Prelude.Maps.{lookup}
use portato.Prelude.Decimal.{atoi, digits_value}
use portato.Config.Ports.{local_port}
use portato.Forward.Fixtures.{defaults, db, web, config, edited}
use portato.Forward.Tuber.{Tuber, Listener, ok, new_tuber}
use portato.Forward.Instance.{tuberer}
use portato.Forward.Engine.{Engine, Nets, new_engine, list, enable, call, port_in_use}
use portato.Forward.Engine.Reloading.{reload}
use portato.Forward.Engine.Reload.{IsValid}
use portato.Forward.Engine.Reload.Outcomes.{IsReloaded, reload_lem}
use portato.Forward.Engine.Reload.Names.{last_named}
use portato.Forward.Engine.Listing.{new_engine-IsValid}
use portato.Forward.Engine.Preflight.{IsFree, Holder, enable-port}
use portato.Forward.Engine.Broker.{Channel, notifies, receives, subscribes, notify, run}
use portato.Forward.Engine.Broker.Delivery.{run-notify}

abbrev listener : Listener
listener = record { addr = lit "127.0.0.1:5432"; is_tcp = true }

abbrev nets : Nets tuberer
nets name = (ok listener, 1)

abbrev engine : Engine tuberer
engine = new_engine tuberer config

reload_lem_example :
    (e' : Engine tuberer) × (reload tuberer edited nets engine ≡ some e')
    × ((name : Text)
        → IsReloaded tuberer engine.defaults edited.defaults
            (nets name)
            (last_named name edited.tubers)
            (lookup name engine.configs)
            (lookup name engine.tubers)
            (lookup name e'.tubers))
    × ((name : Text) → lookup name e'.configs ≡ last_named name edited.tubers)
    × IsValid tuberer e'
    × (e'.cfg ≡ edited)
reload_lem_example = reload_lem tuberer engine edited nets (new_engine-IsValid tuberer config).0

new_engine-IsValid_example :
    IsValid tuberer engine × (map (λ s. s.name) (list tuberer engine) ≡ lit "db" ∷ lit "web" ∷ [])
new_engine-IsValid_example = new_engine-IsValid tuberer config

-- The tuber `db` serves on port 8080, the one that `web` has in its configuration.
abbrev serving_db : Tuber
serving_db = record (new_tuber db defaults) {
  running = true;
  listener = some (record { addr = lit "127.0.0.1:8080"; is_tcp = true });
  job = some 0;
}

abbrev conflicting : Engine tuberer
conflicting = record {
  cfg = config;
  defaults = defaults;
  tubers = (lit "db", serving_db) ∷ (lit "web", new_tuber web defaults) ∷ [];
  configs = (lit "db", db) ∷ (lit "web", web) ∷ [];
  notified = 0;
}

enable-port_example :
    (IsFree tuberer (pos 8080) (lit "web") conflicting.tubers
      × (enable tuberer (ok listener, 1) (lit "web") conflicting
          ≡ call tuberer conflicting
              (lit "web")
              (tuberer.start (ok listener, 1) (new_tuber web defaults))))
    ⊎ ((other : Text) × Holder tuberer (pos 8080) (lit "web") conflicting.tubers other
        × (enable tuberer (ok listener, 1) (lit "web") conflicting
            ≡ (conflicting, some (port_in_use (pos 8080) other))))
unfolding lookup text_eq local_port trim_space trim_left trim_right is_space split_last atoi
    digits_value
enable-port_example =
    enable-port tuberer conflicting (ok listener, 1) (lit "web") (new_tuber web defaults) web
      (pos 8080) (refl, (refl, tt)) refl refl refl refl cc

abbrev full : Channel
full = record { queued = 16; subscribed = true }

run-notify_example :
    (d : Channel) × (get_elem?
        (run (subscribes ∷ notifies ∷ receives 1 ∷ []) (notify (full ∷ [])))
        0
      ≡ some d)
    × (1 ≤ d.queued)
run-notify_example =
    run-notify (full ∷ []) (subscribes ∷ notifies ∷ receives 1 ∷ []) 0 full refl refl refl
