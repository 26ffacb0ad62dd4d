-- ===== src/Daemon/Tests.antt =====
-- The daemon's server on a concrete configuration and requests.
use portato.Prelude.{◌≡◌, true, none, some, List, [], ◌∷◌, all, Text, lit, ◌⊎◌, ◌<◌, ◌≤◌}
use portato.Config.Document.Tests.{file, loaded_config}
use portato.Forward.Instance.{tuberer}
use portato.Forward.Engine.{new_engine}
use portato.Forward.Engine.Reload.{IsValid}
use portato.Forward.Engine.Listing.{new_engine-IsValid}
use portato.Log.Ring.{new_ring}
use portato.Secret.Store.{new_store}
use portato.Secret.Memory.{memory}
use portato.Controller.State.{World}
use portato.Controller.Tests.{world}
use portato.Daemon.Server.{
  Server, Request, post_reload, post_enable, post_disable, delete_tuber, move_tuber, serve, refuse,
  code,
}
use portato.Daemon.Server.Guards.{HasToken, serve-client_error}
use portato.Daemon.Server.Requests.{serve_all, serve_all-IsServed}

abbrev server : Server tuberer memory
server = record {
  core = record {
    engine = new_engine tuberer loaded_config;
    cfg = loaded_config;
    file = file;
    secrets = some new_store;
    passwords = none;
    keyring = record { secrets = []; err = [] };
    known_hosts = [];
  };
  logs = new_ring;
  token = lit "secret";
  version = lit "dev";
}

serve-client_error_example :
    (HasToken tuberer memory server (lit "Bearer guess")
      ⊎ (serve tuberer memory world (lit "Bearer guess") (delete_tuber (lit "gone")) server
          ≡ refuse tuberer memory server 401 (lit "unauthorized")))
    × ((code (serve tuberer memory world (lit "Bearer guess") (delete_tuber (lit "gone")) server).1
          < 400)
        ⊎ ((500
              ≤ code
                  (serve tuberer memory world
                    (lit "Bearer guess")
                    (delete_tuber (lit "gone"))
                    server).1)
            ⊎ ((serve tuberer memory world
                  (lit "Bearer guess")
                  (delete_tuber (lit "gone"))
                  server).0
                ≡ server)))
serve-client_error_example =
    serve-client_error tuberer memory world (lit "Bearer guess") (delete_tuber (lit "gone")) server

abbrev requests : List (World tuberer memory × Text × Request)
requests =
    (world, lit "Bearer secret", post_enable (lit "db"))
    ∷ (world, lit "", post_reload)
    ∷ (world, lit "Bearer secret", move_tuber (lit "db") (lit "1"))
    ∷ (world, lit "Bearer secret", post_disable (lit "db"))
    ∷ []

serve_all-IsServed_example :
    IsValid tuberer (serve_all tuberer memory requests server).0.core.engine
    × (all (λ b. b) (serve_all tuberer memory requests server).1 ≡ true)
serve_all-IsServed_example =
    serve_all-IsServed tuberer memory requests server (new_engine-IsValid tuberer loaded_config).0
