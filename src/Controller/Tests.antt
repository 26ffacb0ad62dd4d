-- ===== src/Controller/Tests.antt =====
-- The controller of the standalone program on a concrete file.
use portato.Prelude.{◌≡◌, refl, true, none, [], ◌∷◌, lit}
use portato.Config.Names.{valid}
use portato.Config.Document.Edited.{add}
use portato.Config.Document.Loaded.{load}
use portato.Config.Document.Fixtures.{yaml, env, db, web, file_of, print, defaults}
use portato.Config.Document.Tests.{
  file, logs, loaded_config, with_logs, file-Holds, file-loads, have_targets, logs-added,
  logs-reads,
}
use portato.Forward.Tuber.{ok}
use portato.Forward.Instance.{tuberer}
use portato.Forward.Engine.Listing.{new_engine-IsValid}
use portato.Log.Ring.{new_ring}
use portato.Secret.Memory.{memory}
use portato.Controller.State.{World}
use portato.Controller.Local.{Local, new_local, mutate}
use portato.Controller.Edits.{mutate-applies}

abbrev pub world : World tuberer memory
world = record {
  yaml = yaml;
  print_config = λ c. file_of c.tubers;
  env = env;
  ssh_error = none;
  nets = λ name. (ok (record { addr = lit "127.0.0.1:5432"; is_tcp = true }), 1);
  read_error = none;
  write_error = none;
  append_error = none;
}

abbrev local : Local tuberer memory
local = new_local tuberer memory loaded_config file (record { secrets = []; err = [] }) [] new_ring

mutate-applies_example :
    ((mutate tuberer memory world (add logs) local).1 ≡ none)
    × ((mutate tuberer memory world (add logs) local).0.core.cfg ≡ with_logs)
    × ((mutate tuberer memory world (add logs) local).0.core.engine.cfg ≡ with_logs)
    × (load yaml (valid env) (mutate tuberer memory world (add logs) local).0.core.file
        ≡ valid with_logs)
unfolding new_local
mutate-applies_example =
    mutate-applies tuberer memory world local defaults (db ∷ web ∷ []) with_logs (add (print logs))
      (add logs) refl refl refl (new_engine-IsValid tuberer loaded_config).0 file-Holds have_targets
      file-loads (refl, logs-reads) logs-added
