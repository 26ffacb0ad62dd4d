-- ===== src/Controller/Local.antt =====
-- internal/controller/local.go: the controller of the standalone program. Its stores ask the
-- configuration that NewLocal was given whether to persist, so that one is kept beside the state.
use portato.Prelude.{true, false, Option, none, some, List, Text, is_empty, if◌then◌else◌}
use portato.Config.Types.{Config, Tuber, Defaults}
use portato.Config.Names.{Checked, valid, failed}
use portato.Config.Document.{Node}
use portato.Config.Document.Edited.{Change}
use portato.Config.Document.Refines.{with_change}
use portato.Forward.State.{Status}
use portato.Forward.Tuberer.{Tuberer}
use portato.Forward.Engine.{new_engine, list}
use portato.Forward.Engine.Starts.{start_enabled}
use portato.Log.Ring.{Ring, Entry, lines}
use portato.Secret.Store.{Backend, new_store}
use portato.Controller.Accounts.{pending_host_line, identity_path_for, account_key_for}
use portato.Controller.State.{
  Core, World, Outcome, Failure, of_config, no_pending_host, no_store, no_account, loaded,
  apply_reload, patch_file, save_config, enabled_in, then_do, enable_in, disable_in, restart_in,
  append_host, set_secret, set_password,
}

module _ (K : Tuberer) (B : Backend) where
  pub record Local : Type 0 where
    pub core : Core K B
    pub initial : Defaults
    pub ring : Ring

  abbrev pub Done : Type 0
  Done = Local × Option Failure

  abbrev pub on_core : Local → Outcome K B → Done
  on_core l (s, e) = (record l { core = s }, e)

  -- NewLocal, on the file and the keyring that are there
  unfoldable pub new_local : Config → Node → B.Keyring → List Text → Ring → Local
  new_local cfg file keyring known_hosts ring = record {
    core = record {
      engine = new_engine K cfg;
      cfg = cfg;
      file = file;
      secrets = some new_store;
      passwords = some new_store;
      keyring = keyring;
      known_hosts = known_hosts;
    };
    initial = cfg.defaults;
    ring = ring;
  }

  abbrev pub statuses : Local → List Status
  statuses l = list K l.core.engine

  unfoldable pub start_enabled_tubers : World K B → Local → Local
  unfolding start_enabled
  start_enabled_tubers w l = record l {
    core = record l.core { engine = start_enabled K w.nets l.core.engine };
  }

  -- Enable and Disable: the engine, then the flag, then the file.
  unfoldable pub enable : World K B → Text → Local → Done
  unfolding enable_in enabled_in save_config
  enable w name l = on_core l (
      then_do K B (enable_in K B w name l.core)
        (λ s. save_config K B w (enabled_in K B name true s)))

  unfoldable pub disable : World K B → Text → Local → Done
  unfolding disable_in enabled_in save_config
  disable w name l = on_core l (
      then_do K B (disable_in K B name l.core)
        (λ s. save_config K B w (enabled_in K B name false s)))

  unfoldable pub restart : World K B → Text → Local → Done
  unfolding restart_in
  restart w name l = on_core l (restart_in K B w name l.core)

  unfoldable pub reload : World K B → Local → Done
  unfolding apply_reload
  reload w l = on_core l (apply_reload K B w l.core)

  abbrev pub patched : World K B → Local → Checked (Core K B) → Done
  patched w l (failed e) = (l, some (of_config e))
  patched w l (valid s) = on_core l (apply_reload K B w s)

  abbrev pub changed : World K B → Change Tuber → Local → Checked Config → Done
  changed w c l (failed e) = (l, some (of_config e))
  changed w c l (valid d) = patched w l (patch_file K B w c l.core)

  -- AddTuber, UpdateTuber, DeleteTuber and MoveTuber: the copy in memory, the file, the reload.
  unfoldable pub mutate : World K B → Change Tuber → Local → Done
  unfolding patch_file apply_reload
  mutate w c l = changed w c l (with_change (loaded K B w) c l.core.cfg)

  unfoldable pub logs : Text → Local → List Entry
  logs name l = lines l.ring name

  unfoldable pub accept_host : World K B → Text → Local → Done
  unfolding append_host restart_in
  accept_host w name l =
      let line = pending_host_line (statuses l) name in
      if is_empty line
      then (l, some (no_pending_host name))
      else on_core l (then_do K B (append_host K B w line l.core) (λ s. restart_in K B w name s))

  unfoldable pub accept_passphrase : World K B → Text → Text → Local → Done
  unfolding identity_path_for set_secret
  accept_passphrase w name v l = elim l.core.secrets [
    | none ↦ (l, some no_store)
    | some st ↦
        let path = identity_path_for w.env.expand_tilde (statuses l) l.core.cfg name in
        if is_empty path
        then (l, some (no_account name))
        else on_core l (set_secret K B l.initial.identity_passphrase_store path v st l.core)
  ]

  unfoldable pub accept_password : Text → Text → Local → Done
  unfolding account_key_for set_password
  accept_password name v l = elim l.core.passwords [
    | none ↦ (l, some no_store)
    | some st ↦
        let key = account_key_for (statuses l) l.core.cfg name in
        if is_empty key
        then (l, some (no_account name))
        else on_core l (set_password K B l.initial.ssh_password_store key v st l.core)
  ]
