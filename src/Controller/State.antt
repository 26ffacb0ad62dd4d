-- ===== src/Controller/State.antt =====
-- What the controller of internal/controller/local.go and the server of internal/daemon/server.go
-- both keep (the engine, the configuration in memory, its file, the stores of secrets, the
-- known-hosts file), and the steps that both take on it.
use portato.Prelude.{Bool, Option, none, some, List, [], ◌∷◌, ◌++◌, Text}
use portato.Config.Types.{Config, Tuber}
use portato.Config.Names.{ConfigError, Checked, valid, failed, then_check}
use portato.Config.Prepare.{Env}
use portato.Config.Document.{
  Node, Edit, add_tuber_node, replace_tuber_node, delete_tuber_node, move_tuber_node,
}
use portato.Config.Document.Edited.{Change, add, replace, delete, move}
use portato.Config.Document.Loaded.{Yaml, load}
use portato.Forward.Tuberer.{Tuberer}
use portato.Forward.Engine.{Engine, EngineError, Nets, enable, disable, restart}
use portato.Forward.Engine.Reloading.{reload}
use portato.Secret.Store
use portato.Secret.Store.{Store, StoreError, Backend, set}
use portato.Controller.Accounts.{set_enabled}

-- The causes of an error answer.
pub data Failure : Type 0 where
  of_config : ConfigError → Failure
  of_engine : EngineError → Failure
  no_pending_host : Text → Failure
  host_not_appended : Text → Failure
  no_store : Failure
  no_account : Text → Failure
  of_store : StoreError → Failure
  -- the nil dereference of an engine's Reload
  panicked : Failure

module _ (K : Tuberer) (B : Backend) where
  -- The file is the document that it holds; a nil store is `none`.
  pub record Core : Type 0 where
    pub engine : Engine K
    pub cfg : Config
    pub file : Node
    pub secrets : Option Store
    pub passwords : Option Store
    pub keyring : B.Keyring
    pub known_hosts : List Text

  -- What the outside answers to one request: yaml, the user's ssh configuration, the network, and
  -- the errors of reading and writing the files.
  pub record World : Type 0 where
    pub yaml : Yaml
    pub print_config : Config → Node
    pub env : Env
    pub ssh_error : Option ConfigError
    pub nets : Nets K
    pub read_error : Option ConfigError
    pub write_error : Option ConfigError
    pub append_error : Option Text

  -- The call's effect, and its error.
  abbrev pub Outcome : Type 0
  Outcome = Core × Option Failure

  abbrev pub unless {ℓ} : {A : Type ℓ} → Option ConfigError → A → Checked A
  unless none a = valid a
  unless (some e) a = failed e

  abbrev pub loaded : World → Checked Env
  loaded w = unless w.ssh_error w.env

  -- config.Load of the file
  unfoldable pub load_file : World → Core → Checked Config
  load_file w s = then_check (unless w.read_error s.file) (load w.yaml (loaded w))

  abbrev pub with_engine : Config → Core → Option (Engine K) → Outcome
  with_engine cfg s none = (s, some panicked)
  with_engine cfg s (some e) = (record s { engine = e; cfg = cfg }, none)

  abbrev pub apply_loaded : World → Core → Checked Config → Outcome
  apply_loaded w s (failed e) = (s, some (of_config e))
  apply_loaded w s (valid cfg) = with_engine cfg s (reload K cfg w.nets s.engine)

  -- Reload of the controller, applyReload of the server.
  unfoldable pub apply_reload : World → Core → Outcome
  unfolding load_file
  apply_reload w s = apply_loaded w s (load_file w s)

  -- The edit of the file: AddTuberNode, ReplaceTuberNode, DeleteTuberNode or MoveTuberNode.
  unfoldable pub edit_file : World → Change Tuber → Node → Edit
  edit_file w (add t) doc = add_tuber_node (w.yaml.print_tuber t) doc
  edit_file w (replace name t) doc = replace_tuber_node (w.yaml.print_tuber t) name doc
  edit_file w (delete name) doc = delete_tuber_node name doc
  edit_file w (move name delta) doc = move_tuber_node name delta doc

  abbrev pub save_edit : World → Node → Option Node → Checked Node
  save_edit w doc none = valid doc
  save_edit w doc (some new) = unless w.write_error new

  unfoldable pub patch_file : World → Change Tuber → Core → Checked Core
  unfolding edit_file
  patch_file w c s = then_check (unless w.read_error s.file) (λ doc.
      then_check (edit_file w c doc)
        (λ o. then_check (save_edit w doc o) (λ new. valid (record s { file = new }))))

  -- cfg.Save of the configuration in memory
  unfoldable pub save_config : World → Core → Outcome
  save_config w s = elim w.write_error [
    | none ↦ (record s { file = w.print_config s.cfg }, none)
    | some e ↦ (s, some (of_config e))
  ]

  abbrev config_enabled_in : Text → Bool → Config → Config
  config_enabled_in name enabled cfg = record cfg { tubers = set_enabled name enabled cfg.tubers }

  -- setEnabled; the engine has the same configuration by a pointer.
  unfoldable pub enabled_in : Text → Bool → Core → Core
  unfolding set_enabled
  enabled_in name enabled s = record s {
    cfg = config_enabled_in name enabled s.cfg;
    engine = record s.engine { cfg = config_enabled_in name enabled s.engine.cfg };
  }

  abbrev pub engine_error : Option EngineError → Option Failure
  engine_error none = none
  engine_error (some e) = some (of_engine e)

  -- A call of the engine.
  abbrev pub call_engine : Core → Engine K × Option EngineError → Outcome
  call_engine s (e, error) = (record s { engine = e }, engine_error error)

  -- Go's `if err != nil { return err }` between two steps.
  abbrev pub then_do : Outcome → (Core → Outcome) → Outcome
  then_do (s, some e) k = (s, some e)
  then_do (s, none) k = k s

  unfoldable pub enable_in : World → Text → Core → Outcome
  enable_in w name s = call_engine s (enable K (w.nets name) name s.engine)

  unfoldable pub disable_in : Text → Core → Outcome
  disable_in name s = call_engine s (disable K name s.engine)

  unfoldable pub restart_in : World → Text → Core → Outcome
  restart_in w name s = call_engine s (restart K (w.nets name) name s.engine)

  -- AppendKnownHostLine, then Restart.
  unfoldable pub append_host : World → Text → Core → Outcome
  append_host w line s = elim w.append_error [
    | some e ↦ (s, some (host_not_appended e))
    | none ↦ (record s { known_hosts = s.known_hosts ++ line ∷ [] }, none)
  ]

  abbrev pub store_error : Option StoreError → Option Failure
  store_error none = none
  store_error (some e) = some (of_store e)

  -- `persist` is what the store's closure answers.
  unfoldable pub set_secret : Bool → Text → Text → Store → Core → Outcome
  set_secret persist path v st s =
      let ((st', k), e) = set B persist path v s.keyring st in
      (record s { secrets = some st'; keyring = k }, store_error e)

  unfoldable pub set_password : Bool → Text → Text → Store → Core → Outcome
  set_password persist key v st s =
      let ((st', k), e) = set B persist key v s.keyring st in
      (record s { passwords = some st'; keyring = k }, store_error e)

  unfoldable pub forget_secret : Text → Store → Core → Outcome
  forget_secret path st s =
      let ((st', k), e) = Store.delete B path s.keyring st in
      (record s { secrets = some st'; keyring = k }, store_error e)
