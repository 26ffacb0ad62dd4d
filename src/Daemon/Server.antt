-- ===== src/Daemon/Server.antt =====
-- internal/daemon/server.go: the requests to the daemon over its socket. Each handler that changes the
-- state runs under the server's mutex. A body that does not decode is `none`; a panic is caught by
-- the HTTP server and answers nothing.
pub mod Guards
pub mod Served
pub mod Requests
use portato.Prelude.{
  ℕ, Bool, true, false, not, ◌||◌, ◌≡◌, Option, none, some, List, [], ◌∷◌, ◌++◌, Text, lit, text_eq,
  is_empty, if◌then◌else◌,
}
use portato.Prelude.Decimal.{atoi}
use portato.Config.Types.{Config, Tuber}
use portato.Config.Names.{ConfigError, Checked, valid, failed}
use portato.Config.Document.Edited.{Change, add, replace, delete, move}
use portato.Config.Document.Refines.{with_change}
use portato.Forward.State.{State, Status, off, state_eq}
use portato.Forward.Tuberer.{Tuberer}
use portato.Forward.Engine.{has_name, list}
use portato.Log.Ring.{Ring, Entry, lines}
use portato.Secret.Store.{Store, Backend}
use portato.Controller.Accounts.{pending_host_line, identity_path_for, account_key_for}
use portato.Controller.State.{
  Core, World, Outcome, Failure, of_config, no_pending_host, no_store, no_account, panicked, loaded,
  apply_reload, patch_file, save_config, enabled_in, then_do, enable_in, disable_in, restart_in,
  append_host, set_secret, set_password, forget_secret,
}

-- The routes and what a handler reads of its request.
pub data Request : Type 0 where
  get_healthz get_list get_config post_reload : Request
  get_logs post_enable post_disable post_restart post_accept_host : Text → Request
  post_passphrase post_password : Text → Option Text → Request
  post_identity : Option (Text × Text) → Request
  delete_identity : Text → Request
  post_tuber : Option Tuber → Request
  put_tuber : Text → Option Tuber → Request
  delete_tuber : Text → Request
  -- with the query's delta
  move_tuber : Text → Text → Request

pub data Body : Type 0 where
  -- the word of "status", or "ok"
  word : Text → Body
  version : Text → Body
  list_of : List Status → Body
  entries_of : List Entry → Body
  config_of : Config → Body
  message : Text → Body
  failure : Failure → Body

-- The status code of the answer, and its body.
pub data Response : Type 0 where
  response : ℕ → Body → Response
  no_response : Response

abbrev pub code : Response → ℕ
code (response n b) = n
code no_response = 0

module _ (K : Tuberer) (B : Backend) where
  pub record Server : Type 0 where
    pub core : Core K B
    pub logs : Ring
    -- empty without authentication
    pub token : Text
    pub version : Text

  abbrev pub Answer : Type 0
  Answer = Server × Response

  abbrev pub statuses : Server → List Status
  statuses s = list K s.core.engine

  abbrev pub has_tuber : Server → Text → Bool
  has_tuber s name = has_name name s.core.cfg.tubers

  unfoldable pub is_up_in : List Status → Text → Bool
  is_up_in [] name = false
  is_up_in (st ∷ sts) name =
      let rest = is_up_in sts name in
      if text_eq st.name name then not (state_eq st.state off) else rest

  unfoldable pub is_up : Server → Text → Bool
  unfolding is_up_in
  is_up s name = is_up_in (statuses s) name

  abbrev pub refuse : Server → ℕ → Text → Answer
  refuse s n m = (s, response n (message m))

  abbrev pub failing : ℕ → Failure → Response
  failing n panicked = no_response
  failing n f = response n (failure f)

  -- The answer of the steps that were taken.
  abbrev pub answer : Server → Text → Outcome K B → Answer
  answer s w (c, none) = (record s { core = c }, response 200 (word w))
  answer s w (c, some f) = (record s { core = c }, failing 500 f)

  abbrev pub known : Server → Text → Answer → Answer
  known s name a = if has_tuber s name then a else refuse s 404 (lit "unknown tuber")

  unfoldable pub handle_enable : World K B → Text → Server → Answer
  unfolding is_up enable_in enabled_in save_config
  handle_enable w name s =
      let enabled = if is_up s name then (s.core, none) else enable_in K B w name s.core in
      known s name (
        answer s (lit "enabled")
          (then_do K B enabled (λ c. save_config K B w (enabled_in K B name true c))))

  unfoldable pub handle_disable : World K B → Text → Server → Answer
  unfolding disable_in enabled_in save_config
  handle_disable w name s = known s name (
      answer s (lit "disabled") (
        then_do K B (disable_in K B name s.core)
          (λ c. save_config K B w (enabled_in K B name false c))))

  unfoldable pub handle_restart : World K B → Text → Server → Answer
  unfolding restart_in
  handle_restart w name s = known s name (answer s (lit "restarted") (restart_in K B w name s.core))

  unfoldable pub handle_accept_host : World K B → Text → Server → Answer
  unfolding pending_host_line append_host restart_in
  handle_accept_host w name s =
      let line = pending_host_line (statuses s) name in
      known s name (
        if is_empty line
        then (s, response 409 (failure (no_pending_host name)))
        else answer s (lit "accepted")
            (then_do K B (append_host K B w line s.core) (λ c. restart_in K B w name c)))

  abbrev with_store : Server → Text → Option Store → (Store → Answer) → Answer
  with_store s m none k = refuse s 500 m
  with_store s m (some st) k = k st

  abbrev stored_at : Server → Text → Text → (Text → Outcome K B) → Answer
  stored_at s name path k =
      if is_empty path
      then (s, response 409 (failure (no_account name)))
      else answer s (lit "stored") (k path)

  unfoldable pub handle_passphrase : World K B → Text → Option Text → Server → Answer
  unfolding identity_path_for set_secret
  handle_passphrase w name none s = refuse s 400 (lit "decode body")
  handle_passphrase w name (some v) s = known s name (
      with_store s (lit "passphrase storage unavailable") s.core.secrets (λ st.
        stored_at s name (identity_path_for w.env.expand_tilde (statuses s) s.core.cfg name)
          (λ path. set_secret K B s.core.cfg.defaults.identity_passphrase_store path v st s.core)))

  unfoldable pub handle_password : Text → Option Text → Server → Answer
  unfolding account_key_for set_password
  handle_password name none s = refuse s 400 (lit "decode body")
  handle_password name (some v) s = known s name (
      with_store s (lit "password storage unavailable") s.core.passwords (λ st.
        stored_at s name (account_key_for (statuses s) s.core.cfg name)
          (λ key. set_password K B s.core.cfg.defaults.ssh_password_store key v st s.core)))

  unfoldable pub handle_set_identity : Option (Text × Text) → Server → Answer
  unfolding set_secret
  handle_set_identity none s = refuse s 400 (lit "decode body")
  handle_set_identity (some (path, v)) s =
      if is_empty path
      then refuse s 400 (lit "missing path")
      else with_store s (lit "passphrase storage unavailable") s.core.secrets (λ st.
        answer s (lit "stored")
          (set_secret K B s.core.cfg.defaults.identity_passphrase_store path v st s.core))

  unfoldable pub handle_forget_identity : Text → Server → Answer
  unfolding forget_secret
  handle_forget_identity path s =
      if is_empty path
      then refuse s 400 (lit "missing path")
      else with_store s (lit "passphrase storage unavailable") s.core.secrets
          (λ st. answer s (lit "forgotten") (forget_secret K B path st s.core))

  unfoldable pub handle_reload : World K B → Server → Answer
  unfolding apply_reload
  handle_reload w s = answer s (lit "ok") (apply_reload K B w s.core)

  abbrev reloaded : World K B → Server → ℕ → Text → Outcome K B → Answer
  reloaded w s n m (c, none) = (record s { core = c }, response n (word m))
  reloaded w s n m (c, some f) = (record s { core = c }, failing 500 f)

  abbrev patched : World K B → Server → ℕ → Text → Checked (Core K B) → Answer
  patched w s n m (failed e) = (s, response 500 (failure (of_config e)))
  patched w s n m (valid c) = reloaded w s n m (apply_reload K B w c)

  abbrev checked : World K B → Change Tuber → Server → ℕ → Text → Checked Config → Answer
  checked w c s n m (failed e) = (s, response 400 (failure (of_config e)))
  checked w c s n m (valid d) = patched w s n m (patch_file K B w c s.core)

  -- The copy in memory, the file, the reload: how the four handlers below end.
  unfoldable pub mutate : World K B → Change Tuber → ℕ → Text → Server → Answer
  unfolding patch_file apply_reload
  mutate w c n m s = checked w c s n m (with_change (loaded K B w) c s.core.cfg)

  unfoldable pub handle_add_tuber : World K B → Option Tuber → Server → Answer
  unfolding mutate
  handle_add_tuber w none s = refuse s 400 (lit "decode tuber")
  handle_add_tuber w (some t) s =
      if has_tuber s t.name
      then refuse s 409 (lit "tuber already exists")
      else mutate w (add t) 201 (lit "created") s

  unfoldable pub handle_update_tuber : World K B → Text → Option Tuber → Server → Answer
  unfolding mutate
  handle_update_tuber w name none s = refuse s 400 (lit "decode tuber")
  handle_update_tuber w name (some t) s =
      known s name (mutate w (replace name t) 200 (lit "updated") s)

  unfoldable pub handle_delete_tuber : World K B → Text → Server → Answer
  unfolding mutate
  handle_delete_tuber w name s = known s name (mutate w (delete name) 200 (lit "deleted") s)

  unfoldable pub handle_move_tuber : World K B → Text → Text → Server → Answer
  unfolding mutate
  handle_move_tuber w name delta s = elim (atoi delta) [
    | none ↦ refuse s 400 (lit "delta must be an integer")
    | some d ↦ known s name (mutate w (move name d) 200 (lit "moved") s)
  ]

  -- The handler of each route.
  unfoldable pub handle : World K B → Request → Server → Answer
  unfolding handle_enable handle_disable handle_restart handle_accept_host handle_passphrase
      handle_password handle_set_identity handle_forget_identity handle_reload handle_add_tuber
      handle_update_tuber handle_delete_tuber handle_move_tuber
  handle w get_healthz s = (s, response 200 (version s.version))
  handle w get_list s = (s, response 200 (list_of (statuses s)))
  handle w get_config s = (s, response 200 (config_of s.core.cfg))
  handle w post_reload s = handle_reload w s
  handle w (get_logs name) s = (s, response 200 (entries_of (lines s.logs name)))
  handle w (post_enable name) s = handle_enable w name s
  handle w (post_disable name) s = handle_disable w name s
  handle w (post_restart name) s = handle_restart w name s
  handle w (post_accept_host name) s = handle_accept_host w name s
  handle w (post_passphrase name v) s = handle_passphrase w name v s
  handle w (post_password name v) s = handle_password name v s
  handle w (post_identity b) s = handle_set_identity b s
  handle w (delete_identity path) s = handle_forget_identity path s
  handle w (post_tuber t) s = handle_add_tuber w t s
  handle w (put_tuber name t) s = handle_update_tuber w name t s
  handle w (delete_tuber name) s = handle_delete_tuber w name s
  handle w (move_tuber name delta) s = handle_move_tuber w name delta s

  -- authmw
  abbrev pub authorised : Server → Text → Bool
  authorised s header = text_eq header (lit "Bearer " ++ s.token)

  -- routes: the handlers, behind the token when there is one. `header` is Authorization's.
  unfoldable pub serve : World K B → Text → Request → Server → Answer
  unfolding handle
  serve w header r s =
      let a = handle w r s in
      if is_empty s.token
      then a
      else if authorised s header
      then a
      else refuse s 401 (lit "unauthorized")
