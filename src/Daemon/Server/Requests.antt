-- ===== src/Daemon/Server/Requests.antt =====
-- Sequences of requests to internal/daemon/server.go.
use portato.Prelude.{
  ◌≡◌, refl, Bool, true, false, Option, none, some, List, [], ◌∷◌, Text, lit, is_empty,
  if◌then◌else◌, all, arith,
}
use portato.Prelude.Decimal.{atoi}
use portato.Prelude.Int.{ℤ}
use portato.Config.Document.Edited.{add, replace, delete, move}
use portato.Forward.Tuberer.{Tuberer}
use portato.Forward.Engine.Reload.{IsValid}
use portato.Secret.Store.{Store, Backend}
use portato.Controller.Accounts.{pending_host_line, identity_path_for, account_key_for}
use portato.Controller.State.{
  World, Outcome, Failure, apply_reload, enable_in, then_do, save_config, enabled_in, disable_in,
  restart_in, append_host, set_secret, set_password, forget_secret,
}
use portato.Controller.Sound.{
  IsSound, enable_in-IsSound, disable_in-IsSound, restart_in-IsSound, then_do-IsSound,
  save_config-IsSound, enabled_in-IsValid, append_host-IsSound, set_secret-IsSound,
  set_password-IsSound, forget_secret-IsSound, apply_reload-IsSound,
}
use portato.Daemon.Server.{
  Request, response, failure, Server, Answer, refuse, answer, known, has_tuber, with_store,
  stored_at, mutate, handle_add_tuber, handle_update_tuber, handle_delete_tuber, handle_move_tuber,
  handle_enable, handle_disable, handle_restart, handle_accept_host, handle_passphrase,
  handle_password, handle_set_identity, handle_forget_identity, handle_reload, handle, serve,
  authorised, is_up, statuses,
}
use portato.Daemon.Server.Served.{
  is_answered, IsServed, answer-IsServed, if-IsServed, known-IsServed, with_store-IsServed,
  stored_at-IsServed, mutate-IsServed,
}

module _ (K : Tuberer) (B : Backend) where
  pub handle-IsServed :
      (w : World K B) (r : Request) (s : Server K B)
      → IsValid K s.core.engine
      → IsServed K B (handle K B w r s)
  unfolding handle handle_enable handle_disable handle_restart handle_accept_host handle_passphrase
      handle_password handle_set_identity handle_forget_identity handle_reload handle_add_tuber
      handle_update_tuber handle_delete_tuber handle_move_tuber
  handle-IsServed w Request.get_healthz s v = (v, refl)
  handle-IsServed w Request.get_list s v = (v, refl)
  handle-IsServed w Request.get_config s v = (v, refl)
  handle-IsServed w (Request.get_logs name) s v = (v, refl)
  handle-IsServed w Request.post_reload s v =
      answer-IsServed K B s (lit "ok") (apply_reload K B w s.core)
        (apply_reload-IsSound K B w s.core v)
  handle-IsServed w (Request.post_enable name) s v =
      let enabled : Outcome K B =
        if is_up K B s name then (s.core, none) else enable_in K B w name s.core in
      let o = then_do K B enabled (λ c. save_config K B w (enabled_in K B name true c)) in
      known-IsServed K B s name (answer K B s (lit "enabled") o) v (
        answer-IsServed K B s (lit "enabled") o (
          then_do-IsSound K B enabled (λ c. save_config K B w (enabled_in K B name true c))
            (up (is_up K B s name))
            (λ c h.
              save_config-IsSound K B w (enabled_in K B name true c)
                (enabled_in-IsValid K B name true c h))))
    where
      up : (b : Bool) → IsSound K B (if b then (s.core, none) else enable_in K B w name s.core)
      up true = (v, refl)
      up false = enable_in-IsSound K B w name s.core v
  handle-IsServed w (Request.post_disable name) s v =
      let o =
        then_do K B (disable_in K B name s.core)
          (λ c. save_config K B w (enabled_in K B name false c)) in
      known-IsServed K B s name (answer K B s (lit "disabled") o) v (
        answer-IsServed K B s (lit "disabled") o (
          then_do-IsSound K B (disable_in K B name s.core)
            (λ c. save_config K B w (enabled_in K B name false c))
            (disable_in-IsSound K B name s.core v)
            (λ c h.
              save_config-IsSound K B w (enabled_in K B name false c)
                (enabled_in-IsValid K B name false c h))))
  handle-IsServed w (Request.post_restart name) s v =
      known-IsServed K B s name (answer K B s (lit "restarted") (restart_in K B w name s.core)) v (
        answer-IsServed K B s (lit "restarted") (restart_in K B w name s.core)
          (restart_in-IsSound K B w name s.core v))
  handle-IsServed w (Request.post_accept_host name) s v =
      let line = pending_host_line (statuses K B s) name in
      let o = then_do K B (append_host K B w line s.core) (λ c. restart_in K B w name c) in
      let none_pending : Answer K B = (s, response 409 (failure (Failure.no_pending_host name))) in
      known-IsServed K B s name
        (if is_empty line then none_pending else answer K B s (lit "accepted") o) v
        (if-IsServed K B (is_empty line) none_pending (answer K B s (lit "accepted") o) (v, refl)
          (answer-IsServed K B s (lit "accepted") o (
            then_do-IsSound K B (append_host K B w line s.core) (λ c. restart_in K B w name c)
              (append_host-IsSound K B w line s.core v)
              (λ c h. restart_in-IsSound K B w name c h))))
  handle-IsServed w (Request.post_passphrase name none) s v = (v, refl)
  handle-IsServed w (Request.post_passphrase name (some x)) s v =
      let k : Store → Answer K B = λ st.
        stored_at K B s name (identity_path_for w.env.expand_tilde (statuses K B s) s.core.cfg name)
          (λ path. set_secret K B s.core.cfg.defaults.identity_passphrase_store path x st s.core) in
      known-IsServed K B s name
        (with_store K B s (lit "passphrase storage unavailable") s.core.secrets k) v
        (with_store-IsServed K B s (lit "passphrase storage unavailable") s.core.secrets k v (λ st.
          stored_at-IsServed K B s name
            (identity_path_for w.env.expand_tilde (statuses K B s) s.core.cfg name)
            (λ path. set_secret K B s.core.cfg.defaults.identity_passphrase_store path x st s.core)
            v
            (λ path.
              set_secret-IsSound K B s.core.cfg.defaults.identity_passphrase_store path x st s.core
                v)))
  handle-IsServed w (Request.post_password name none) s v = (v, refl)
  handle-IsServed w (Request.post_password name (some x)) s v =
      let k : Store → Answer K B = λ st.
        stored_at K B s name (account_key_for (statuses K B s) s.core.cfg name)
          (λ key. set_password K B s.core.cfg.defaults.ssh_password_store key x st s.core) in
      known-IsServed K B s name
        (with_store K B s (lit "password storage unavailable") s.core.passwords k) v
        (with_store-IsServed K B s (lit "password storage unavailable") s.core.passwords k v (λ st.
          stored_at-IsServed K B s name (account_key_for (statuses K B s) s.core.cfg name)
            (λ key. set_password K B s.core.cfg.defaults.ssh_password_store key x st s.core) v
            (λ key.
              set_password-IsSound K B s.core.cfg.defaults.ssh_password_store key x st s.core v)))
  handle-IsServed w (Request.post_identity none) s v = (v, refl)
  handle-IsServed w (Request.post_identity (some ([], x))) s v = (v, refl)
  handle-IsServed w (Request.post_identity (some (c ∷ path, x))) s v =
      with_store-IsServed K B s (lit "passphrase storage unavailable") s.core.secrets
        (λ st.
          answer K B s (lit "stored")
            (set_secret K B s.core.cfg.defaults.identity_passphrase_store (c ∷ path) x st s.core))
        v
        (λ st.
          answer-IsServed K B s (lit "stored")
            (set_secret K B s.core.cfg.defaults.identity_passphrase_store (c ∷ path) x st s.core)
            (set_secret-IsSound K B s.core.cfg.defaults.identity_passphrase_store (c ∷ path) x st
              s.core v))
  handle-IsServed w (Request.delete_identity []) s v = (v, refl)
  handle-IsServed w (Request.delete_identity (c ∷ path)) s v =
      with_store-IsServed K B s (lit "passphrase storage unavailable") s.core.secrets
        (λ st. answer K B s (lit "forgotten") (forget_secret K B (c ∷ path) st s.core)) v
        (λ st.
          answer-IsServed K B s (lit "forgotten") (forget_secret K B (c ∷ path) st s.core)
            (forget_secret-IsSound K B (c ∷ path) st s.core v))
  handle-IsServed w (Request.post_tuber none) s v = (v, refl)
  handle-IsServed w (Request.post_tuber (some t)) s v =
      if-IsServed K B (has_tuber K B s t.name) (refuse K B s 409 (lit "tuber already exists"))
        (mutate K B w (add t) 201 (lit "created") s) (v, refl)
        (mutate-IsServed K B w (add t) 201 (lit "created") s v)
  handle-IsServed w (Request.put_tuber name none) s v = (v, refl)
  handle-IsServed w (Request.put_tuber name (some t)) s v =
      known-IsServed K B s name (mutate K B w (replace name t) 200 (lit "updated") s) v
        (mutate-IsServed K B w (replace name t) 200 (lit "updated") s v)
  handle-IsServed w (Request.delete_tuber name) s v =
      known-IsServed K B s name (mutate K B w (delete name) 200 (lit "deleted") s) v
        (mutate-IsServed K B w (delete name) 200 (lit "deleted") s v)
  handle-IsServed w (Request.move_tuber name delta) s v = moved (atoi delta)
    where
      moved :
          (o : Option ℤ)
          → IsServed K B (elim o [
            | none ↦ refuse K B s 400 (lit "delta must be an integer")
            | some d ↦ known K B s name (mutate K B w (move name d) 200 (lit "moved") s)
          ])
      moved none = (v, refl)
      moved (some d) =
          known-IsServed K B s name (mutate K B w (move name d) 200 (lit "moved") s) v
            (mutate-IsServed K B w (move name d) 200 (lit "moved") s v)

  -- The requests of the clients, each with what the outside answers to it and its header, in the
  -- order in which they take the mutex; and whether each was answered.
  unfoldable pub serve_all : List (World K B × Text × Request) → Server K B → Server K B × List Bool
  unfolding serve
  serve_all [] s = (s, [])
  serve_all ((w, header, r) ∷ rs) s =
      let a = serve K B w header r s in
      let rest = serve_all rs a.0 in (rest.0, is_answered K B a.1 ∷ rest.1)

  serve-IsServed :
      (w : World K B) (header : Text) (r : Request) (s : Server K B)
      → IsValid K s.core.engine
      → IsServed K B (serve K B w header r s)
  unfolding serve
  serve-IsServed w header r s v =
      if-IsServed K B (is_empty s.token) (handle K B w r s)
        (if authorised K B s header
          then handle K B w r s
          else refuse K B s 401 (lit "unauthorized"))
        (handle-IsServed w r s v)
        (if-IsServed K B (authorised K B s header) (handle K B w r s)
          (refuse K B s 401 (lit "unauthorized")) (handle-IsServed w r s v) (v, refl))

  -- Whatever the clients ask, in whatever order, and whatever the files and the network answer:
  -- the engine goes on to match its configurations, and every request is answered, so that no
  -- handler dereferences a nil. The engine matches its configurations at the start.
  pub serve_all-IsServed :
      (rs : List (World K B × Text × Request)) (s : Server K B)
      → IsValid K s.core.engine
      → IsValid K (serve_all rs s).0.core.engine × (all (λ b. b) (serve_all rs s).1 ≡ true)
  unfolding serve_all
  serve_all-IsServed [] s v = (v, refl)
  serve_all-IsServed ((w, header, r) ∷ rs) s v =
      let (v', answered) = serve-IsServed w header r s v in
      let (v'', others) = serve_all-IsServed rs (serve K B w header r s).0 v' in (v'', ground arith)
