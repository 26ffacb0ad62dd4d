-- ===== src/Daemon/Server/Guards.antt =====
-- The answers of internal/daemon/server.go that turn a request down.
use portato.Prelude.{
  ℕ, ◌≡◌, ◌≤◌, ◌<◌, refl, Bool, true, false, Option, none, some, [], ◌∷◌, Text, lit, is_empty,
  if◌then◌else◌, arith, ◌⊎◌, inl, inr, Bool-cases, ltb, ltb→lt, text_eq_iff, ◌++◌,
}
use portato.Prelude.Decimal.{atoi}
use portato.Prelude.Int.{ℤ}
use portato.Config.Types.{Config, Tuber}
use portato.Config.Names.{Checked, valid, failed}
use portato.Config.Document.Edited.{Change, add, replace, delete, move}
use portato.Config.Document.Refines.{with_change}
use portato.Forward.Tuberer.{Tuberer}
use portato.Secret.Store.{Store, Backend}
use portato.Controller.Accounts.{pending_host_line, identity_path_for, account_key_for}
use portato.Controller.State.{
  Core, World, Outcome, Failure, panicked, loaded, apply_reload, patch_file, enable_in, then_do,
  save_config, enabled_in, disable_in, restart_in, append_host, set_secret, set_password,
  forget_secret,
}
use portato.Daemon.Server.{
  Request, response, code, failure, Server, Answer, refuse, answer, known, has_tuber, with_store,
  stored_at, reloaded, patched, checked, mutate, handle_add_tuber, handle_update_tuber,
  handle_delete_tuber, handle_move_tuber, handle_enable, handle_disable, handle_restart,
  handle_accept_host, handle_passphrase, handle_password, handle_set_identity,
  handle_forget_identity, handle_reload, handle, serve, authorised, is_up, statuses,
}

module _ (K : Tuberer) (B : Backend) where
  -- An answer that blames the client comes with the server as it was.
  abbrev pub IsGuarded : Server K B → Answer K B → Type 0
  IsGuarded s a = 400 ≤ code a.1 → code a.1 < 500 → a.0 ≡ s

  answer-IsGuarded : (s : Server K B) (m : Text) (o : Outcome K B) → IsGuarded s (answer K B s m o)
  answer-IsGuarded s m (c, none) low high = absurd (omega arith)
  answer-IsGuarded s m (c, some panicked) low high = absurd (omega arith)
  answer-IsGuarded s m (c, some (Failure.of_config e)) low high = absurd (omega arith)
  answer-IsGuarded s m (c, some (Failure.of_engine e)) low high = absurd (omega arith)
  answer-IsGuarded s m (c, some (Failure.no_pending_host t)) low high = absurd (omega arith)
  answer-IsGuarded s m (c, some (Failure.host_not_appended t)) low high = absurd (omega arith)
  answer-IsGuarded s m (c, some Failure.no_store) low high = absurd (omega arith)
  answer-IsGuarded s m (c, some (Failure.no_account t)) low high = absurd (omega arith)
  answer-IsGuarded s m (c, some (Failure.of_store e)) low high = absurd (omega arith)

  if-IsGuarded :
      (s : Server K B) (b : Bool) (x y : Answer K B)
      → IsGuarded s x
      → IsGuarded s y
      → IsGuarded s (if b then x else y)
  if-IsGuarded s true x y hx hy = hx
  if-IsGuarded s false x y hx hy = hy

  refuse-IsGuarded : (s : Server K B) (n : ℕ) (m : Text) → IsGuarded s (refuse K B s n m)
  refuse-IsGuarded s n m low high = refl

  known-IsGuarded :
      (s : Server K B) (name : Text) (a : Answer K B)
      → IsGuarded s a
      → IsGuarded s (known K B s name a)
  known-IsGuarded s name a h =
      if-IsGuarded s (has_tuber K B s name) a (refuse K B s 404 (lit "unknown tuber")) h
        (refuse-IsGuarded s 404 (lit "unknown tuber"))

  with_store-IsGuarded :
      (s : Server K B) (m : Text) (o : Option Store) (k : Store → Answer K B)
      → ((st : Store) → IsGuarded s (k st))
      → IsGuarded s (with_store K B s m o k)
  with_store-IsGuarded s m none k h = refuse-IsGuarded s 500 m
  with_store-IsGuarded s m (some st) k h = h st

  stored_at-IsGuarded :
      (s : Server K B) (name path : Text) (k : Text → Outcome K B)
      → IsGuarded s (stored_at K B s name path k)
  stored_at-IsGuarded s name [] k = λ low high. refl
  stored_at-IsGuarded s name (c ∷ path) k = answer-IsGuarded s (lit "stored") (k (c ∷ path))

  reloaded-IsGuarded :
      (w : World K B) (s : Server K B) (n : ℕ) (m : Text) (o : Outcome K B)
      → n < 400
      → IsGuarded s (reloaded K B w s n m o)
  reloaded-IsGuarded w s n m (c, none) small = λ low high. absurd (omega arith)
  reloaded-IsGuarded w s n m (c, some f) small = answer-IsGuarded s m (c, some f)

  mutate-IsGuarded :
      (w : World K B) (c : Change Tuber) (n : ℕ) (m : Text) (s : Server K B)
      → n < 400
      → IsGuarded s (mutate K B w c n m s)
  unfolding mutate
  mutate-IsGuarded w c n m s small = of_check (with_change (loaded K B w) c s.core.cfg)
    where
      of_patch : (p : Checked (Core K B)) → IsGuarded s (patched K B w s n m p)
      of_patch (failed e) = λ low high. refl
      of_patch (valid x) = reloaded-IsGuarded w s n m (apply_reload K B w x) small

      of_check : (d : Checked Config) → IsGuarded s (checked K B w c s n m d)
      of_check (failed e) = λ low high. refl
      of_check (valid d) = of_patch (patch_file K B w c s.core)

  handle-IsGuarded : (w : World K B) (r : Request) (s : Server K B) → IsGuarded s (handle K B w r s)
  unfolding handle handle_enable handle_disable handle_restart handle_accept_host handle_passphrase
      handle_password handle_set_identity handle_forget_identity handle_reload handle_add_tuber
      handle_update_tuber handle_delete_tuber handle_move_tuber
  handle-IsGuarded w Request.get_healthz s = λ low high. refl
  handle-IsGuarded w Request.get_list s = λ low high. refl
  handle-IsGuarded w Request.get_config s = λ low high. refl
  handle-IsGuarded w (Request.get_logs name) s = λ low high. refl
  handle-IsGuarded w Request.post_reload s =
      answer-IsGuarded s (lit "ok") (apply_reload K B w s.core)
  handle-IsGuarded w (Request.post_enable name) s =
      let enabled = if is_up K B s name then (s.core, none) else enable_in K B w name s.core in
      let o = then_do K B enabled (λ c. save_config K B w (enabled_in K B name true c)) in
      known-IsGuarded s name (answer K B s (lit "enabled") o) (answer-IsGuarded s (lit "enabled") o)
  handle-IsGuarded w (Request.post_disable name) s =
      let o =
        then_do K B (disable_in K B name s.core)
          (λ c. save_config K B w (enabled_in K B name false c)) in
      known-IsGuarded s name (answer K B s (lit "disabled") o)
        (answer-IsGuarded s (lit "disabled") o)
  handle-IsGuarded w (Request.post_restart name) s =
      known-IsGuarded s name (answer K B s (lit "restarted") (restart_in K B w name s.core))
        (answer-IsGuarded s (lit "restarted") (restart_in K B w name s.core))
  handle-IsGuarded w (Request.post_accept_host name) s =
      let line = pending_host_line (statuses K B s) name in
      let o = then_do K B (append_host K B w line s.core) (λ c. restart_in K B w name c) in
      let none_pending : Answer K B = (s, response 409 (failure (Failure.no_pending_host name))) in
      known-IsGuarded s name
        (if is_empty line then none_pending else answer K B s (lit "accepted") o)
        (if-IsGuarded s (is_empty line) none_pending (answer K B s (lit "accepted") o)
          (λ low high. refl) (answer-IsGuarded s (lit "accepted") o))
  handle-IsGuarded w (Request.post_passphrase name none) s =
      refuse-IsGuarded s 400 (lit "decode body")
  handle-IsGuarded w (Request.post_passphrase name (some v)) s =
      let k : Store → Answer K B = λ st.
        stored_at K B s name (identity_path_for w.env.expand_tilde (statuses K B s) s.core.cfg name)
          (λ path. set_secret K B s.core.cfg.defaults.identity_passphrase_store path v st s.core) in
      known-IsGuarded s name
        (with_store K B s (lit "passphrase storage unavailable") s.core.secrets k)
        (with_store-IsGuarded s (lit "passphrase storage unavailable") s.core.secrets k (λ st.
          stored_at-IsGuarded s name
            (identity_path_for w.env.expand_tilde (statuses K B s) s.core.cfg name)
            (λ path.
              set_secret K B s.core.cfg.defaults.identity_passphrase_store path v st s.core)))
  handle-IsGuarded w (Request.post_password name none) s =
      refuse-IsGuarded s 400 (lit "decode body")
  handle-IsGuarded w (Request.post_password name (some v)) s =
      let k : Store → Answer K B = λ st.
        stored_at K B s name (account_key_for (statuses K B s) s.core.cfg name)
          (λ key. set_password K B s.core.cfg.defaults.ssh_password_store key v st s.core) in
      known-IsGuarded s name
        (with_store K B s (lit "password storage unavailable") s.core.passwords k)
        (with_store-IsGuarded s (lit "password storage unavailable") s.core.passwords k (λ st.
          stored_at-IsGuarded s name (account_key_for (statuses K B s) s.core.cfg name)
            (λ key. set_password K B s.core.cfg.defaults.ssh_password_store key v st s.core)))
  handle-IsGuarded w (Request.post_identity none) s = refuse-IsGuarded s 400 (lit "decode body")
  handle-IsGuarded w (Request.post_identity (some ([], v))) s =
      refuse-IsGuarded s 400 (lit "missing path")
  handle-IsGuarded w (Request.post_identity (some (c ∷ path, v))) s =
      with_store-IsGuarded s (lit "passphrase storage unavailable") s.core.secrets
        (λ st.
          answer K B s (lit "stored")
            (set_secret K B s.core.cfg.defaults.identity_passphrase_store (c ∷ path) v st s.core))
        (λ st.
          answer-IsGuarded s (lit "stored")
            (set_secret K B s.core.cfg.defaults.identity_passphrase_store (c ∷ path) v st s.core))
  handle-IsGuarded w (Request.delete_identity []) s = refuse-IsGuarded s 400 (lit "missing path")
  handle-IsGuarded w (Request.delete_identity (c ∷ path)) s =
      with_store-IsGuarded s (lit "passphrase storage unavailable") s.core.secrets
        (λ st. answer K B s (lit "forgotten") (forget_secret K B (c ∷ path) st s.core))
        (λ st. answer-IsGuarded s (lit "forgotten") (forget_secret K B (c ∷ path) st s.core))
  handle-IsGuarded w (Request.post_tuber none) s = refuse-IsGuarded s 400 (lit "decode tuber")
  handle-IsGuarded w (Request.post_tuber (some t)) s =
      if-IsGuarded s (has_tuber K B s t.name) (refuse K B s 409 (lit "tuber already exists"))
        (mutate K B w (add t) 201 (lit "created") s)
        (refuse-IsGuarded s 409 (lit "tuber already exists"))
        (mutate-IsGuarded w (add t) 201 (lit "created") s (omega arith))
  handle-IsGuarded w (Request.put_tuber name none) s = refuse-IsGuarded s 400 (lit "decode tuber")
  handle-IsGuarded w (Request.put_tuber name (some t)) s =
      known-IsGuarded s name (mutate K B w (replace name t) 200 (lit "updated") s)
        (mutate-IsGuarded w (replace name t) 200 (lit "updated") s (omega arith))
  handle-IsGuarded w (Request.delete_tuber name) s =
      known-IsGuarded s name (mutate K B w (delete name) 200 (lit "deleted") s)
        (mutate-IsGuarded w (delete name) 200 (lit "deleted") s (omega arith))
  handle-IsGuarded w (Request.move_tuber name delta) s = moved (atoi delta)
    where
      moved :
          (o : Option ℤ)
          → IsGuarded s (elim o [
            | none ↦ refuse K B s 400 (lit "delta must be an integer")
            | some d ↦ known K B s name (mutate K B w (move name d) 200 (lit "moved") s)
          ])
      moved none = refuse-IsGuarded s 400 (lit "delta must be an integer")
      moved (some d) =
          known-IsGuarded s name (mutate K B w (move name d) 200 (lit "moved") s)
            (mutate-IsGuarded w (move name d) 200 (lit "moved") s (omega arith))

  -- The server demands no token, or the request has it.
  abbrev pub HasToken : Server K B → Text → Type 0
  HasToken s header = (s.token ≡ []) ⊎ (header ≡ lit "Bearer " ++ s.token)

  serve-token :
      (w : World K B) (header : Text) (r : Request) (s : Server K B)
      → HasToken s header ⊎ (serve K B w header r s ≡ refuse K B s 401 (lit "unauthorized"))
  unfolding serve
  serve-token w header r s = elim (Bool-cases (is_empty s.token)) [
    | inl open_server ↦ inl (inl (nil s.token open_server))
    | inr guarded ↦ elim (Bool-cases (authorised K B s header)) [
      | inl given ↦ inl (inr ((text_eq_iff header (lit "Bearer " ++ s.token)).0 given))
      | inr wrong ↦ inr (rw (guarded, wrong) refl)
    ]
  ]
    where
      nil : (t : Text) → is_empty t ≡ true → t ≡ []
      nil [] h = refl
      nil (c ∷ t) h = absurd cc

  serve-IsGuarded :
      (w : World K B) (header : Text) (r : Request) (s : Server K B)
      → IsGuarded s (serve K B w header r s)
  unfolding serve
  serve-IsGuarded w header r s =
      if-IsGuarded s (is_empty s.token) (handle K B w r s)
        (if authorised K B s header
          then handle K B w r s
          else refuse K B s 401 (lit "unauthorized"))
        (handle-IsGuarded w r s)
        (if-IsGuarded s (authorised K B s header) (handle K B w r s)
          (refuse K B s 401 (lit "unauthorized")) (handle-IsGuarded w r s)
          (refuse-IsGuarded s 401 (lit "unauthorized")))

  -- For every request the server demands no token, or the request has it, or the answer is 401 and the
  -- server is as it was. And an answer that blames the client, with a status code from 400 to 499,
  -- leaves the server as it was: its engine, its configuration, its file, its secrets.
  pub serve-client_error :
      (w : World K B) (header : Text) (r : Request) (s : Server K B)
      → (HasToken s header ⊎ (serve K B w header r s ≡ refuse K B s 401 (lit "unauthorized")))
        × ((code (serve K B w header r s).1 < 400)
            ⊎ ((500 ≤ code (serve K B w header r s).1) ⊎ ((serve K B w header r s).0 ≡ s)))
  serve-client_error w header r s = (
    serve-token w header r s,
    by_code (code (serve K B w header r s).1) (serve-IsGuarded w header r s),
  )
    where
      by_code :
          (n : ℕ)
          → (400 ≤ n → n < 500 → (serve K B w header r s).0 ≡ s)
          → (n < 400) ⊎ ((500 ≤ n) ⊎ ((serve K B w header r s).0 ≡ s))
      by_code n same = elim (Bool-cases (ltb n 400)) [
        | inl low ↦ inl (ltb→lt n 400 low)
        | inr at ↦ elim (Bool-cases (ltb n 500)) [
          | inl below ↦ inr (inr (same (ground arith) (ltb→lt n 500 below)))
          | inr high ↦ inr (inl (ground arith))
        ]
      ]
