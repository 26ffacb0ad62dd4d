-- ===== src/Controller/Sound.antt =====
-- The steps that internal/controller/local.go and internal/daemon/server.go share, and the engine that
-- they leave.
use portato.Prelude.{
  ◌≡◌, refl, sym, ap, ◌∙◌, Bool, true, false, Option, none, some, Text, Option-cases, inl, inr,
}
use portato.Config.Types.{Config, Tuber}
use portato.Config.Names.{Checked, valid, failed, then_check, then_check-valid, valid-inj}
use portato.Config.Document.Edited.{Change}
use portato.Forward.Tuberer.{Tuberer}
use portato.Forward.Engine.{Engine, EngineError, enable, disable, restart}
use portato.Forward.Engine.Reload.{IsValid, reload-result}
use portato.Forward.Engine.Calls.{enable-IsValid, disable-IsValid, restart-IsValid}
use portato.Secret.Store.{Store, StoreError, Backend}
use portato.Controller.State.{
  Core, World, Outcome, Failure, panicked, load_file, apply_reload, apply_loaded, with_engine,
  edit_file, save_edit, unless, patch_file, save_config, enabled_in, call_engine, then_do,
  enable_in, disable_in, restart_in, append_host, store_error, set_secret, set_password,
  forget_secret,
}

module _ (K : Tuberer) (B : Backend) where
  abbrev pub is_panic : Option Failure → Bool
  is_panic (some panicked) = true
  is_panic _ = false

  -- The engine matches its configurations, and nothing has panicked.
  abbrev pub IsSound : Outcome K B → Type 0
  IsSound (s, f) = IsValid K s.engine × (is_panic f ≡ false)

  pub call_engine-IsSound :
      (s : Core K B) (r : Engine K × Option EngineError)
      → IsValid K r.0
      → IsSound (call_engine K B s r)
  call_engine-IsSound s (e, none) v = (v, refl)
  call_engine-IsSound s (e, some error) v = (v, refl)

  pub enable_in-IsSound :
      (w : World K B) (name : Text) (s : Core K B)
      → IsValid K s.engine
      → IsSound (enable_in K B w name s)
  unfolding enable_in
  enable_in-IsSound w name s v =
      call_engine-IsSound s (enable K (w.nets name) name s.engine)
        (enable-IsValid K (w.nets name) name s.engine v)

  pub disable_in-IsSound :
      (name : Text) (s : Core K B) → IsValid K s.engine → IsSound (disable_in K B name s)
  unfolding disable_in
  disable_in-IsSound name s v =
      call_engine-IsSound s (disable K name s.engine) (disable-IsValid K name s.engine v)

  pub restart_in-IsSound :
      (w : World K B) (name : Text) (s : Core K B)
      → IsValid K s.engine
      → IsSound (restart_in K B w name s)
  unfolding restart_in
  restart_in-IsSound w name s v =
      call_engine-IsSound s (restart K (w.nets name) name s.engine)
        (restart-IsValid K (w.nets name) name s.engine v)

  pub then_do-IsSound :
      (o : Outcome K B) (k : Core K B → Outcome K B)
      → IsSound o
      → ((s : Core K B) → IsValid K s.engine → IsSound (k s))
      → IsSound (then_do K B o k)
  then_do-IsSound (s, none) k h each = each s h.0
  then_do-IsSound (s, some f) k h each = h

  pub save_config-IsSound :
      (w : World K B) (s : Core K B) → IsValid K s.engine → IsSound (save_config K B w s)
  unfolding save_config
  save_config-IsSound w s v = elim (Option-cases w.write_error) [
    | inl fine ↦ rw (save_config, fine) (v, refl)
    | inr (e, bad) ↦ rw (save_config, bad) (v, refl)
  ]

  pub enabled_in-IsValid :
      (name : Text) (b : Bool) (s : Core K B)
      → IsValid K s.engine
      → IsValid K (enabled_in K B name b s).engine
  unfolding enabled_in
  enabled_in-IsValid name b s v = record { same_names = v.same_names; named = v.named }

  pub append_host-IsSound :
      (w : World K B) (line : Text) (s : Core K B)
      → IsValid K s.engine
      → IsSound (append_host K B w line s)
  unfolding append_host
  append_host-IsSound w line s v = elim (Option-cases w.append_error) [
    | inl fine ↦ rw (append_host, fine) (v, refl)
    | inr (e, bad) ↦ rw (append_host, bad) (v, refl)
  ]

  store_error-is_panic : (e : Option StoreError) → is_panic (store_error K B e) ≡ false
  store_error-is_panic none = refl
  store_error-is_panic (some e) = refl

  pub set_secret-IsSound :
      (persist : Bool) (path v : Text) (st : Store) (s : Core K B)
      → IsValid K s.engine
      → IsSound (set_secret K B persist path v st s)
  unfolding set_secret
  set_secret-IsSound persist path v st s h = (h, store_error-is_panic _)

  pub set_password-IsSound :
      (persist : Bool) (key v : Text) (st : Store) (s : Core K B)
      → IsValid K s.engine
      → IsSound (set_password K B persist key v st s)
  unfolding set_password
  set_password-IsSound persist key v st s h = (h, store_error-is_panic _)

  pub forget_secret-IsSound :
      (path : Text) (st : Store) (s : Core K B)
      → IsValid K s.engine
      → IsSound (forget_secret K B path st s)
  unfolding forget_secret
  forget_secret-IsSound path st s h = (h, store_error-is_panic _)

  -- A reload that is given a configuration succeeds.
  pub apply_reload-done :
      (w : World K B) (s : Core K B) (cfg : Config)
      → IsValid K s.engine
      → load_file K B w s ≡ valid cfg
      → (e : Engine K) × (apply_reload K B w s ≡ (record s { engine = e; cfg = cfg }, none))
        × IsValid K e
        × (e.cfg ≡ cfg)
  unfolding apply_reload
  apply_reload-done w s cfg v read =
      let (e, ran, each, configs, valid_again, same) = reload-result K s.engine cfg w.nets v in
      (e, ap (apply_loaded K B w s) read ∙ ap (with_engine K B cfg s) ran, valid_again, same)

  pub apply_reload-IsSound :
      (w : World K B) (s : Core K B) → IsValid K s.engine → IsSound (apply_reload K B w s)
  unfolding apply_reload
  apply_reload-IsSound w s v = of_read (load_file K B w s) refl
    where
      of_read : (c : Checked Config) → load_file K B w s ≡ c → IsSound (apply_loaded K B w s c)
      of_read (failed e) read = (v, refl)
      of_read (valid cfg) read =
          let (e, ran, each, configs, valid_again, same) = reload-result K s.engine cfg w.nets v in
          rw ran (valid_again, refl)

  -- An edit of the file does not touch the engine.
  pub patch_file-engine :
      (w : World K B) (c : Change Tuber) (s t : Core K B)
      → patch_file K B w c s ≡ valid t
      → t.engine ≡ s.engine
  unfolding patch_file
  patch_file-engine w c s t h =
      let (doc, a, p) =
        then_check-valid (unless K B w.read_error s.file)
          (λ doc.
            then_check (edit_file K B w c doc)
              (λ o. then_check (save_edit K B w doc o) (λ new. valid (record s { file = new }))))
          t h in
      let (o, b, q) =
        then_check-valid (edit_file K B w c doc)
          (λ o. then_check (save_edit K B w doc o) (λ new. valid (record s { file = new }))) t p in
      let (new, d, r) =
        then_check-valid (save_edit K B w doc o) (λ new. valid (record s { file = new })) t q in
      ap (λ (x : Core K B). x.engine) (sym (valid-inj r))
