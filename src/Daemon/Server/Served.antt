-- ===== src/Daemon/Server/Served.antt =====
-- The parts that the handlers of internal/daemon/server.go share, and the engine that they leave.
use portato.Prelude.{
  ℕ, ◌≡◌, refl, sym, subst, Bool, true, false, Option, none, some, [], ◌∷◌, Text, lit,
  if◌then◌else◌,
}
use portato.Config.Types.{Config, Tuber}
use portato.Config.Names.{Checked, valid, failed}
use portato.Config.Document.Edited.{Change}
use portato.Config.Document.Refines.{with_change}
use portato.Forward.Tuberer.{Tuberer}
use portato.Forward.Engine.Reload.{IsValid}
use portato.Secret.Store.{Store, Backend}
use portato.Controller.State.{
  Core, World, Outcome, Failure, panicked, loaded, apply_reload, patch_file,
}
use portato.Controller.Sound.{is_panic, IsSound, apply_reload-IsSound, patch_file-engine}
use portato.Daemon.Server.{
  Response, no_response, Server, Answer, refuse, failing, answer, known, has_tuber, with_store,
  stored_at, reloaded, patched, checked, mutate,
}

module _ (K : Tuberer) (B : Backend) where
  abbrev pub is_answered : Response → Bool
  is_answered no_response = false
  is_answered _ = true

  -- The server still matches its configuration, and the request was answered.
  abbrev pub IsServed : Answer K B → Type 0
  IsServed a = IsValid K a.0.core.engine × (is_answered a.1 ≡ true)

  pub failing-answered :
      (n : ℕ) (f : Failure) → is_panic K B (some f) ≡ false → is_answered (failing K B n f) ≡ true
  failing-answered n panicked h = absurd cc
  failing-answered n (Failure.of_config e) h = refl
  failing-answered n (Failure.of_engine e) h = refl
  failing-answered n (Failure.no_pending_host t) h = refl
  failing-answered n (Failure.host_not_appended t) h = refl
  failing-answered n Failure.no_store h = refl
  failing-answered n (Failure.no_account t) h = refl
  failing-answered n (Failure.of_store e) h = refl

  pub answer-IsServed :
      (s : Server K B) (m : Text) (o : Outcome K B) → IsSound K B o → IsServed (answer K B s m o)
  answer-IsServed s m (c, none) h = (h.0, refl)
  answer-IsServed s m (c, some f) h = (h.0, failing-answered 500 f h.1)

  pub if-IsServed :
      (b : Bool) (x y : Answer K B) → IsServed x → IsServed y → IsServed (if b then x else y)
  if-IsServed true x y hx hy = hx
  if-IsServed false x y hx hy = hy

  pub known-IsServed :
      (s : Server K B) (name : Text) (a : Answer K B)
      → IsValid K s.core.engine
      → IsServed a
      → IsServed (known K B s name a)
  known-IsServed s name a v h =
      if-IsServed (has_tuber K B s name) a (refuse K B s 404 (lit "unknown tuber")) h (v, refl)

  pub with_store-IsServed :
      (s : Server K B) (m : Text) (o : Option Store) (k : Store → Answer K B)
      → IsValid K s.core.engine
      → ((st : Store) → IsServed (k st))
      → IsServed (with_store K B s m o k)
  with_store-IsServed s m none k v h = (v, refl)
  with_store-IsServed s m (some st) k v h = h st

  pub stored_at-IsServed :
      (s : Server K B) (name path : Text) (k : Text → Outcome K B)
      → IsValid K s.core.engine
      → ((path : Text) → IsSound K B (k path))
      → IsServed (stored_at K B s name path k)
  stored_at-IsServed s name [] k v h = (v, refl)
  stored_at-IsServed s name (c ∷ path) k v h =
      answer-IsServed s (lit "stored") (k (c ∷ path)) (h (c ∷ path))

  pub mutate-IsServed :
      (w : World K B) (c : Change Tuber) (n : ℕ) (m : Text) (s : Server K B)
      → IsValid K s.core.engine
      → IsServed (mutate K B w c n m s)
  unfolding mutate
  mutate-IsServed w c n m s v = of_check (with_change (loaded K B w) c s.core.cfg)
    where
      of_reload : (o : Outcome K B) → IsSound K B o → IsServed (reloaded K B w s n m o)
      of_reload (x, none) h = (h.0, refl)
      of_reload (x, some f) h = (h.0, failing-answered 500 f h.1)

      of_patch :
          (p : Checked (Core K B))
          → patch_file K B w c s.core ≡ p
          → IsServed (patched K B w s n m p)
      of_patch (failed e) h = (v, refl)
      of_patch (valid x) h = of_reload (apply_reload K B w x) (
          apply_reload-IsSound K B w x
            (subst (λ e. IsValid K e) (sym (patch_file-engine K B w c s.core x h)) v))

      of_check : (d : Checked Config) → IsServed (checked K B w c s n m d)
      of_check (failed e) = (v, refl)
      of_check (valid d) = of_patch (patch_file K B w c s.core) refl
