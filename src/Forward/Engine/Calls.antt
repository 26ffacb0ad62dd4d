-- ===== src/Forward/Engine/Calls.antt =====
-- The calls on one tuber of internal/forward/engine.go, Enable, Disable and Restart, and the engine
-- after them.
use portato.Prelude.{
  ◌≡◌, refl, sym, ap, ◌∙◌, Bool, true, false, Option, none, some, Text, text_eq, text_eq_iff, arith,
  if◌then◌else◌, Option-cases, inl, inr,
}
use portato.Prelude.Maps.{lookup, is_some, map_option, lookup-update_key}
use portato.Forward.Tuberer.{Tuberer}
use portato.Forward.Engine.{Engine, enable, disable, restart, call, preflight_local_port}
use portato.Forward.Engine.Reload.{IsValid}

module _ (K : Tuberer) where
  open K use {T, Net}

  -- The tuber of a name is replaced by one with the same configuration.
  call-IsValid :
      (e : Engine K) (name : Text) (tn : T) (r : T × Option Text)
      → IsValid K e
      → lookup name e.tubers ≡ some tn
      → K.config_of r.0 ≡ K.config_of tn
      → IsValid K (call K e name r).0
  call-IsValid e name tn r v here same = record {
    same_names = λ k.
        ap is_some (lookup-update_key name k (λ _. r.0) e.tubers)
        ∙ kept (text_eq name k) (lookup k e.tubers)
        ∙ v.same_names k;
    named = λ k x found. by_case k x (sym (lookup-update_key name k (λ _. r.0) e.tubers) ∙ found);
  }
    where
      kept :
          (b : Bool) (o : Option T) → is_some (if b then map_option (λ _. r.0) o else o) ≡ is_some o
      kept true none = refl
      kept true (some x) = refl
      kept false o = refl

      by_case :
          (k : Text) (x : T)
          → (if text_eq name k
              then map_option (λ _. r.0) (lookup k e.tubers)
              else lookup k e.tubers)
            ≡ some x
          → (K.config_of x).name ≡ k
      by_case k x h =
          ground (arith, text_eq_iff name k, v.named k x, v.named name tn here, same, here)

  pub enable-IsValid :
      (n : Net) (name : Text) (e : Engine K) → IsValid K e → IsValid K (enable K n name e).0
  unfolding enable
  enable-IsValid n name e v = elim (Option-cases (lookup name e.tubers)) [
    | inl gone ↦ rw (enable, gone) v
    | inr (tn, here) ↦ elim (Option-cases (preflight_local_port K e name)) [
      | inr (error, taken) ↦ rw (enable, here, taken) v
      | inl free ↦
          rw (enable, here, free)
            (call-IsValid e name tn (K.start n tn) v here (K.config_of-start n tn))
    ]
  ]

  pub disable-IsValid : (name : Text) (e : Engine K) → IsValid K e → IsValid K (disable K name e).0
  unfolding disable
  disable-IsValid name e v = elim (Option-cases (lookup name e.tubers)) [
    | inl gone ↦ rw (disable, gone) v
    | inr (tn, here) ↦
        rw (disable, here) (call-IsValid e name tn (K.stop tn, none) v here (K.config_of-stop tn))
  ]

  pub restart-IsValid :
      (n : Net) (name : Text) (e : Engine K) → IsValid K e → IsValid K (restart K n name e).0
  unfolding restart
  restart-IsValid n name e v = elim (Option-cases (lookup name e.tubers)) [
    | inl gone ↦ rw (restart, gone) v
    | inr (tn, here) ↦
        rw (restart, here)
          (call-IsValid e name tn (K.restart n tn) v here (K.config_of-restart n tn))
  ]
