-- ===== src/Forward/Engine/Preflight.antt =====
-- internal/forward/engine.go: Enable, with the check of preflightLocalPort.
use portato.Prelude.{
  ◌≡◌, ◌≢◌, sym, ap, ◌∙◌, ◌⊎◌, inl, inr, false, Option, none, some, [], ◌∷◌, Text, text_eq,
  text_eq_iff, text_eq_self, arith, Option-cases,
}
use portato.Prelude.Maps.{Map, lookup, HasDistinctKeys}
use portato.Prelude.Int.{ℤ, pos, eqb_ℤ, eqb_ℤ_iff}
use portato.Config.Types.{Tuber as TuberConfig}
use portato.Config.Ports.{local_port}
use portato.Forward.Tuber.{is_remote}
use portato.Forward.Tuberer.{Tuberer}
use portato.Forward.Engine.{
  Engine, EngineError, port_in_use, port_holder, preflight_local_port, enable, call,
}

module _ (K : Tuberer) where
  open K use {T, Net}

  -- Another tuber whose live listener has the port.
  pub record Holder (port : ℤ) (name : Text) (m : Map T) (other : Text) : Type 0 where
    pub holder : T
    pub found : lookup other m ≡ some holder
    pub differs : text_eq other name ≡ false
    pub live : K.live_local_port holder ≡ some port

  -- No other tuber has the port.
  abbrev pub IsFree : ℤ → Text → Map T → Type 0
  IsFree port name m =
      (other : Text) (tn : T)
      → lookup other m ≡ some tn
      → text_eq other name ≡ false
      → K.live_local_port tn ≢ some port

  port_holder-none :
      (port : ℤ) (name : Text) (m : Map T) (other : Text) (tn : T)
      → port_holder K port name m ≡ none
      → lookup other m ≡ some tn
      → text_eq other name ≡ false
      → K.live_local_port tn ≡ some port
      → ⊥
  unfolding port_holder lookup
  port_holder-none port name [] other tn h found differs live = cc
  port_holder-none port name ((k, v) ∷ m) other tn h found differs live =
      ground
        (arith, port_holder-none port name m other tn, text_eq_iff k other, eqb_ℤ_iff port port)

  abbrev live_of : Option T → Option ℤ
  live_of none = none
  live_of (some tn) = K.live_local_port tn

  port_holder-some :
      (port : ℤ) (name : Text) (m : Map T) (other : Text)
      → HasDistinctKeys m
      → port_holder K port name m ≡ some other
      → (text_eq other name ≡ false) × (live_of (lookup other m) ≡ some port)
  unfolding port_holder lookup
  port_holder-some port name [] other d h = absurd cc
  port_holder-some port name ((k, v) ∷ m) other d h =
      ground (
        arith,
        port_holder-some port name m other d.1,
        text_eq_iff k other,
        text_eq_self other,
        d.0,
      )

  port_holder-Holder :
      (port : ℤ) (name : Text) (m : Map T) (other : Text)
      → HasDistinctKeys m
      → port_holder K port name m ≡ some other
      → Holder port name m other
  port_holder-Holder port name m other d h = elim (Option-cases (lookup other m)) [
    | inl gone ↦ absurd (ground (arith, port_holder-some port name m other d h))
    | inr (tn, here) ↦ record {
      holder = tn;
      found = here;
      differs = (port_holder-some port name m other d h).0;
      live = sym (ap live_of here) ∙ (port_holder-some port name m other d h).1;
    }
  ]

  -- What Enable does with the holder that it finds.
  abbrev answer :
      Engine K → Text → ℤ → T × Option Text → Option Text → Engine K × Option EngineError
  answer e name port started none = call K e name started
  answer e name port started (some other) = (e, some (port_in_use port other))

  enable-answer :
      (e : Engine K) (n : Net) (name : Text) (tn : T) (cfg : TuberConfig) (port : ℤ)
      → lookup name e.tubers ≡ some tn
      → lookup name e.configs ≡ some cfg
      → is_remote cfg ≡ false
      → local_port cfg.local ≡ some port
      → eqb_ℤ port (pos 0) ≡ false
      → enable K n name e ≡ answer e name port (K.start n tn) (port_holder K port name e.tubers)
  unfolding enable preflight_local_port
  enable-answer e n name tn cfg port there known here fixed nonzero = ground arith

  -- Enable of a local or dynamic tuber with a fixed port starts it exactly if no other tuber's live
  -- listener has the port; else it changes nothing and its error names the port and such a tuber.
  pub enable-port :
      (e : Engine K) (n : Net) (name : Text) (tn : T) (cfg : TuberConfig) (port : ℤ)
      → HasDistinctKeys e.tubers
      → lookup name e.tubers ≡ some tn
      → lookup name e.configs ≡ some cfg
      → is_remote cfg ≡ false
      → local_port cfg.local ≡ some port
      → port ≢ pos 0
      → (IsFree port name e.tubers × (enable K n name e ≡ call K e name (K.start n tn)))
        ⊎ ((other : Text) × Holder port name e.tubers other
            × (enable K n name e ≡ (e, some (port_in_use port other))))
  enable-port e n name tn cfg port d there known here fixed nonzero =
      elim (Option-cases (port_holder K port name e.tubers)) [
        | inl free ↦ inl (
          (λ other t. port_holder-none port name e.tubers other t free),
          answered ∙ ap (answer e name port (K.start n tn)) free,
        )
        | inr (other, held) ↦ inr (
          other,
          port_holder-Holder port name e.tubers other d held,
          answered ∙ ap (answer e name port (K.start n tn)) held,
        )
      ]
    where
      not_zero : eqb_ℤ port (pos 0) ≡ false
      not_zero = ground (arith, eqb_ℤ_iff port (pos 0), nonzero)

      answered :
          enable K n name e ≡ answer e name port (K.start n tn) (port_holder K port name e.tubers)
      answered = enable-answer e n name tn cfg port there known here fixed not_zero
