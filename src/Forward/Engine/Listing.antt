-- ===== src/Forward/Engine/Listing.antt =====
-- The engines that NewEngine builds, and List: internal/forward/engine.go.
use portato.Prelude.{
  ◌≡◌, refl, sym, subst, ◌∙◌, ap, ap₂, true, ◌||◌, none, some, List, [], ◌∷◌, ◌++◌, map, Text,
  text_eq, text_eq_iff, text_eq_self, arith, Bool-cases, Option-cases, inl, inr, append-nil,
  append_assoc,
}
use portato.Prelude.Maps.{Map, lookup, has_key, is_some, lookup-insert}
use portato.Config.Types.{Config, Tuber as TuberConfig, Defaults}
use portato.Forward.Tuberer.{Tuberer}
use portato.Forward.Engine.{
  Engine, Nets, new_engine, add_missing, build_from, list, list_configured, list_others, has_name,
}
use portato.Forward.Engine.Reloading.{reload}
use portato.Forward.Engine.Reload.Names.{last_named, has_name-last_named}
use portato.Forward.Engine.Reload.{IsValid, reload-result, result-is_some}

module _ (K : Tuberer) where
  open K use {T}

  -- Every tuber of the map is one of the list, and the other way round.
  abbrev pub SameNames : List TuberConfig → Map T → Type 0
  SameNames ts m = (name : Text) → has_key name m ≡ has_name name ts

  no_others :
      (ts : List TuberConfig) (m : Map T)
      → ((name : Text) → has_key name m ≡ true → has_name name ts ≡ true)
      → list_others K ts m ≡ []
  unfolding list_others lookup
  no_others ts [] h = refl
  no_others ts ((name, tn) ∷ m) h =
      rw (h name head) (no_others ts m (λ j there. h j (later j there)))
    where
      head : has_key name ((name, tn) ∷ m) ≡ true
      head = ground (arith, text_eq_self name)

      later : (j : Text) → has_key j m ≡ true → has_key j ((name, tn) ∷ m) ≡ true
      later j there = ground arith

  configured_names :
      (ts : List TuberConfig) (m : Map T)
      → ((t : Text) → has_name t ts ≡ true → has_key t m ≡ true)
      → ((name : Text) (tn : T) → lookup name m ≡ some tn → (K.config_of tn).name ≡ name)
      → map (λ s. s.name) (list_configured K ts m) ≡ map (λ t. t.name) ts
  unfolding list_configured
  configured_names [] m h named = refl
  configured_names (t ∷ rest) m h named = elim (Option-cases (lookup t.name m)) [
    | inl gone ↦ absurd (missing gone)
    | inr (tn, here) ↦ rw here (
        ap₂ ◌∷◌ (K.name-status tn ∙ named t.name tn here)
          (configured_names rest m (λ j there. h j (ground arith)) named))
  ]
    where
      missing : lookup t.name m ≡ none → ⊥
      missing gone = ground (arith, h t.name, text_eq_self t.name)

  -- An engine with exactly the tubers of its configuration.
  pub list-names :
      (e : Engine K)
      → IsValid K e
      → SameNames e.cfg.tubers e.tubers
      → map (λ s. s.name) (list K e) ≡ map (λ t. t.name) e.cfg.tubers
  unfolding list
  list-names e v same =
      ap (map (λ s. s.name)) (
        ap (λ l. list_configured K e.cfg.tubers e.tubers ++ l)
          (no_others e.cfg.tubers e.tubers (λ name there. sym (same name) ∙ there))
        ∙ append-nil (list_configured K e.cfg.tubers e.tubers))
      ∙ configured_names e.cfg.tubers e.tubers (λ name there. same name ∙ there) v.named

  -- After a Reload, List has one status for each tuber of the new configuration, in its order and
  -- with its name, and no other.
  pub list-reload :
      (cfg : Config) (ns : Nets K) (e e' : Engine K)
      → IsValid K e
      → reload K cfg ns e ≡ some e'
      → map (λ s. s.name) (list K e') ≡ map (λ t. t.name) cfg.tubers
  list-reload cfg ns e e' v ran =
      let (u, ran', tubers, configs, w, same_cfg) = reload-result K e cfg ns v in
      subst (λ x. map (λ s. s.name) (list K x) ≡ map (λ t. t.name) cfg.tubers)
        (unique u e' (sym ran' ∙ ran))
        (list-names u w (λ name.
            ap is_some (tubers name)
            ∙ result-is_some K e cfg ns v name (last_named name cfg.tubers)
            ∙ sym (has_name-last_named name cfg.tubers)
            ∙ ap (λ (c : Config). has_name name c.tubers) (sym same_cfg))
          ∙ ap (λ (c : Config). map (λ t. t.name) c.tubers) same_cfg)
    where
      unique : (a b : Engine K) → some a ≡ some b → a ≡ b
      unique a b p = cc

  -- The two maps of an engine under construction.
  record Built (ts : List TuberConfig) (m : Map T × Map TuberConfig) : Type 0 where
    built_same : (name : Text) → has_key name m.0 ≡ has_key name m.1
    built_all : (name : Text) → has_key name m.0 ≡ has_name name ts
    built_named : (name : Text) (tn : T) → lookup name m.0 ≡ some tn → (K.config_of tn).name ≡ name

  Built-nil : Built [] ([], [])
  unfolding lookup
  Built-nil = record {
    built_same = λ name. refl;
    built_all = λ name. refl;
    built_named = λ name tn p. cc;
  }

  abbrev snoc : List TuberConfig → TuberConfig → List TuberConfig
  snoc ts t = ts ++ t ∷ []

  has_name-snoc :
      (name : Text) (ts : List TuberConfig) (t : TuberConfig)
      → has_name name (snoc ts t) ≡ (has_name name ts || text_eq t.name name)
  has_name-snoc name [] t = ground arith
  has_name-snoc name (u ∷ ts) t = ground (arith, has_name-snoc name ts t)

  add_missing-Built :
      (d : Defaults) (ts : List TuberConfig) (m : Map T × Map TuberConfig) (t : TuberConfig)
      → Built ts m
      → Built (snoc ts t) (add_missing K d m t)
  unfolding add_missing
  add_missing-Built d ts (tubers, configs) t b = elim (Bool-cases (has_key t.name tubers)) [
    | inl there ↦ rw there (record {
      built_same = b.built_same;
      built_all = λ name. ground (
        arith,
        b.built_all name,
        b.built_all t.name,
        has_name-snoc name ts t,
        text_eq_iff t.name name,
      );
      built_named = b.built_named;
    })
    | inr new ↦ rw new (record {
      built_same = λ name. ground (
        arith,
        b.built_same name,
        lookup-insert t.name name (K.factory t d) tubers,
        lookup-insert t.name name t configs,
      );
      built_all = λ name. ground (
        arith,
        b.built_all name,
        lookup-insert t.name name (K.factory t d) tubers,
        has_name-snoc name ts t,
      );
      built_named = λ name tn p. ground (
        arith,
        b.built_named name tn,
        lookup-insert t.name name (K.factory t d) tubers,
        ap (λ (c : TuberConfig). c.name) (K.config_of-factory t d),
        text_eq_iff t.name name,
      );
    })
  ]

  build_from-Built :
      (d : Defaults) (past ts : List TuberConfig) (m : Map T × Map TuberConfig)
      → Built past m
      → Built (past ++ ts) (build_from K d ts m)
  unfolding build_from
  build_from-Built d past [] m b = rw (append-nil past) b
  build_from-Built d past (t ∷ ts) m b =
      subst (λ l. Built l (build_from K d (t ∷ ts) m)) (append_assoc past (t ∷ []) ts)
        (build_from-Built d (snoc past t) ts (add_missing K d m t) (add_missing-Built d past m t b))

  -- A new engine matches its configuration, and List shows that configuration's names in order.
  pub new_engine-IsValid :
      (cfg : Config)
      → IsValid K (new_engine K cfg)
        × (map (λ s. s.name) (list K (new_engine K cfg)) ≡ map (λ t. t.name) cfg.tubers)
  unfolding new_engine
  new_engine-IsValid cfg =
      let b = build_from-Built cfg.defaults [] cfg.tubers ([], []) Built-nil in
      let v : IsValid K (new_engine K cfg) = record {
        same_names = b.built_same;
        named = b.built_named;
      } in
      (v, list-names (new_engine K cfg) v b.built_all)
