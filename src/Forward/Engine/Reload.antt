-- ===== src/Forward/Engine/Reload.antt =====
-- Reload of internal/forward/engine.go, name by name.
pub mod Names
pub mod Pass
pub mod Outcomes
use portato.Prelude.{
  ℕ, ◌+◌, ◌≡◌, refl, sym, subst, ◌∙◌, ap, ◌⊎◌, inl, inr, Bool, true, false, ◌&&◌, not, Option, none,
  some, List, [], ◌∷◌, ◌++◌, map, Text, text_eq, text_eq_iff, text_eq_self, arith, if◌then◌else◌,
  Bool-cases, Option-cases,
}
use portato.Prelude.Maps.{
  Map, lookup, insert, without, select_keys, has_key, is_some, update_key, map_option,
  lookup-insert, lookup-update_key, lookup-select_keys, HasDistinctKeys, insert-HasDistinctKeys,
}
use portato.Config.Types.{Config, Tuber as TuberConfig, Defaults}
use portato.Forward.Tuberer.{Tuberer}
use portato.Forward.Engine.{Engine, Nets, by_name, has_name}
use portato.Forward.Engine.Reloading.{changed, added, reload_one, reload_each, reload}
use portato.Forward.Engine.Reload.Names.{
  last_named, by_name-HasDistinctKeys, lookup-new_set, last_named-name,
}
use portato.Forward.Engine.Reload.Pass.{updated, target, reload_each_lem}

module _ (K : Tuberer) where
  open K use {T}

  -- The tubers and the remembered configurations have the same names, and each tuber has its own.
  pub record IsValid (e : Engine K) : Type 0 where
    pub same_names : (name : Text) → has_key name e.tubers ≡ has_key name e.configs
    pub named :
        (name : Text) (tn : T) → lookup name e.tubers ≡ some tn → (K.config_of tn).name ≡ name

  module _ (e : Engine K) (cfg : Config) (ns : Nets K) where
    -- What a name's tuber is after the reload.
    abbrev pub result : Option TuberConfig → Text → Option T → Option T
    result none name tn = none
    result (some t) name tn = updated K e cfg ns t name (lookup name e.configs) tn

    abbrev new_set : Map TuberConfig
    new_set = by_name cfg.tubers []

    abbrev kept : Map T
    kept = select_keys (λ name. has_key name new_set) e.tubers

    kept-has_key :
        IsValid e
        → (name : Text) → has_key name new_set ≡ true
        → has_key name e.configs ≡ true
        → has_key name kept ≡ true
    kept-has_key v name new was =
        ap is_some (lookup-select_keys (λ k. has_key k new_set) name e.tubers ∙ rw new)
        ∙ v.same_names name
        ∙ was

    of_kept :
        (o : Option TuberConfig) (name : Text) (x : Option T)
        → target K e cfg ns o name (if is_some o then x else none) ≡ result o name x
    of_kept none name x = refl
    of_kept (some t) name x = refl

    target-result :
        (name : Text)
        → target K e cfg ns (lookup name new_set) name (lookup name kept)
          ≡ result (last_named name cfg.tubers) name (lookup name e.tubers)
    target-result name =
        ap (target K e cfg ns (lookup name new_set) name)
          (lookup-select_keys (λ k. has_key k new_set) name e.tubers)
        ∙ of_kept (lookup name new_set) name (lookup name e.tubers)
        ∙ ap (λ o. result o name (lookup name e.tubers)) (lookup-new_set name cfg.tubers)

    -- Each name of the new configuration has a tuber, with that name.
    pub result-is_some :
        IsValid e
        → (name : Text) (o : Option TuberConfig)
        → is_some (result o name (lookup name e.tubers)) ≡ is_some o
    result-is_some v name none = refl
    result-is_some v name (some t) =
        updated_is_some (lookup name e.configs) (lookup name e.tubers) (v.same_names name)
      where
        updated_is_some :
            (old : Option TuberConfig) (tn : Option T)
            → is_some tn ≡ is_some old
            → is_some (updated K e cfg ns t name old tn) ≡ true
        updated_is_some none tn h = refl
        updated_is_some (some old) none h = cc
        updated_is_some (some old) (some x) h = refl

    changed-named :
        (name : Text) (old t : TuberConfig) (tn : T)
        → t.name ≡ name
        → (K.config_of tn).name ≡ name
        → (K.config_of (changed K e.defaults cfg (ns name) old t tn)).name ≡ name
    unfolding changed
    changed-named name old t tn h k = ground (
      arith,
      ap (λ (c : TuberConfig). c.name) (K.config_of-reconfigure t cfg.defaults (ns name) tn),
      ap (λ (c : TuberConfig). c.name) (K.config_of-update_metadata t cfg.defaults tn),
    )

    added-named :
        (name : Text) (t : TuberConfig)
        → t.name ≡ name
        → (K.config_of (added K cfg (ns name) t)).name ≡ name
    unfolding added
    added-named name t h = ground (
      arith,
      ap (λ (c : TuberConfig). c.name) (K.config_of-start (ns name) (K.factory t cfg.defaults)),
      ap (λ (c : TuberConfig). c.name) (K.config_of-factory t cfg.defaults),
    )

    updated-named :
        (name : Text) (t : TuberConfig) (old : Option TuberConfig) (tn : Option T) (x : T)
        → t.name ≡ name
        → ((y : T) → tn ≡ some y → (K.config_of y).name ≡ name)
        → updated K e cfg ns t name old tn ≡ some x
        → (K.config_of x).name ≡ name
    updated-named name t none tn x h k p =
        subst (λ y. (K.config_of y).name ≡ name) (cc p) (added-named name t h)
    updated-named name t (some old) none x h k p = cc
    updated-named name t (some old) (some y) x h k p =
        subst (λ z. (K.config_of z).name ≡ name) (cc p) (changed-named name old t y h (k y refl))

    result-named :
        IsValid e
        → (name : Text) (o : Option TuberConfig) (x : T)
        → ((t : TuberConfig) → o ≡ some t → t.name ≡ name)
        → result o name (lookup name e.tubers) ≡ some x
        → (K.config_of x).name ≡ name
    result-named v name none x h p = cc
    result-named v name (some t) x h p =
        updated-named name t (lookup name e.configs) (lookup name e.tubers) x (h t refl)
          (v.named name) p

    -- On an engine whose tubers match its configurations Reload does not fail. Each name then has its
    -- `result`, the remembered configurations are the new ones (the last of a name), and the engine
    -- matches them again.
    pub reload-result :
        IsValid e
        → (e' : Engine K) × (reload K cfg ns e ≡ some e')
          × ((name : Text)
              → lookup name e'.tubers
                ≡ result (last_named name cfg.tubers) name (lookup name e.tubers))
          × ((name : Text) → lookup name e'.configs ≡ last_named name cfg.tubers)
          × IsValid e'
          × (e'.cfg ≡ cfg)
    unfolding reload
    reload-result v =
        let (m, ran, each) =
          reload_each_lem K e cfg ns new_set kept (by_name-HasDistinctKeys cfg.tubers [] tt)
            (kept-has_key v) in
        let tubers : (name : Text)
            → lookup name m ≡ result (last_named name cfg.tubers) name (lookup name e.tubers) =
          λ name. each name ∙ target-result name in
        (
          record {
            cfg = cfg;
            defaults = cfg.defaults;
            tubers = m;
            configs = new_set;
            notified = e.notified + 1;
          },
          rw ran,
          tubers,
          λ name. lookup-new_set name cfg.tubers,
          record {
            same_names = λ name.
                ap is_some (tubers name)
                ∙ result-is_some v name (last_named name cfg.tubers)
                ∙ sym (ap is_some (lookup-new_set name cfg.tubers));
            named = λ name tn p.
                result-named v name (last_named name cfg.tubers) tn
                  (last_named-name name cfg.tubers) (sym (tubers name) ∙ p);
          },
          refl,
        )
