-- ===== src/Forward/Engine/Reload/Outcomes.antt =====
-- What Reload of internal/forward/engine.go makes of each tuber, written out.
use portato.Prelude.{
  ◌≡◌, ◌≢◌, ◌↔◌, refl, sym, subst, ◌⊎◌, inl, inr, Bool, true, false, Option, none, some, List, [],
  ◌∷◌, Text, text_eq_iff, arith, Bool-cases,
}
use portato.Prelude.Maps.{lookup, is_some}
use portato.Config.Types.{
  Config, Tuber as TuberConfig, Defaults, tuber_changed, same_strings, defaults_equal,
}
use portato.Config.Types.Changed.{with_compared, tuber_changed_iff}
use portato.Forward.Tuberer.{Tuberer}
use portato.Forward.Engine.{Engine, Nets}
use portato.Forward.Engine.Reloading.{changed, added, reload}
use portato.Forward.Engine.Reload.{IsValid, result, reload-result}
use portato.Forward.Engine.Reload.Names.{last_named}
use portato.Forward.Engine.Reload.Pass.{updated}

same_strings_iff : (as' bs : List Text) → (same_strings as' bs ≡ true) ↔ (as' ≡ bs)
unfolding same_strings
same_strings_iff [] [] = ground arith
same_strings_iff [] (b ∷ bs) = (λ h. absurd cc, λ h. absurd cc)
same_strings_iff (a ∷ as') [] = (λ h. absurd cc, λ h. absurd cc)
same_strings_iff (a ∷ as') (b ∷ bs) = ground (arith, text_eq_iff a b, same_strings_iff as' bs)

-- The tuber connects as before: at most enabled, the tags, the hops and the identity file of the ssh
-- configuration differ, and the defaults are equal in what Defaults.Equal compares.
abbrev pub ConnectsAsBefore : Defaults → Defaults → TuberConfig → TuberConfig → Type 0
ConnectsAsBefore before defaults old t =
    (with_compared old t ≡ t) × (defaults_equal before defaults ≡ true)

module _ (K : Tuberer) where
  open K use {T, Net}

  -- A new tuber is built, and started if it is enabled.
  abbrev pub IsAdded : Defaults → Net → TuberConfig → T → Type 0
  IsAdded defaults n t y =
      ((t.enabled ≡ true) × (y ≡ (K.start n (K.factory t defaults)).0))
      ⊎ ((t.enabled ≡ false) × (y ≡ K.factory t defaults))

  -- A tuber that was there is reconfigured, or has its metadata updated, or stays.
  abbrev pub IsChanged : Defaults → Defaults → Net → TuberConfig → TuberConfig → T → T → Type 0
  IsChanged before defaults n old t x y =
      ((ConnectsAsBefore before defaults old t → ⊥) × (y ≡ (K.reconfigure t defaults n x).0))
      ⊎ ((ConnectsAsBefore before defaults old t
            × (old.tags ≢ t.tags)
            × (y ≡ K.update_metadata t defaults x))
          ⊎ (ConnectsAsBefore before defaults old t × (old.tags ≡ t.tags) × (y ≡ x)))

  -- From the new configuration of a name, the one before, and the tubers before and after.
  abbrev pub IsReloaded :
      Defaults
      → Defaults
      → Net
      → Option TuberConfig
      → Option TuberConfig
      → Option T
      → Option T
      → Type 0
  IsReloaded before defaults n none old x y = y ≡ none
  IsReloaded before defaults n (some t) none x none = ⊥
  IsReloaded before defaults n (some t) none x (some y) = IsAdded defaults n t y
  IsReloaded before defaults n (some t) (some old) (some x) (some y) =
      IsChanged before defaults n old t x y
  IsReloaded before defaults n (some t) (some old) none y = ⊥
  IsReloaded before defaults n (some t) (some old) (some x) none = ⊥

  added-IsAdded :
      (cfg : Config) (n : Net) (t : TuberConfig) → IsAdded cfg.defaults n t (added K cfg n t)
  unfolding added
  added-IsAdded cfg n t = elim (Bool-cases t.enabled) [
    | inl on ↦ inl (on, rw on refl)
    | inr off ↦ inr (off, rw off refl)
  ]

  changed-IsChanged :
      (before : Defaults) (cfg : Config) (n : Net) (old t : TuberConfig) (x : T)
      → IsChanged before cfg.defaults n old t x (changed K before cfg n old t x)
  unfolding changed
  changed-IsChanged before cfg n old t x = elim (Bool-cases (tuber_changed old t)) [
    | inl differs ↦ inl (
      λ same. absurd (disagree (tuber_changed old t) differs ((tuber_changed_iff old t).1 same.0)),
      rw differs refl,
    )
    | inr same ↦ elim (Bool-cases (defaults_equal before cfg.defaults)) [
      | inr other ↦ inl (
        λ both. absurd (disagree (defaults_equal before cfg.defaults) both.1 other),
        rw (same, other) refl,
      )
      | inl equal ↦ elim (Bool-cases (same_strings old.tags t.tags)) [
        | inl tags ↦ inr (
            inr (
              ((tuber_changed_iff old t).0 same, equal),
              (same_strings_iff old.tags t.tags).0 tags,
              rw (same, equal, tags) refl,
            ))
        | inr tags ↦ inr (
            inl (
              ((tuber_changed_iff old t).0 same, equal),
              λ e. absurd (
                  disagree (same_strings old.tags t.tags) ((same_strings_iff old.tags t.tags).1 e)
                    tags),
              rw (same, equal, tags) refl,
            ))
      ]
    ]
  ]
    where
      disagree : (b : Bool) → b ≡ true → b ≡ false → ⊥
      disagree b p q = ground arith

  module _ (e : Engine K) (cfg : Config) (ns : Nets K) where
    updated-IsReloaded :
        (t : TuberConfig) (name : Text) (old : Option TuberConfig) (x : Option T)
        → is_some x ≡ is_some old
        → IsReloaded e.defaults cfg.defaults
            (ns name)
            (some t)
            old
            x
            (updated K e cfg ns t name old x)
    updated-IsReloaded t name none x h = added-IsAdded cfg (ns name) t
    updated-IsReloaded t name (some old) none h = absurd cc
    updated-IsReloaded t name (some old) (some x) h =
        changed-IsChanged e.defaults cfg (ns name) old t x

    result-IsReloaded :
        (o : Option TuberConfig) (name : Text) (x : Option T)
        → is_some x ≡ is_some (lookup name e.configs)
        → IsReloaded e.defaults cfg.defaults
            (ns name)
            o
            (lookup name e.configs)
            x
            (result K e cfg ns o name x)
    result-IsReloaded none name x h = refl
    result-IsReloaded (some t) name x h = updated-IsReloaded t name (lookup name e.configs) x h

    -- On an engine whose tubers match its configurations Reload does not fail. Afterwards a name
    -- has a tuber exactly if the new configuration has it: a new name's tuber is built, and started
    -- exactly if it is enabled; one that would not connect as before, by its own fields or the
    -- defaults, is reconfigured; one that would and has other tags only has its metadata updated; and
    -- every other one is as it was. A name that is gone has none. The remembered configurations are
    -- the new ones (the last of a name), and the engine matches them again.
    pub reload_lem :
        IsValid K e
        → (e' : Engine K) × (reload K cfg ns e ≡ some e')
          × ((name : Text)
              → IsReloaded e.defaults cfg.defaults
                  (ns name)
                  (last_named name cfg.tubers)
                  (lookup name e.configs)
                  (lookup name e.tubers)
                  (lookup name e'.tubers))
          × ((name : Text) → lookup name e'.configs ≡ last_named name cfg.tubers)
          × IsValid K e'
          × (e'.cfg ≡ cfg)
    reload_lem v =
        let (e', ran, tubers, configs, valid, same) = reload-result K e cfg ns v in
        (
          e',
          ran,
          λ name.
              subst
                (IsReloaded e.defaults cfg.defaults (ns name) (last_named name cfg.tubers)
                  (lookup name e.configs) (lookup name e.tubers))
                (sym (tubers name))
                (result-IsReloaded (last_named name cfg.tubers) name (lookup name e.tubers)
                  (v.same_names name)),
          configs,
          valid,
          same,
        )
