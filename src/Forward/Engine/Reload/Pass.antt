-- ===== src/Forward/Engine/Reload/Pass.antt =====
-- The loop of Reload over the new configurations.
use portato.Prelude.{
  ◌≡◌, refl, sym, subst, ◌∙◌, ap, inl, inr, true, false, Option, none, some, [], ◌∷◌, Text, text_eq,
  text_eq_iff, text_eq_self, arith, if◌then◌else◌, Bool-cases, Option-cases,
}
use portato.Prelude.Maps.{
  Map, lookup, insert, has_key, is_some, update_key, map_option, lookup-insert, lookup-update_key,
  HasDistinctKeys,
}
use portato.Config.Types.{Config, Tuber as TuberConfig}
use portato.Forward.Tuberer.{Tuberer}
use portato.Forward.Engine.{Engine, Nets}
use portato.Forward.Engine.Reloading.{changed, added, reload_one, reload_each}

module _ (K : Tuberer) where
  open K use {T}

  module _ (e : Engine K) (cfg : Config) (ns : Nets K) where
    -- What one name's tuber becomes: from its configuration before and its tuber, by the new one.
    abbrev pub updated : TuberConfig → Text → Option TuberConfig → Option T → Option T
    updated t name none tn = some (added K cfg (ns name) t)
    updated t name (some old) tn = map_option (λ x. changed K e.defaults cfg (ns name) old t x) tn

    abbrev pub target : Option TuberConfig → Text → Option T → Option T
    target none name tn = tn
    target (some t) name tn = updated t name (lookup name e.configs) tn

    -- The pass over one name succeeds where the name was new or its tuber is there, and leaves the
    -- other names alone.
    reload_one_lem :
        (name : Text) (t : TuberConfig) (m : Map T)
        → (has_key name e.configs ≡ true → has_key name m ≡ true)
        → (m' : Map T) × (reload_one K e cfg ns name t m ≡ some m')
          × ((j : Text)
              → lookup j m' ≡ (
                  if text_eq name j
                  then updated t name (lookup name e.configs) (lookup name m)
                  else lookup j m))
    unfolding reload_one
    reload_one_lem name t m h = elim (Option-cases (lookup name e.configs)) [
      | inl new ↦ (
        insert name (added K cfg (ns name) t) m,
        rw (new, reload_one),
        λ j. rw new (lookup-insert name j (added K cfg (ns name) t) m),
      )
      | inr (old, was) ↦ elim (Option-cases (lookup name m)) [
        | inl gone ↦ absurd (absent gone (h (ap is_some was)))
        | inr (tn, here) ↦ (
          update_key name (λ _. changed K e.defaults cfg (ns name) old t tn) m,
          rw (was, reload_one) (rw (here, reload_one)),
          λ j. rw was (
              rw here (
                lookup-update_key name j (λ _. changed K e.defaults cfg (ns name) old t tn) m
                ∙ same_entry j tn _ here)),
        )
      ]
    ]
      where
        same_entry :
            (j : Text) (tn x : T)
            → lookup name m ≡ some tn
            → (if text_eq name j then map_option (λ _. x) (lookup j m) else lookup j m)
              ≡ (if text_eq name j then some x else lookup j m)
        same_entry j tn x here = ground (arith, text_eq_iff name j)

        absent : lookup name m ≡ none → has_key name m ≡ true → ⊥
        absent gone here = ground arith

    head_key :
        (name : Text) (t : TuberConfig) (rest : Map TuberConfig)
        → lookup name ((name, t) ∷ rest) ≡ some t
    unfolding lookup
    head_key name t rest = rw (text_eq_self name)

    tail_key :
        (name j : Text) (t : TuberConfig) (rest : Map TuberConfig)
        → text_eq name j ≡ false
        → lookup j ((name, t) ∷ rest) ≡ lookup j rest
    unfolding lookup
    tail_key name j t rest h = rw h

    not_later :
        (name j : Text) (rest : Map TuberConfig)
        → has_key name rest ≡ false
        → has_key j rest ≡ true
        → text_eq name j ≡ false
    not_later name j rest absent there = ground (arith, text_eq_iff name j)

    none_of : (o : Option TuberConfig) → is_some o ≡ false → o ≡ none
    none_of none h = refl
    none_of (some x) h = cc

    -- The loop succeeds and gives each name of the new set its target.
    pub reload_each_lem :
        (new_set : Map TuberConfig) (m : Map T)
        → HasDistinctKeys new_set
        → ((name : Text)
            → has_key name new_set ≡ true
            → has_key name e.configs ≡ true
            → has_key name m ≡ true)
        → (m' : Map T) × (reload_each K e cfg ns new_set m ≡ some m')
          × ((j : Text) → lookup j m' ≡ target (lookup j new_set) j (lookup j m))
    unfolding reload_each
    reload_each_lem [] m d h = (m, refl, nothing m)
      where
        nothing : (m : Map T) (j : Text) → lookup j m ≡ target (lookup j []) j (lookup j m)
        nothing m j = unfold lookup in refl
    reload_each_lem ((name, t) ∷ rest) m d h =
        let (m₁, e₁, l₁) = reload_one_lem name t m (h name (ap is_some (head_key name t rest))) in
        let (m₂, e₂, l₂) = reload_each_lem rest m₁ d.1 (still m₁ l₁) in
        (
          m₂,
          rw (e₁, reload_each) e₂,
          λ j. elim (Bool-cases (text_eq name j)) [
            | inl same ↦
                subst (λ k. lookup k m₂ ≡ target (lookup k ((name, t) ∷ rest)) k (lookup k m))
                  ((text_eq_iff name j).0 same) (at_name m₁ m₂ (l₁ name) (l₂ name))
            | inr other ↦
                l₂ j
                ∙ ap (target (lookup j rest) j) (l₁ j ∙ rw other)
                ∙ ap (λ o. target o j (lookup j m)) (sym (tail_key name j t rest other))
          ],
        )
      where
        still :
            (m₁ : Map T)
            → ((j : Text)
                → lookup j m₁ ≡ (
                    if text_eq name j
                    then updated t name (lookup name e.configs) (lookup name m)
                    else lookup j m))
            → (j : Text) → has_key j rest ≡ true
            → has_key j e.configs ≡ true
            → has_key j m₁ ≡ true
        still m₁ l₁ j there was =
            let other = not_later name j rest d.0 there in
            ap is_some (l₁ j ∙ rw other)
            ∙ h j (ap is_some (tail_key name j t rest other) ∙ there) was

        at_name :
            (m₁ m₂ : Map T)
            → lookup name m₁ ≡ (
                if text_eq name name
                then updated t name (lookup name e.configs) (lookup name m)
                else lookup name m)
            → lookup name m₂ ≡ target (lookup name rest) name (lookup name m₁)
            → lookup name m₂ ≡ target (lookup name ((name, t) ∷ rest)) name (lookup name m)
        at_name m₁ m₂ e₁ e₂ =
            e₂
            ∙ ap (λ o. target o name (lookup name m₁)) (none_of (lookup name rest) d.0)
            ∙ e₁
            ∙ rw (text_eq_self name)
                (ap (λ o. target o name (lookup name m)) (sym (head_key name t rest)))
