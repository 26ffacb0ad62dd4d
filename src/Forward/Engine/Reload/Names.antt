-- ===== src/Forward/Engine/Reload/Names.antt =====
-- The configurations that Reload works on: the last of each name.
use portato.Prelude.{
  ◌≡◌, refl, ◌∙◌, Option, none, some, List, [], ◌∷◌, Text, text_eq, text_eq_iff, arith,
  if◌then◌else◌,
}
use portato.Prelude.Maps.{
  Map, lookup, insert, is_some, lookup-insert, HasDistinctKeys, insert-HasDistinctKeys,
}
use portato.Config.Types.{Tuber as TuberConfig}
use portato.Forward.Engine.{by_name, has_name}

pub by_name-HasDistinctKeys :
    (ts : List TuberConfig) (m : Map TuberConfig)
    → HasDistinctKeys m
    → HasDistinctKeys (by_name ts m)
unfolding by_name
by_name-HasDistinctKeys [] m h = h
by_name-HasDistinctKeys (t ∷ rest) m h =
    by_name-HasDistinctKeys rest (insert t.name t m) (insert-HasDistinctKeys t.name t m h)

-- The configuration of a name: the last tuber that has it.
abbrev later_or : Option TuberConfig → Option TuberConfig → Option TuberConfig
later_or none o = o
later_or (some t) o = some t

unfoldable pub last_named : Text → List TuberConfig → Option TuberConfig
last_named name [] = none
last_named name (t ∷ rest) =
    later_or (last_named name rest) (if text_eq t.name name then some t else none)

later_or_assoc :
    (a b c : Option TuberConfig) → later_or a (later_or b c) ≡ later_or (later_or a b) c
later_or_assoc none b c = refl
later_or_assoc (some x) b c = refl

lookup-by_name :
    (name : Text) (ts : List TuberConfig) (m : Map TuberConfig)
    → lookup name (by_name ts m) ≡ later_or (last_named name ts) (lookup name m)
unfolding by_name last_named
lookup-by_name name [] m = refl
lookup-by_name name (t ∷ rest) m =
    lookup-by_name name rest (insert t.name t m)
    ∙ ground (
      arith,
      lookup-insert t.name name t m,
      later_or_assoc (last_named name rest) (if text_eq t.name name then some t else none)
          (lookup name m),
    )

pub lookup-new_set :
    (name : Text) (ts : List TuberConfig) → lookup name (by_name ts []) ≡ last_named name ts
lookup-new_set name ts = lookup-by_name name ts [] ∙ later_or_none (last_named name ts)
  where
    later_or_none : (a : Option TuberConfig) → later_or a (lookup name []) ≡ a
    later_or_none none = unfold lookup in refl
    later_or_none (some x) = refl

pub last_named-name :
    (name : Text) (ts : List TuberConfig) (t : TuberConfig)
    → last_named name ts ≡ some t
    → t.name ≡ name
unfolding last_named
last_named-name name [] t h = cc
last_named-name name (u ∷ rest) t h =
    ground (arith, last_named-name name rest t, text_eq_iff u.name name)

pub has_name-last_named :
    (name : Text) (ts : List TuberConfig) → has_name name ts ≡ is_some (last_named name ts)
unfolding last_named
has_name-last_named name [] = refl
has_name-last_named name (t ∷ rest) = ground (arith, has_name-last_named name rest)
