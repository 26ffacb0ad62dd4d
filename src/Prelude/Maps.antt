-- ===== src/Prelude/Maps.antt =====
-- Go maps keyed by strings, as association lists; every law is in `if` form.
use mathlib.Core.Path.{◌≡◌, refl}
use mathlib.Core.Bool.{Bool, true, false}
use mathlib.Core.List.{List, [], ◌∷◌}
use mathlib.Core.Option.{Option, none, some}
use native.Mathlib.Omega.{arith}
use portato.Prelude.Tests.{if◌then◌else◌}
use portato.Prelude.Texts.{Text, text_eq, text_eq_iff, text_eq_self}

abbrev pub Map {ℓ} : Type ℓ → Type ℓ
Map V = List (Text × V)

abbrev pub is_some {ℓ} : {A : Type ℓ} → Option A → Bool
is_some none = false
is_some (some a) = true

module _ {ℓ} {V : Type ℓ} where
  unfoldable pub lookup : Text → Map V → Option V
  lookup k [] = none
  lookup k ((j, v) ∷ m) = if text_eq j k then some v else lookup k m

  unfoldable pub without : Text → Map V → Map V
  without k [] = []
  without k ((j, v) ∷ m) = let rest = without k m in if text_eq j k then rest else (j, v) ∷ rest

  -- m[k] = v
  unfoldable pub insert : Text → V → Map V → Map V
  unfolding without
  insert k v m = (k, v) ∷ without k m

  pub lookup-without :
      (k j : Text) (m : Map V) → lookup j (without k m) ≡ (if text_eq k j then none else lookup j m)
  unfolding lookup without
  lookup-without k j [] = ground arith
  lookup-without k j ((i, v) ∷ m) =
      ground (arith, lookup-without k j m, text_eq_iff i k, text_eq_iff i j, text_eq_iff k j)

  pub lookup-insert :
      (k j : Text) (v : V) (m : Map V)
      → lookup j (insert k v m) ≡ (if text_eq k j then some v else lookup j m)
  unfolding lookup insert
  lookup-insert k j v m = ground (arith, lookup-without k j m)

  -- for k, v := range m { m[k] = f k v }
  unfoldable pub map_values : (Text → V → V) → Map V → Map V
  map_values f [] = []
  map_values f ((k, v) ∷ m) = (k, f k v) ∷ map_values f m

  -- The entries whose key passes a test.
  unfoldable pub select_keys : (Text → Bool) → Map V → Map V
  select_keys p [] = []
  select_keys p ((k, v) ∷ m) = let rest = select_keys p m in if p k then (k, v) ∷ rest else rest

  abbrev pub has_key : Text → Map V → Bool
  has_key k m = is_some (lookup k m)

  -- m[k] = f(m[k]), where k is there
  unfoldable pub update_key : Text → (V → V) → Map V → Map V
  update_key k f [] = []
  update_key k f ((j, v) ∷ m) = if text_eq j k then (j, f v) ∷ m else (j, v) ∷ update_key k f m

  abbrev pub map_option : (V → V) → Option V → Option V
  map_option f none = none
  map_option f (some v) = some (f v)

  pub lookup-update_key :
      (k j : Text) (f : V → V) (m : Map V)
      → lookup j (update_key k f m)
        ≡ (if text_eq k j then map_option f (lookup j m) else lookup j m)
  unfolding lookup update_key
  lookup-update_key k j f [] = ground arith
  lookup-update_key k j f ((i, v) ∷ m) =
      ground (arith, lookup-update_key k j f m, text_eq_iff i k, text_eq_iff i j, text_eq_iff k j)

  pub lookup-map_values :
      (f : Text → V → V) (k : Text) (m : Map V)
      → lookup k (map_values f m) ≡ map_option (f k) (lookup k m)
  unfolding lookup map_values
  lookup-map_values f k [] = refl
  lookup-map_values f k ((j, v) ∷ m) = ground (arith, lookup-map_values f k m, text_eq_iff j k)

  pub lookup-select_keys :
      (p : Text → Bool) (k : Text) (m : Map V)
      → lookup k (select_keys p m) ≡ (if p k then lookup k m else none)
  unfolding lookup select_keys
  lookup-select_keys p k [] = ground arith
  lookup-select_keys p k ((j, v) ∷ m) = ground (arith, lookup-select_keys p k m, text_eq_iff j k)

  -- No key stands twice.
  abbrev pub HasDistinctKeys : Map V → Type 0
  HasDistinctKeys [] = Unit {0}
  HasDistinctKeys ((k, v) ∷ m) = (has_key k m ≡ false) × HasDistinctKeys m

  pub without-HasDistinctKeys :
      (k : Text) (m : Map V) → HasDistinctKeys m → HasDistinctKeys (without k m)
  unfolding without
  without-HasDistinctKeys k [] h = tt
  without-HasDistinctKeys k ((j, v) ∷ m) h =
      ground (arith, lookup-without k j m, without-HasDistinctKeys k m)

  pub insert-HasDistinctKeys :
      (k : Text) (v : V) (m : Map V) → HasDistinctKeys m → HasDistinctKeys (insert k v m)
  unfolding insert
  insert-HasDistinctKeys k v m h =
      (ground (arith, lookup-without k k m, text_eq_self k), without-HasDistinctKeys k m h)
