-- ===== src/Secret/Memory.antt =====
-- internal/secret/secret.go: MemBackend, the backend that the tests of the program use, as one of the
-- backends of the store. A secret's key in the map is memKey of the service and the key.
use portato.Prelude.{
  ◌≡◌, refl, ◌∙◌, true, Option, none, some, [], ◌∷◌, ◌++◌, Text, text_eq_self, arith,
}
use portato.Prelude.Maps.{Map, lookup, insert, without, lookup-insert, lookup-without}
use portato.Secret.Store.Reads.{get-missing, get-kept}
use portato.Secret.Store.{
  Store, forget, Found, found, not_found, failing, Deletion, deleted, no_entry, not_deleted,
  Backend, new_store, service, get, set, delete,
}

pub record Memory : Type 0 where
  pub secrets : Map (Map Text)
  pub err : Map Text

abbrev pub mem_key : Text → Text → Text
mem_key svc key = svc ++ b'|' ∷ key

unfoldable pub set_error : Text → Text → Option Text → Memory → Memory
set_error svc key none m = record m { err = without (mem_key svc key) m.err }
set_error svc key (some e) m = record m { err = insert (mem_key svc key) e m.err }

abbrev keys_of : Option (Map Text) → Map Text
keys_of none = []
keys_of (some m) = m

abbrev pub found_of : Option Text → Found
found_of none = not_found
found_of (some v) = found v

unfoldable pub mem_get : Text → Text → Memory → Found
mem_get svc key m = elim (lookup (mem_key svc key) m.err) [
  | some e ↦ failing e
  | none ↦ found_of (lookup key (keys_of (lookup svc m.secrets)))
]

unfoldable pub mem_set : Text → Text → Text → Memory → Memory × Option Text
mem_set svc key v m = elim (lookup (mem_key svc key) m.err) [
  | some e ↦ (m, some e)
  | none ↦ (
    record m { secrets = insert svc (insert key v (keys_of (lookup svc m.secrets))) m.secrets },
    none,
  )
]

abbrev delete_found : Text → Text → Memory → Option Text → Memory × Deletion
delete_found svc key m none = (m, no_entry)
delete_found svc key m (some v) = (
  record m { secrets = insert svc (without key (keys_of (lookup svc m.secrets))) m.secrets },
  deleted,
)

unfoldable pub mem_delete : Text → Text → Memory → Memory × Deletion
mem_delete svc key m = elim (lookup (mem_key svc key) m.err) [
  | some e ↦ (m, not_deleted e)
  | none ↦ delete_found svc key m (lookup key (keys_of (lookup svc m.secrets)))
]

abbrev pub memory : Backend
memory = record { Keyring = Memory; get = mem_get; set = mem_set; delete = mem_delete }

mem_get-mem_set :
    (svc key v : Text) (m : Memory)
    → lookup (mem_key svc key) m.err ≡ none
    → mem_get svc key (mem_set svc key v m).0 ≡ found v
unfolding mem_get mem_set
mem_get-mem_set svc key v m works = ground (
  arith,
  works,
  lookup-insert svc svc (insert key v (keys_of (lookup svc m.secrets))) m.secrets,
  lookup-insert key key v (keys_of (lookup svc m.secrets)),
  text_eq_self svc,
  text_eq_self key,
)

mem_get-mem_delete :
    (svc key : Text) (m : Memory)
    → lookup (mem_key svc key) m.err ≡ none
    → mem_get svc key (mem_delete svc key m).0 ≡ not_found
unfolding mem_get mem_delete
mem_get-mem_delete svc key m works = ground (
  arith,
  works,
  lookup-insert svc svc (without key (keys_of (lookup svc m.secrets))) m.secrets,
  lookup-without key key (keys_of (lookup svc m.secrets)),
  text_eq_self svc,
  text_eq_self key,
)

-- A secret that is set with persistence is found again by a new process, and no secret is found
-- after its deletion, whatever the cache held: for a backend that answers without an error.
pub get-set-delete :
    (path v : Text) (k : Memory) (s : Store)
    → lookup (mem_key service path) k.err ≡ none
    → ((get memory path (set memory true path v k s).0.1 new_store).1 ≡ some v)
      × ((get memory path (delete memory path k s).0.1 (delete memory path k s).0.0).1 ≡ none)
unfolding set delete forget
get-set-delete path v k s works = (
  get-kept memory path v (mem_set service path v k).0 new_store (unfold lookup in refl)
      (mem_get-mem_set service path v k works),
  get-missing memory path (mem_delete service path k).0 (forget path s)
      (lookup-without path path s.cache ∙ rw (text_eq_self path) refl)
      (mem_get-mem_delete service path k works),
)
