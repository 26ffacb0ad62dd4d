-- ===== src/Secret/Store.antt =====
-- internal/secret/secret.go: the cache of secrets, its waiters and the keyring behind it. Each
-- function that runs under the store's mutex is one step; Get, Wait, Set and Delete are sequences of
-- steps and of calls of the keyring. A channel is the number of its `make`; closing it is what Set
-- does to wake the dial that waits on it.
pub mod Reads
pub mod Waiters
pub mod Wakes
pub mod Races
use portato.Prelude.{
  ℕ, suc, ◌+◌, ◌≡◌, Bool, true, false, Option, none, some, List, [], ◌∷◌, ◌++◌, Text, lit, is_empty,
  ◌==◌, if◌then◌else◌,
}
use portato.Prelude.Maps.{Map, lookup, insert, without}

pub record Store : Type 0 where
  pub cache : Map Text
  pub waiters : Map (List ℕ)
  -- the channels that Set has closed, and the number of the channels made
  pub closed : List ℕ
  pub made : ℕ

abbrev pub new_store : Store
new_store = record { cache = []; waiters = []; closed = []; made = 0 }

abbrev pub waiting_at : Option (List ℕ) → List ℕ
waiting_at none = []
waiting_at (some chs) = chs

-- s.waiters[path], the nil slice when it is not there
abbrev pub waiting_on : Text → Store → List ℕ
waiting_on path s = waiting_at (lookup path s.waiters)

-- Get's first step.
abbrev pub cached : Text → Store → Option Text
cached path s = lookup path s.cache

-- Get's last step, when the keyring had the value.
unfoldable pub fill : Text → Text → Store → Store
fill path v s = record s { cache = insert path v s.cache }

-- Wait's registration of the channel that it has made.
unfoldable pub register : Text → Store → Store
register path s = record s {
  waiters = insert path (waiting_on path s ++ s.made ∷ []) s.waiters;
  made = suc s.made;
}

-- The first occurrence goes.
unfoldable pub remove_channel : ℕ → List ℕ → List ℕ
remove_channel ch [] = []
remove_channel ch (w ∷ ws) = let rest = remove_channel ch ws in if w == ch then ws else w ∷ rest

abbrev pub is_none : List ℕ → Bool
is_none [] = true
is_none (w ∷ ws) = false

abbrev pub put_waiters : Text → List ℕ → Map (List ℕ) → Map (List ℕ)
put_waiters path chs m = if is_none chs then without path m else insert path chs m

unfoldable pub remove_waiter : Text → ℕ → Store → Store
unfolding remove_channel
remove_waiter path ch s = record s {
  waiters = put_waiters path (remove_channel ch (waiting_on path s)) s.waiters;
}

unfoldable pub set_cache_and_wake : Text → Text → Store → Store
set_cache_and_wake path v s = record s {
  cache = insert path v s.cache;
  waiters = without path s.waiters;
  closed = waiting_on path s ++ s.closed;
}

-- Delete's step on the cache.
unfoldable pub forget : Text → Store → Store
forget path s = record s { cache = without path s.cache }

pub data Step : Type 0 where
  filled : Text → Text → Step
  registered : Text → Step
  removed : Text → ℕ → Step
  woken : Text → Text → Step
  forgotten : Text → Step

unfoldable pub apply : Step → Store → Store
unfolding fill register remove_waiter set_cache_and_wake forget
apply (filled path v) s = fill path v s
apply (registered path) s = register path s
apply (removed path ch) s = remove_waiter path ch s
apply (woken path v) s = set_cache_and_wake path v s
apply (forgotten path) s = forget path s

-- Any order in which the goroutines take the mutex.
unfoldable pub run : List Step → Store → Store
unfolding apply
run [] s = s
run (e ∷ es) s = run es (apply e s)

-- The keyring's answers: a value, no entry, or another failure.
pub data Found : Type 0 where
  found : Text → Found
  not_found : Found
  failing : Text → Found

pub data Deletion : Type 0 where
  deleted : Deletion
  no_entry : Deletion
  not_deleted : Text → Deletion

-- The interface Backend.
pub record Backend : Type 1 where
  pub Keyring : Type 0
  pub get : Text → Text → Keyring → Found
  pub set : Text → Text → Text → Keyring → Keyring × Option Text
  pub delete : Text → Text → Keyring → Keyring × Deletion

abbrev pub service : Text
service = lit "portato"

pub data StoreError : Type 0 where
  keyring_set : Text → Text → StoreError
  keyring_delete : Text → Text → StoreError

module _ (B : Backend) where
  open B use {Keyring}

  abbrev after_read : Text → Store → Found → Store × Option Text
  after_read path s (found v) = (fill path v s, some v)
  after_read path s not_found = (s, none)
  after_read path s (failing e) = (s, none)

  -- Get, when no other goroutine takes the mutex in between; `none` for ok = false
  unfoldable pub get : Text → Keyring → Store → Store × Option Text
  unfolding fill
  get path k s = elim (cached path s) [
    | some v ↦ (s, some v)
    | none ↦ after_read path s (B.get service path k)
  ]

  abbrev set_error : Text → Option Text → Option StoreError
  set_error path none = none
  set_error path (some e) = some (keyring_set path e)

  -- `persist` is what the closure answers.
  unfoldable pub set : Bool → Text → Text → Keyring → Store → (Store × Keyring) × Option StoreError
  unfolding set_cache_and_wake
  set persist path v k s =
      let (k', e) = if persist then B.set service path v k else (k, none) in
      ((set_cache_and_wake path v s, k'), set_error path e)

  abbrev delete_error : Text → Deletion → Option StoreError
  delete_error path deleted = none
  delete_error path no_entry = none
  delete_error path (not_deleted e) = some (keyring_delete path e)

  unfoldable pub delete : Text → Keyring → Store → (Store × Keyring) × Option StoreError
  unfolding forget
  delete path k s =
      let (k', e) = B.delete service path k in ((forget path s, k'), delete_error path e)

  -- Wait up to its select: the value, or the channel that it waits on.
  unfoldable pub wait_begin : Text → Keyring → Store → Store × (Option Text × Option ℕ)
  unfolding get register
  wait_begin path k s =
      let (s', v) = get path k s in
      elim v [ some x ↦ (s', (some x, none)) | none ↦ (register path s', (none, some s'.made)) ]

  -- Wait after its select: `closed` says which case was ready.
  unfoldable pub wait_end : Text → ℕ → Bool → Keyring → Store → Store × Option Text
  unfolding get remove_waiter
  wait_end path ch closed k s =
      let (s', v) = get path k s in
      if closed then (remove_waiter path ch s', v) else (remove_waiter path ch s, none)
