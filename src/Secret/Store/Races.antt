-- ===== src/Secret/Store/Races.antt =====
-- Orders of the steps of internal/secret/secret.go in which a Set falls between the steps of a Wait.
use portato.Prelude.{
  ℕ, suc, ◌≡◌, ◌≤◌, refl, ◌∙◌, Bool, true, false, not, some, List, [], ◌∷◌, ◌++◌, all, Text,
  text_eq, text_eq_iff, text_eq_self, arith,
}
use portato.Prelude.Maps.{Map, lookup, lookup-insert, lookup-without}
use portato.Secret.Store.{
  Store, waiting_at, waiting_on, cached, fill, register, remove_channel, remove_waiter,
  set_cache_and_wake, forget, Step, filled, registered, removed, woken, forgotten, apply, run,
}
use portato.Secret.Store.Waiters.{
  count, count-append, waiting, IsValid, apply-IsValid, count-remove_channel,
}
use portato.Secret.Store.Wakes.{lookup-put_waiters}

-- No Set of the path.
abbrev pub is_not_set : Text → Step → Bool
is_not_set path (woken p v) = not (text_eq p path)
is_not_set path _ = true

-- The channel was made, is open, and waits on no other path.
abbrev IsOpen : Text → ℕ → Store → Type 0
IsOpen path ch s =
    (suc ch ≤ s.made)
    × (count ch s.closed ≡ 0)
    × ((k : Text) → text_eq k path ≡ false → count ch (waiting_on k s) ≡ 0)

apply-IsOpen :
    (path : Text) (ch : ℕ) (e : Step) (s : Store)
    → is_not_set path e ≡ true
    → IsOpen path ch s
    → IsOpen path ch (apply e s)
unfolding apply fill forget register remove_waiter set_cache_and_wake
apply-IsOpen path ch (filled p v) s h o = o
apply-IsOpen path ch (forgotten p) s h o = o
apply-IsOpen path ch (registered p) s h o = (
  omega arith,
  o.1,
  λ k other. ground (
    arith,
    lookup-insert p k (waiting_on p s ++ s.made ∷ []) s.waiters,
    count-append ch (waiting_on p s) (s.made ∷ []),
    text_eq_iff p k,
    o.2 k other,
  ),
)
apply-IsOpen path ch (removed p x) s h o = (
  omega arith,
  o.1,
  λ k other. ground (
    arith,
    lookup-put_waiters p k (remove_channel x (waiting_on p s)) s.waiters,
    count-remove_channel ch x (waiting_on p s),
    text_eq_iff p k,
    o.2 k other,
  ),
)
apply-IsOpen path ch (woken p v) s h o = (
  omega arith,
  ground (arith, count-append ch (waiting_on p s) s.closed, o.2 p (ground arith)),
  λ k other. ground (arith, lookup-without p k s.waiters, o.2 k other),
)

run-IsOpen :
    (path : Text) (ch : ℕ) (es : List Step) (s : Store)
    → all (is_not_set path) es ≡ true
    → IsOpen path ch s
    → IsOpen path ch (run es s)
unfolding run
run-IsOpen path ch [] s h o = o
run-IsOpen path ch (e ∷ es) s h o =
    run-IsOpen path ch es (apply e s) (ground arith) (apply-IsOpen path ch e s (ground arith) o)

count-lookup :
    (ch : ℕ) (k : Text) (m : Map (List ℕ)) → count ch (waiting_at (lookup k m)) ≤ waiting ch m
unfolding lookup waiting
count-lookup ch k [] = omega arith
count-lookup ch k ((j, ws) ∷ m) = ground (arith, count-lookup ch k m)

register-IsOpen : (path : Text) (s : Store) → IsValid s → IsOpen path s.made (register path s)
unfolding register
register-IsOpen path s h = (
  omega arith,
  omega (arith, h.2 s.made (omega arith)),
  λ k other. ground (
    arith,
    lookup-insert path k (waiting_on path s ++ s.made ∷ []) s.waiters,
    text_eq_iff path k,
    text_eq_iff k path,
    count-lookup s.made k s.waiters,
    h.2 s.made (omega arith),
  ),
)

-- A Set that falls between Wait's look into the cache and the registration of its channel does not
-- wake the dial: in any valid store, the value is there, but the channel stays open through all
-- later steps up to another Set of the same path.
pub register-after-set :
    (path v : Text) (es : List Step) (s : Store)
    → IsValid s
    → all (is_not_set path) es ≡ true
    → (cached path (register path (set_cache_and_wake path v s)) ≡ some v)
      × (count s.made (run es (register path (set_cache_and_wake path v s))).closed ≡ 0)
unfolding register set_cache_and_wake
register-after-set path v es s h none_set = (
  lookup-insert path path v s.cache ∙ rw (text_eq_self path) refl,
  (run-IsOpen path s.made es (register path (set_cache_and_wake path v s)) none_set (
      register-IsOpen path (set_cache_and_wake path v s)
        (unfold apply in apply-IsValid (woken path v) s h))).1,
)
