-- ===== src/Secret/Store/Waiters.antt =====
-- The waiters of internal/secret/secret.go over every order of its steps: no channel is closed twice.
use portato.Prelude.{
  ℕ, suc, ◌+◌, ◌≡◌, ◌≤◌, refl, none, List, [], ◌∷◌, ◌++◌, Text, text_eq_iff, ◌==◌, if◌then◌else◌,
  arith,
}
use portato.Prelude.Maps.{
  Map, lookup, insert, without, HasDistinctKeys, insert-HasDistinctKeys, without-HasDistinctKeys,
}
use portato.Secret.Store.{
  Store, new_store, waiting_at, waiting_on, fill, register, remove_channel, put_waiters,
  remove_waiter, set_cache_and_wake, forget, Step, filled, registered, removed, woken, forgotten,
  apply, run,
}

abbrev pub count : ℕ → List ℕ → ℕ
count ch [] = 0
count ch (w ∷ ws) = if w == ch then suc (count ch ws) else count ch ws

unfoldable pub waiting : ℕ → Map (List ℕ) → ℕ
waiting ch [] = 0
waiting ch ((k, ws) ∷ m) = count ch ws + waiting ch m

-- How often a channel waits or has been closed.
abbrev pub uses : ℕ → Store → ℕ
uses ch s = waiting ch s.waiters + count ch s.closed

-- A channel that was made is used at most once, one that was not made is not used.
abbrev pub IsValid : Store → Type 0
IsValid s =
    HasDistinctKeys s.waiters
    × ((ch : ℕ) → uses ch s ≤ 1)
    × ((ch : ℕ) → s.made ≤ ch → uses ch s ≡ 0)

pub count-append : (ch : ℕ) (a b : List ℕ) → count ch (a ++ b) ≡ count ch a + count ch b
count-append ch [] b = omega arith
count-append ch (w ∷ a) b = ground (arith, count-append ch a b)

pub count-remove_channel : (ch x : ℕ) (ws : List ℕ) → count ch (remove_channel x ws) ≤ count ch ws
unfolding remove_channel
count-remove_channel ch x [] = omega arith
count-remove_channel ch x (w ∷ ws) = ground (arith, count-remove_channel ch x ws)

without-missing : (k : Text) (m : Map (List ℕ)) → lookup k m ≡ none → without k m ≡ m
unfolding lookup without
without-missing k [] h = refl
without-missing k ((j, v) ∷ m) h = ground (arith, without-missing k m)

waiting-without :
    (ch : ℕ) (k : Text) (m : Map (List ℕ))
    → HasDistinctKeys m
    → waiting ch (without k m) + count ch (waiting_at (lookup k m)) ≡ waiting ch m
unfolding lookup without waiting
waiting-without ch k [] d = omega arith
waiting-without ch k ((j, v) ∷ m) d =
    ground (arith, waiting-without ch k m, without-missing k m, text_eq_iff j k)

waiting-put_waiters :
    (ch : ℕ) (k : Text) (ws : List ℕ) (m : Map (List ℕ))
    → waiting ch (put_waiters k ws m) ≡ waiting ch (without k m) + count ch ws
unfolding insert waiting
waiting-put_waiters ch k [] m = omega arith
waiting-put_waiters ch k (w ∷ ws) m = ground arith

put_waiters-HasDistinctKeys :
    (k : Text) (ws : List ℕ) (m : Map (List ℕ))
    → HasDistinctKeys m
    → HasDistinctKeys (put_waiters k ws m)
put_waiters-HasDistinctKeys k [] m d = without-HasDistinctKeys k m d
put_waiters-HasDistinctKeys k (w ∷ ws) m d = insert-HasDistinctKeys k (w ∷ ws) m d

uses-register :
    (path : Text) (ch : ℕ) (s : Store)
    → HasDistinctKeys s.waiters
    → uses ch (register path s) ≡ uses ch s + (if s.made == ch then 1 else 0)
unfolding register insert waiting
uses-register path ch s d =
    ground (
      arith,
      waiting-without ch path s.waiters d,
      count-append ch (waiting_on path s) (s.made ∷ []),
    )

uses-remove_waiter :
    (path : Text) (x ch : ℕ) (s : Store)
    → HasDistinctKeys s.waiters
    → uses ch (remove_waiter path x s) ≤ uses ch s
unfolding remove_waiter
uses-remove_waiter path x ch s d = omega (
  arith,
  waiting-without ch path s.waiters d,
  waiting-put_waiters ch path (remove_channel x (waiting_on path s)) s.waiters,
  count-remove_channel ch x (waiting_on path s),
)

uses-set_cache_and_wake :
    (path v : Text) (ch : ℕ) (s : Store)
    → HasDistinctKeys s.waiters
    → uses ch (set_cache_and_wake path v s) ≡ uses ch s
unfolding set_cache_and_wake
uses-set_cache_and_wake path v ch s d =
    omega (arith, waiting-without ch path s.waiters d, count-append ch (waiting_on path s) s.closed)

pub apply-IsValid : (e : Step) (s : Store) → IsValid s → IsValid (apply e s)
unfolding apply fill forget
apply-IsValid (filled path v) s h = h
apply-IsValid (forgotten path) s h = h
apply-IsValid (registered path) s h =
    unfold register in
    (
      insert-HasDistinctKeys path (waiting_on path s ++ s.made ∷ []) s.waiters h.0,
      λ ch. ground (arith, uses-register path ch s h.0, h.1 ch, h.2 ch),
      λ ch fresh. ground (arith, uses-register path ch s h.0, h.2 ch (omega arith)),
    )
apply-IsValid (removed path x) s h =
    unfold remove_waiter in
    (
      put_waiters-HasDistinctKeys path (remove_channel x (waiting_on path s)) s.waiters h.0,
      λ ch. omega (arith, uses-remove_waiter path x ch s h.0, h.1 ch),
      λ ch fresh. omega (arith, uses-remove_waiter path x ch s h.0, h.2 ch fresh),
    )
apply-IsValid (woken path v) s h =
    unfold set_cache_and_wake in
    (
      without-HasDistinctKeys path s.waiters h.0,
      λ ch. omega (arith, uses-set_cache_and_wake path v ch s h.0, h.1 ch),
      λ ch fresh. omega (arith, uses-set_cache_and_wake path v ch s h.0, h.2 ch fresh),
    )

pub run-IsValid : (es : List Step) (s : Store) → IsValid s → IsValid (run es s)
unfolding run
run-IsValid [] s h = h
run-IsValid (e ∷ es) s h = run-IsValid es (apply e s) (apply-IsValid e s h)

pub new_store-IsValid : IsValid new_store
unfolding waiting
new_store-IsValid = (tt, λ ch. omega arith, λ ch fresh. refl)

-- In whatever order the goroutines take the mutex, from the new store on: a channel waits or has
-- been closed at most once in all. So no channel is closed twice, which would be a panic, and one
-- that has been closed waits no more.
pub run-used_once :
    (es : List Step) (ch : ℕ)
    → waiting ch (run es new_store).waiters + count ch (run es new_store).closed ≤ 1
run-used_once es ch = (run-IsValid es new_store new_store-IsValid).1 ch
