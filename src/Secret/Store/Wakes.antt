-- ===== src/Secret/Store/Wakes.antt =====
-- What Set of internal/secret/secret.go reaches: the dials that wait, and the later reads.
use portato.Prelude.{
  ℕ, ◌≡◌, ◌≤◌, refl, ap, ◌∙◌, Bool, true, false, not, ◌&&◌, Option, none, some, List, [], ◌∷◌, ◌++◌,
  all, Text, text_eq, text_eq_iff, text_eq_self, ◌==◌, if◌then◌else◌, arith,
}
use portato.Prelude.Maps.{Map, lookup, lookup-insert, lookup-without}
use portato.Secret.Store.{
  Store, waiting_at, waiting_on, cached, fill, register, remove_channel, put_waiters, remove_waiter,
  set_cache_and_wake, forget, Step, filled, registered, removed, woken, forgotten, apply, run,
  Backend, get, wait_end,
}
use portato.Secret.Store.Waiters.{count, count-append}

-- The steps that end the wait of a channel on a path.
abbrev pub leaves_waiting : Text → ℕ → Step → Bool
leaves_waiting path ch (removed p x) = not (text_eq p path && (x == ch))
leaves_waiting path ch (woken p v) = not (text_eq p path)
leaves_waiting path ch _ = true

count-remove_other :
    (ch x : ℕ) (ws : List ℕ) → (x == ch) ≡ false → count ch (remove_channel x ws) ≡ count ch ws
unfolding remove_channel
count-remove_other ch x [] h = refl
count-remove_other ch x (w ∷ ws) h = ground (arith, count-remove_other ch x ws h)

pub lookup-put_waiters :
    (p k : Text) (ws : List ℕ) (m : Map (List ℕ))
    → waiting_at (lookup k (put_waiters p ws m))
      ≡ (if text_eq p k then ws else waiting_at (lookup k m))
lookup-put_waiters p k [] m = ground (arith, lookup-without p k m)
lookup-put_waiters p k (w ∷ ws) m = ground (arith, lookup-insert p k (w ∷ ws) m)

-- The channel waits on the path.
abbrev Waits : Text → ℕ → Store → Type 0
Waits path ch s = 1 ≤ count ch (waiting_on path s)

apply-Waits :
    (path : Text) (ch : ℕ) (e : Step) (s : Store)
    → leaves_waiting path ch e ≡ true
    → Waits path ch s
    → Waits path ch (apply e s)
unfolding apply fill forget register remove_waiter set_cache_and_wake
apply-Waits path ch (filled p v) s h w = w
apply-Waits path ch (forgotten p) s h w = w
apply-Waits path ch (registered p) s h w = ground (
  arith,
  lookup-insert p path (waiting_on p s ++ s.made ∷ []) s.waiters,
  count-append ch (waiting_on p s) (s.made ∷ []),
  text_eq_iff p path,
)
apply-Waits path ch (removed p x) s h w = ground (
  arith,
  lookup-put_waiters p path (remove_channel x (waiting_on p s)) s.waiters,
  count-remove_other ch x (waiting_on p s),
  text_eq_iff p path,
)
apply-Waits path ch (woken p v) s h w = ground (arith, lookup-without p path s.waiters)

run-Waits :
    (path : Text) (ch : ℕ) (es : List Step) (s : Store)
    → all (leaves_waiting path ch) es ≡ true
    → Waits path ch s
    → Waits path ch (run es s)
unfolding run
run-Waits path ch [] s h w = w
run-Waits path ch (e ∷ es) s h w =
    run-Waits path ch es (apply e s) (ground arith) (apply-Waits path ch e s (ground arith) w)

register-Waits : (path : Text) (s : Store) → Waits path s.made (register path s)
unfolding register
register-Waits path s = ground (
  arith,
  lookup-insert path path (waiting_on path s ++ s.made ∷ []) s.waiters,
  count-append s.made (waiting_on path s) (s.made ∷ []),
  text_eq_self path,
)

wait_end-cached :
    (B : Backend) (path v : Text) (ch : ℕ) (k : B.Keyring) (s : Store)
    → cached path s ≡ some v
    → (wait_end B path ch true k s).1 ≡ some v
unfolding wait_end get
wait_end-cached B path v ch k s h = ground (arith, h)

-- What a step writes for a path: nothing, no value, or a value.
abbrev pub written : Text → Step → Option (Option Text)
written path (filled p v) = if text_eq p path then some (some v) else none
written path (woken p v) = if text_eq p path then some (some v) else none
written path (forgotten p) = if text_eq p path then some none else none
written path (registered p) = none
written path (removed p x) = none

abbrev pub or_before : Option Text → Option (Option Text) → Option Text
or_before old none = old
or_before old (some v) = v

-- The value after the last of the steps that write one.
unfoldable pub last_written : Text → List Step → Option Text → Option Text
last_written path [] v = v
last_written path (e ∷ es) v = last_written path es (or_before v (written path e))

cached-apply :
    (path : Text) (e : Step) (s : Store)
    → cached path (apply e s) ≡ or_before (cached path s) (written path e)
unfolding apply fill forget register remove_waiter set_cache_and_wake
cached-apply path (filled p v) s = ground (arith, lookup-insert p path v s.cache)
cached-apply path (woken p v) s = ground (arith, lookup-insert p path v s.cache)
cached-apply path (forgotten p) s = ground (arith, lookup-without p path s.cache)
cached-apply path (registered p) s = refl
cached-apply path (removed p x) s = refl

-- The cache is a register for each path in which the last write wins: after any steps, the value of
-- a path is what the last Set, the last Delete, or the last end of a Get that had read the keyring
-- wrote, and the old value when none of them was of the path.
pub cached-run :
    (path : Text) (es : List Step) (s : Store)
    → cached path (run es s) ≡ last_written path es (cached path s)
unfolding run last_written
cached-run path [] s = refl
cached-run path (e ∷ es) s =
    cached-run path es (apply e s) ∙ ap (last_written path es) (cached-apply path e s)

-- A channel that is closed stays closed.
run-closed : (ch : ℕ) (es : List Step) (s : Store) → count ch s.closed ≤ count ch (run es s).closed
unfolding run apply fill forget register remove_waiter set_cache_and_wake
run-closed ch [] s = omega arith
run-closed ch (filled p v ∷ es) s = run-closed ch es (fill p v s)
run-closed ch (registered p ∷ es) s = run-closed ch es (register p s)
run-closed ch (removed p x ∷ es) s = run-closed ch es (remove_waiter p x s)
run-closed ch (forgotten p ∷ es) s = run-closed ch es (forget p s)
run-closed ch (woken p v ∷ es) s =
    omega (
      arith,
      run-closed ch es (set_cache_and_wake p v s),
      count-append ch (waiting_on p s) s.closed,
    )

-- A Set wakes every dial that waits and has not given up: after Wait has registered its channel, and
-- whatever the other goroutines do before the Set of the path and after it, the Set has closed the
-- channel. When the dial reads the store again after all this, it gets the value of the last step since
-- the Set that wrote one for the path, so that of the Set itself when there was none, unless that last
-- step was a Delete.
pub set_cache_and_wake-wakes :
    (B : Backend) (path v x : Text) (before later : List Step) (s : Store) (k : B.Keyring)
    → all (leaves_waiting path s.made) before ≡ true
    → last_written path later (some v) ≡ some x
    → let t = run later (set_cache_and_wake path v (run before (register path s))) in
      (1 ≤ count s.made t.closed) × ((wait_end B path s.made true k t).1 ≡ some x)
unfolding set_cache_and_wake
set_cache_and_wake-wakes B path v x before later s k waits last =
    let t = run before (register path s) in
    let w = run-Waits path s.made before (register path s) waits (register-Waits path s) in
    let set = set_cache_and_wake path v t in
    let has : cached path set ≡ some v =
      lookup-insert path path v t.cache ∙ rw (text_eq_self path) refl in
    (
      omega
          (arith, w, count-append s.made (waiting_on path t) t.closed, run-closed s.made later set),
      wait_end-cached B path x s.made k (run later set)
          (cached-run path later set ∙ ap (last_written path later) has ∙ last),
    )
