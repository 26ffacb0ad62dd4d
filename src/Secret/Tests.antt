-- ===== src/Secret/Tests.antt =====
-- The store of secrets on concrete paths and steps.
use portato.Prelude.{◌+◌, ◌≡◌, ◌≤◌, refl, true, some, List, [], ◌∷◌, Text, lit, text_eq}
use portato.Prelude.Maps.{lookup, insert, without}
use portato.Secret.Store.{
  new_store, cached, register, remove_waiter, remove_channel, apply, set_cache_and_wake, wait_end,
  run, Step, filled, registered, removed, woken, forgotten,
}
use portato.Secret.Store.Waiters.{count, waiting, new_store-IsValid, run-used_once}
use portato.Secret.Store.Wakes.{last_written, set_cache_and_wake-wakes}
use portato.Secret.Store.Races.{register-after-set}
use portato.Secret.Memory.{Memory, memory}

abbrev key : Text
key = lit "/k"

abbrev steps : List Step
steps =
    registered key ∷ filled (lit "/j") (lit "x") ∷ woken (lit "/j") (lit "y") ∷ removed key 7 ∷ []

run-used_once_example :
    waiting 0 (run (woken key (lit "p") ∷ steps) new_store).waiters
      + count 0 (run (woken key (lit "p") ∷ steps) new_store).closed
    ≤ 1
run-used_once_example = run-used_once (woken key (lit "p") ∷ steps) 0

abbrev keyring : Memory
keyring = record { secrets = []; err = [] }

abbrev later_steps : List Step
later_steps = registered key ∷ forgotten (lit "/j") ∷ []

set_cache_and_wake-wakes_example :
    let t =
      run later_steps (set_cache_and_wake key (lit "p") (run steps (register key new_store))) in
    (1 ≤ count 0 t.closed) × ((wait_end memory key 0 true keyring t).1 ≡ some (lit "p"))
unfolding text_eq last_written
set_cache_and_wake-wakes_example =
    set_cache_and_wake-wakes memory key (lit "p") (lit "p") steps later_steps new_store keyring refl
      refl

register-after-set_example :
    (cached key (register key (set_cache_and_wake key (lit "p") new_store)) ≡ some (lit "p"))
    × (count 0 (run steps (register key (set_cache_and_wake key (lit "p") new_store))).closed ≡ 0)
unfolding text_eq
register-after-set_example = register-after-set key (lit "p") steps new_store new_store-IsValid refl

two_waiters :
    (run (registered key ∷ registered key ∷ removed key 0 ∷ woken key (lit "p") ∷ []) new_store)
    ≡ record { cache = (key, lit "p") ∷ []; waiters = []; closed = 1 ∷ []; made = 2 }
unfolding apply run register remove_waiter set_cache_and_wake remove_channel insert without lookup
    text_eq
two_waiters = refl
