-- ===== src/Daemon/Watcher/Tests.antt =====
-- A file that is changed once, and polled each half second.
use portato.Prelude.{ℕ, ◌≡◌, refl, some, [], ◌∷◌, arith}
use portato.Daemon.Watcher.{
  Stat, Poll, tried_reload, watch_settle, same_stat, start, changed, on_stat, tick, after,
}
use portato.Daemon.Watcher.Quiet.{IsSettled, tick-tried_reload}
use portato.Daemon.Watcher.Settles.{tick-settles}

abbrev old_file : Stat
old_file = record { size = 100; mod_time = 1 }

abbrev new_file : Stat
new_file = record { size = 120; mod_time = 2 }

abbrev poll_at : ℕ → Stat → Poll
poll_at now c = record { stat = some c; now = now }

abbrev first_poll : Poll
first_poll = poll_at 500000000 new_file

abbrev second_poll : Poll
second_poll = poll_at 1000000000 new_file

reloads :
    (tick watch_settle (after watch_settle (some old_file) (first_poll ∷ [])) second_poll).0
    ≡ tried_reload
unfolding tick after on_stat changed start same_stat
reloads = refl

tick-tried_reload_example :
    (c : Stat) × IsSettled watch_settle
      (first_poll ∷ [])
      (after watch_settle (some old_file) (first_poll ∷ [])).stable
      second_poll
      c
    × ((after watch_settle (some old_file) (second_poll ∷ first_poll ∷ [])).stable ≡ some c)
tick-tried_reload_example =
    tick-tried_reload watch_settle (some old_file) (first_poll ∷ []) second_poll reloads

tick-settles_example :
    (after watch_settle (some old_file) (second_poll ∷ first_poll ∷ [])).stable ≡ some new_file
tick-settles_example =
    tick-settles watch_settle (some old_file) [] first_poll second_poll new_file tt refl refl
      (omega arith)
