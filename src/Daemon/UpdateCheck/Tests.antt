-- ===== src/Daemon/UpdateCheck/Tests.antt =====
-- Two polls within one interval.
use portato.Prelude.{ℕ, ◌≡◌, refl, true, some, none, List, [], ◌∷◌, lit}
use portato.Config.Types.{Config}
use portato.Forward.Fixtures.{config}
use portato.Daemon.UpdateCheck.{
  CheckCache, Tick, quiet, recorded, update_check_ttl, needs_check, try_check, run,
}
use portato.Daemon.UpdateCheck.Spacing.{IsSpaced, run-IsSpaced}

abbrev agreeing : Config
agreeing = record config { defaults = record config.defaults { update_check = some true } }

abbrev no_cache : CheckCache
no_cache = record { last_check = none; latest = [] }

abbrev tick_at : ℕ → Tick
tick_at now = record {
  cfg = some agreeing;
  loads = true;
  now = now;
  release = some (lit "1.2.3");
  saves = true;
}

abbrev ticks : List Tick
ticks = tick_at 1000 ∷ tick_at 3600000001000 ∷ []

second_is_quiet :
    run update_check_ttl no_cache ticks
    ≡ recorded (record { last_check = some 1000; latest = lit "1.2.3" }) ∷ quiet ∷ []
unfolding run try_check needs_check
second_is_quiet = refl

run-IsSpaced_example :
    IsSpaced update_check_ttl no_cache ticks (run update_check_ttl no_cache ticks)
run-IsSpaced_example = run-IsSpaced update_check_ttl no_cache ticks refl
