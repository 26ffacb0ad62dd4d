-- ===== src/Daemon/UpdateCheck.antt =====
-- internal/daemon/updatecheck.go and the cache of internal/update/cache.go: the background poll for a new
-- release. What the configuration, the files and the network answer to a tick is the record Tick.
pub mod Spacing
mod Tests
use portato.Prelude.{
  ℕ, ◌+◌, ◌≡◌, Bool, true, false, not, ◌||◌, Option, none, some, List, [], ◌∷◌, Text, if◌then◌else◌,
  leb,
}
use portato.Config.Types.{Config, Defaults}

-- `none` is the zero time: no check has succeeded.
pub record CheckCache : Type 0 where
  pub last_check : Option ℕ
  pub latest : Text

-- NeedsCheck
unfoldable pub needs_check : CheckCache → ℕ → ℕ → Bool
needs_check c now ttl = elim c.last_check [ none ↦ true | some t ↦ leb (t + ttl) now ]

-- updateCheckTTL, in nanoseconds
abbrev pub update_check_ttl : ℕ
update_check_ttl = 86400000000000

-- The configuration that the loader gives, whether the cache file can be read, the time, the release
-- that the network gives, and whether the cache can be written.
pub record Tick : Type 0 where
  pub cfg : Option Config
  pub loads : Bool
  pub now : ℕ
  pub release : Option Text
  pub saves : Bool

-- What a tick does: nothing, a request that is not recorded, or one whose result is written.
pub data Outcome : Type 0 where
  quiet : Outcome
  unrecorded : Outcome
  recorded : CheckCache → Outcome

abbrev is_on : Option Bool → Bool
is_on none = false
is_on (some b) = b

abbrev pub consents : Option Config → Bool
consents none = false
consents (some cfg) = is_on cfg.defaults.update_check

abbrev pub load_cache : Bool → CheckCache → CheckCache
load_cache false c = record { last_check = none; latest = [] }
load_cache true c = c

abbrev pub after_check : ℕ → Option Text → Bool → Outcome
after_check now none saves = unrecorded
after_check now (some version) false = unrecorded
after_check now (some version) true = recorded (record { last_check = some now; latest = version })

-- tryCheck
unfoldable pub try_check : ℕ → CheckCache → Tick → Outcome
unfolding needs_check
try_check ttl c t =
    if not (consents t.cfg)
    then quiet
    else if not (needs_check (load_cache t.loads c) t.now ttl)
    then quiet
    else after_check t.now t.release t.saves

-- The cache file after a tick.
abbrev pub written : CheckCache → Outcome → CheckCache
written c quiet = c
written c unrecorded = c
written c (recorded d) = d

-- run, one tick after the other
unfoldable pub run : ℕ → CheckCache → List Tick → List Outcome
unfolding try_check
run ttl c [] = []
run ttl c (t ∷ ts) = try_check ttl c t ∷ run ttl (written c (try_check ttl c t)) ts
