-- ===== src/Daemon/UpdateCheck/Spacing.antt =====
-- The consent and the spacing of the checks of internal/daemon/updatecheck.go.
use portato.Prelude.{
  ℕ, ◌+◌, ◌≤◌, ◌≡◌, refl, Bool, true, false, Option, none, some, List, [], ◌∷◌, Text, all, arith,
  subst, Bool-cases, inl, inr,
}
use portato.Daemon.UpdateCheck.{
  CheckCache, needs_check, Tick, Outcome, quiet, unrecorded, recorded, consents, try_check, written,
  run, load_cache, after_check,
}

-- At least `ttl` after the recorded check, if there is one.
abbrev pub IsAfter : ℕ → Option ℕ → Option ℕ → Type 0
IsAfter ttl none next = Unit {0}
IsAfter ttl (some t) none = ⊥
IsAfter ttl (some t) (some now) = t + ttl ≤ now

-- Each tick with a request has the consent of the configuration of its time, and each recorded check
-- comes at least `ttl` after the one recorded before it.
abbrev pub IsSpaced : ℕ → CheckCache → List Tick → List Outcome → Type 0
IsSpaced ttl c [] os = os ≡ []
IsSpaced ttl c (t ∷ ts) [] = ⊥
IsSpaced ttl c (t ∷ ts) (quiet ∷ os) = IsSpaced ttl c ts os
IsSpaced ttl c (t ∷ ts) (unrecorded ∷ os) = (consents t.cfg ≡ true) × IsSpaced ttl c ts os
IsSpaced ttl c (t ∷ ts) (recorded d ∷ os) =
    (consents t.cfg ≡ true)
    × (d.last_check ≡ some t.now)
    × IsAfter ttl c.last_check d.last_check
    × IsSpaced ttl d ts os

due :
    (ttl : ℕ) (o : Option ℕ) (v : Text) (now : ℕ)
    → needs_check (record { last_check = o; latest = v }) now ttl ≡ true
    → IsAfter ttl o (some now)
unfolding needs_check
due ttl none v now h = tt
due ttl (some t) v now h = ground arith

load_cache-loaded : (b : Bool) (c : CheckCache) → b ≡ true → load_cache b c ≡ c
load_cache-loaded false c h = absurd cc
load_cache-loaded true c h = refl

-- What holds of the outcome of one tick.
abbrev IsStep : ℕ → CheckCache → Tick → Outcome → Type 0
IsStep ttl c t quiet = Unit {0}
IsStep ttl c t unrecorded = consents t.cfg ≡ true
IsStep ttl c t (recorded d) =
    (consents t.cfg ≡ true) × (d.last_check ≡ some t.now) × IsAfter ttl c.last_check d.last_check

after_check-IsStep :
    (ttl : ℕ) (c : CheckCache) (t : Tick) (release : Option Text) (saves : Bool)
    → consents t.cfg ≡ true
    → IsAfter ttl c.last_check (some t.now)
    → IsStep ttl c t (after_check t.now release saves)
after_check-IsStep ttl c t none saves agreed late = agreed
after_check-IsStep ttl c t (some v) false agreed late = agreed
after_check-IsStep ttl c t (some v) true agreed late = (agreed, refl, late)

try_check-IsStep :
    (ttl : ℕ) (c : CheckCache) (t : Tick) → t.loads ≡ true → IsStep ttl c t (try_check ttl c t)
unfolding try_check
try_check-IsStep ttl c t loaded = elim (Bool-cases (consents t.cfg)) [
  | inr refused ↦ rw refused tt
  | inl agreed ↦ elim (Bool-cases (needs_check (load_cache t.loads c) t.now ttl)) [
    | inr fresh ↦ rw (agreed, fresh) tt
    | inl stale ↦
        rw (agreed, stale)
          (after_check-IsStep ttl c t t.release t.saves agreed (
            due ttl c.last_check c.latest t.now (
              subst (λ d. needs_check d t.now ttl ≡ true) (load_cache-loaded t.loads c loaded)
                stale)))
  ]
]

IsStep-IsSpaced :
    (ttl : ℕ) (c : CheckCache) (t : Tick) (ts : List Tick) (o : Outcome) (os : List Outcome)
    → IsStep ttl c t o
    → IsSpaced ttl (written c o) ts os
    → IsSpaced ttl c (t ∷ ts) (o ∷ os)
IsStep-IsSpaced ttl c t ts quiet os step later = later
IsStep-IsSpaced ttl c t ts unrecorded os step later = (step, later)
IsStep-IsSpaced ttl c t ts (recorded d) os (agreed, now, late) later = (agreed, now, late, later)

abbrev pub all_load : List Tick → Bool
all_load ts = all (λ t. t.loads) ts

-- Any run of the poll whose cache file can be read, from any cache: a tick makes a request only when
-- the configuration of that time consents, and a recorded check comes at least the interval after the
-- check recorded before it, in this run or before.
pub run-IsSpaced :
    (ttl : ℕ) (c : CheckCache) (ts : List Tick)
    → all_load ts ≡ true
    → IsSpaced ttl c ts (run ttl c ts)
unfolding run
run-IsSpaced ttl c [] loaded = refl
run-IsSpaced ttl c (t ∷ ts) loaded =
    IsStep-IsSpaced ttl c t ts (try_check ttl c t) (run ttl (written c (try_check ttl c t)) ts)
      (try_check-IsStep ttl c t (ground arith))
      (run-IsSpaced ttl (written c (try_check ttl c t)) ts (ground arith))
