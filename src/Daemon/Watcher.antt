-- ===== src/Daemon/Watcher.antt =====
-- internal/daemon/watcher.go: the poll of the configuration file. A poll is what stat answers and the
-- time of it; each branch of a poll asks for the time at most once.
pub mod Quiet
pub mod Settles
mod Tests
use portato.Prelude.{
  ℕ, ◌+◌, ◌≡◌, Bool, true, false, not, ◌&&◌, Option, none, some, List, [], ◌∷◌, if◌then◌else◌, ltb,
  ◌==◌,
}

-- The size and the modification time of a file.
pub record Stat : Type 0 where
  pub size : ℕ
  pub mod_time : ℕ

pub record Poll : Type 0 where
  pub stat : Option Stat
  pub now : ℕ

-- The variables of loop. `stable` is the file of the start or of the last call of reload, whether it
-- succeeded or failed.
pub record Watch : Type 0 where
  pub stable : Option Stat
  pub stable_ok : Bool
  pub last : Option Stat
  pub armed : Bool
  pub deadline : ℕ
  pub vanished : Bool

-- What a poll does outside: the call of reload, which may fail, or the warning that the file has
-- vanished.
pub data Action : Type 0 where
  idle : Action
  tried_reload : Action
  warned : Action

-- watchSettle, in nanoseconds
abbrev pub watch_settle : ℕ
watch_settle = 300000000

unfoldable pub same_stat : Option Stat → Option Stat → Bool
same_stat none none = true
same_stat none (some b) = false
same_stat (some a) none = false
same_stat (some a) (some b) = a.size == b.size && a.mod_time == b.mod_time

abbrev is_some : Option Stat → Bool
is_some none = false
is_some (some s) = true

-- start, with what stat answers
unfoldable pub start : Option Stat → Watch
start stable = record {
  stable = stable;
  stable_ok = is_some stable;
  last = stable;
  armed = false;
  deadline = 0;
  vanished = false;
}

-- A change since the last reload, which `w` has seen or not.
unfoldable pub changed : ℕ → Watch → Option Stat → ℕ → Action × Watch
unfolding same_stat
changed settle w cur now =
    if not w.armed
    then (idle, record w { armed = true; deadline = now + settle; last = cur; vanished = false })
    else if not (same_stat cur w.last)
    then (idle, record w { deadline = now + settle; last = cur; vanished = false })
    else if not (ltb now w.deadline)
    then (
      tried_reload,
      record w { stable = cur; stable_ok = true; armed = false; last = cur; vanished = false },
    )
    else (idle, record w { last = cur; vanished = false })

-- What loop does with the answer of stat. A reload that fails is logged, and leaves the same state as
-- one that succeeds.
unfoldable pub on_stat : ℕ → Watch → ℕ → Option Stat → Action × Watch
unfolding changed
on_stat settle w now none =
    if w.stable_ok && not w.vanished then (warned, record w { vanished = true }) else (idle, w)
on_stat settle w now (some cur) =
    if same_stat (some cur) w.stable
    then (idle, record w { armed = false; last = some cur; vanished = false })
    else changed settle w (some cur) now

unfoldable pub tick : ℕ → Watch → Poll → Action × Watch
unfolding on_stat
tick settle w p = on_stat settle w p.now p.stat

-- The state after a history of polls, the latest one first.
unfoldable pub after : ℕ → Option Stat → List Poll → Watch
unfolding start tick
after settle stable [] = start stable
after settle stable (p ∷ h) = (tick settle (after settle stable h) p).1
