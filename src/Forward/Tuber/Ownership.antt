-- ===== src/Forward/Tuber/Ownership.antt =====
-- Which run loops of internal/forward/tuber.go work for a tuber, in every interleaving.
pub mod Loops
pub mod Steps
pub mod Events
use portato.Prelude.{
  Bool-cases, inl, inr, ℕ, zero, suc, ◌+◌, ◌<◌, ◌≤◌, ◌≡◌, refl, sym, ap, subst, ◌∙◌, Bool, true,
  false, ◌&&◌, ◌||◌, not, Option, none, some, List, [], ◌∷◌, Text, select, length, ◌==◌, arith,
  if◌then◌else◌,
}
use mathlib.Core.Path.{subst₂}
use portato.Config.Types.{Tuber as TuberConfig, Defaults}
use portato.Forward.Tuber.{
  is_remote, Tuber, Result, ok, err, Listener, start, start_with, stop, reconfigure_locked,
  update_metadata, new_tuber,
}
use portato.Forward.Tuber.Loop.{
  Loop, Answer, Pc, new_loop, head, exited, step, step_at, passphrase_sink, password_sink,
  record_unknown_host, clear_pending_host, clear_pending_passphrase, clear_pending_password,
}
use portato.Forward.Tuber.System.{
  System, Event, starts, starts_with, stops, cancels, reconfigures, updates, loops_on, init, spawn,
  spawn_if, with_job, mem, remove, cancel_loop, cancel_all, step_loops, apply, run,
}
use portato.Forward.Tuber.Invariant.{
  is_some, IsConsistent, start-IsConsistent, start_with-IsConsistent, stop-IsConsistent,
  reconfigure_locked-IsConsistent, update_metadata-IsConsistent, step-IsConsistent,
}
use portato.Forward.Tuber.Ownership.Loops.{is_exited, Below, is_live, Held, has_loop, held_job}
use portato.Forward.Tuber.Ownership.Events.{run-Inv, init-Inv}

-- In every interleaving of calls and loops the tuber's fields fit together: it has a job exactly
-- while it runs, it holds a listener only while it runs, an Off tuber shows no error and no
-- connection time, and a Connected one shows no error and has a connection time.
pub run-IsConsistent :
    (cfg : TuberConfig) (def : Defaults) (es : List Event)
    → IsConsistent (run es (init cfg def)).tuber
run-IsConsistent cfg def es = (run-Inv es (init cfg def) (init-Inv cfg def)).consistent

-- How many loops work for the tuber, and how many of these have exited.
abbrev pub live_loops : System → ℕ
live_loops s = length (select (is_live s.stopping) s.loops)

abbrev pub live_exited : System → ℕ
live_exited s = length (select (λ l. is_live s.stopping l && is_exited l.pc) s.loops)

none_live :
    (stopping : List ℕ) (ls : List Loop)
    → Held none stopping ls
    → length (select (is_live stopping) ls) ≡ 0
none_live stopping [] h = refl
none_live stopping (l ∷ ls) h = ground (arith, none_live stopping ls h.2)

none_live-Below :
    (j n : ℕ) (stopping : List ℕ) (ls : List Loop)
    → n ≤ j
    → Below n ls
    → Held (some j) stopping ls
    → length (select (is_live stopping) ls) ≡ 0
none_live-Below j n stopping [] le b h = refl
none_live-Below j n stopping (l ∷ ls) le b h = ground (arith, none_live-Below j l.id stopping ls)

one_live :
    (j n : ℕ) (stopping : List ℕ) (ls : List Loop)
    → Below n ls
    → Held (some j) stopping ls
    → has_loop (some j) ls ≡ true
    → length (select (is_live stopping) ls) ≡ 1
one_live j n stopping [] b h p = cc
one_live j n stopping (l ∷ ls) b h p =
    ground (arith, none_live-Below j l.id stopping ls, one_live j l.id stopping ls)

live_of_job :
    (job : Option ℕ) (n : ℕ) (stopping : List ℕ) (ls : List Loop)
    → Below n ls
    → Held job stopping ls
    → has_loop job ls ≡ true
    → length (select (is_live stopping) ls) ≡ (if is_some job then 1 else 0)
live_of_job none n stopping ls b h p = none_live stopping ls h
live_of_job (some j) n stopping ls b h p = one_live j n stopping ls b h p

no_live_exited :
    (job : Option ℕ) (stopping : List ℕ) (ls : List Loop)
    → Held job stopping ls
    → length (select (λ l. is_live stopping l && is_exited l.pc) ls) ≡ 0
no_live_exited job stopping [] h = refl
no_live_exited job stopping (l ∷ ls) h = ground (arith, no_live_exited job stopping ls h.2)

has_held :
    (base : Bool) (job : Option ℕ) (ls : List Loop)
    → has_loop job ls ≡ true
    → has_loop (held_job base job) ls ≡ true
has_held true job ls h = refl
has_held false job ls h = h

held_count :
    (base : Bool) (job : Option ℕ) (running : Bool)
    → is_some job ≡ running
    → ◌≡◌ {A = ℕ}
        (if is_some (held_job base job) then 1 else 0)
        (if running && not base then 1 else 0)
held_count true job true h = refl
held_count true job false h = refl
held_count false job true h = rw h refl
held_count false job false h = rw h refl

-- In every interleaving, until the base context is cancelled, exactly one loop works for a running
-- tuber and none for a stopped one; from then on none does, since all loops are cancelled. A loop
-- that works for the tuber has not exited.
pub run-live_loops :
    (cfg : TuberConfig) (def : Defaults) (es : List Event)
    → let s = run es (init cfg def) in
      (live_loops s ≡ (if s.tuber.running && not s.base_cancelled then 1 else 0))
      × (live_exited s ≡ 0)
run-live_loops cfg def es =
    let v = run-Inv es (init cfg def) (init-Inv cfg def) in
    let s = run es (init cfg def) in
    let job = held_job s.base_cancelled s.tuber.job in
    (
      live_of_job job s.next_job s.stopping s.loops v.falling v.held
            (has_held s.base_cancelled s.tuber.job s.loops v.present)
          ∙ held_count s.base_cancelled s.tuber.job s.tuber.running v.consistent.job_running,
      no_live_exited job s.stopping s.loops v.held,
    )
