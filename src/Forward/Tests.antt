-- ===== src/Forward/Tests.antt =====
-- The results on the forwarding engine at concrete inputs.
use portato.Prelude.{
  ◌&&◌, not, ◌≡◌, refl, text_eq, true, false, none, some, List, [], ◌∷◌, ◌++◌, lit, select, length,
  arith, if◌then◌else◌,
}
use portato.Prelude.Int.{pos}
use portato.Forward.State.{connected, error}
use portato.Forward.Backoff.{next_backoff, next_backoff-capped}
use portato.Forward.Fixtures.{defaults, db}
use portato.Forward.Tuber.{Tuber, Listener, ok, new_tuber}
use portato.Forward.Tuber.Ownership.Loops.{is_exited}
use portato.Forward.Tuber.StopInDial.{
  stop_in_dial, dialing_alone, stop_in_dial-error, overtaken, connected_alone, places,
  overtaken-clears,
}
use portato.Forward.Tuber.Retry.{attempts_fail, attempt_fails, waits_at, attempts_fail-delay}
use portato.Forward.Tuber.Loop.{
  Loop, new_loop, go, exited, leaving, sleeping_failed, serving, dialing,
}
use portato.Forward.Tuber.System.{System, Event, starts, stops, cancels, loops_on, init, run}
use portato.Forward.Tuber.Invariant.{IsConsistent}
use portato.Forward.Tuber.Ownership.{live_loops, live_exited, run-live_loops, run-IsConsistent}
use portato.Forward.Tuber.Shutdown.{run_loop, drive, drive-exits}

abbrev listener : Listener
listener = record { addr = lit "127.0.0.1:5432"; is_tcp = true }

-- A start, the dial of its loop, a Stop, a second start, and the end of the first loop.
abbrev restarted : List Event
restarted =
    starts (ok listener)
    ∷ loops_on 0 go
    ∷ loops_on 0 go
    ∷ stops
    ∷ starts (ok listener)
    ∷ cancels 0
    ∷ loops_on 0 go
    ∷ []

run-live_loops_example :
    let s = run restarted (init db defaults) in
    (live_loops s ≡ (if s.tuber.running && not s.base_cancelled then 1 else 0))
    × (live_exited s ≡ 0)
run-live_loops_example = run-live_loops db defaults restarted

run-IsConsistent_example : IsConsistent (run restarted (init db defaults)).tuber
run-IsConsistent_example = run-IsConsistent db defaults restarted

abbrev cancelled_loop : Loop
cancelled_loop = record { id = 0; remote = true; cancelled = true; attempt = pos 2; pc = dialing }

drive-exits_example : (drive 7 (new_tuber db defaults) cancelled_loop).1.pc ≡ exited
drive-exits_example = drive-exits 7 (new_tuber db defaults) cancelled_loop refl (omega arith)

abbrev stopped : Tuber
stopped = record (new_tuber db defaults) {
  state = error;
  err_msg = lit "unknown host";
  pending_host = lit "bastion";
  notified = 3;
}

abbrev connected_tuber : Tuber
connected_tuber = record (new_tuber db defaults) {
  state = connected;
  connected_at = some 9;
  running = true;
  listener = some listener;
  client = some 4;
  job = some 0;
  pending_password = lit "password:me@bastion:22";
}

abbrev rejected : List Event
rejected =
    stop_in_dial 0 (lit "bastion") (lit "SHA256:x") (lit "bastion ssh-ed25519 x")
      (lit "unknown host")

abbrev dialing_db : System
dialing_db = dialing_alone (new_tuber db defaults) 0 false (pos 0)

stop_in_dial-error_example :
    let s = run rejected dialing_db in
    (s.tuber.running ≡ false)
    × (s.tuber.state ≡ error)
    × (s.tuber.err_msg ≡ lit "unknown host")
    × (s.tuber.pending_host ≡ lit "bastion")
    × (length (select (λ k. is_exited k.pc) s.loops) ≡ 1)
stop_in_dial-error_example =
    stop_in_dial-error (new_tuber db defaults) 0 false (pos 0) (lit "bastion") (lit "SHA256:x")
      (lit "bastion ssh-ed25519 x") (lit "unknown host")

overtaken-clears_example :
    let s = run (overtaken listener 3 9) (connected_alone (new_tuber db defaults)) in
    (s.tuber.running ≡ true)
    × (s.tuber.job ≡ some 1)
    × (s.tuber.state ≡ connected)
    × (s.tuber.client ≡ none)
    × (places s.loops ≡ (1, serving 1) ∷ (0, leaving) ∷ [])
unfolding new_tuber text_eq
overtaken-clears_example = overtaken-clears (new_tuber db defaults) listener 3 9 refl

attempts_fail-delay_example :
    let (u, k) =
      run_loop
        (attempts_fail (lit "refused" ∷ []) ++ attempt_fails (lit "timeout"))
        (new_tuber db defaults)
        (waits_at 0 (new_loop 0 false)) in
    (k.pc ≡ sleeping_failed (pos 4000000000)) × (u.state ≡ error) × (u.err_msg ≡ lit "timeout")
attempts_fail-delay_example =
    attempts_fail-delay (lit "refused" ∷ []) (lit "timeout") 0 (new_tuber db defaults)
      (new_loop 0 false)

next_backoff-capped_example : next_backoff (pos 5) ≡ pos 30000000000
next_backoff-capped_example = next_backoff-capped (pos 5)
