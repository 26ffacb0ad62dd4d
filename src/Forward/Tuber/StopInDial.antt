-- ===== src/Forward/Tuber/StopInDial.antt =====
-- What becomes of a tuber that is stopped while it dials, and other traces of a late loop.
use portato.Prelude.{
  ℕ, suc, ◌≡◌, refl, ap, ◌∙◌, length, select, Bool, true, false, none, some, List, [], ◌∷◌, ◌++◌,
  map, Text, arith,
}
use portato.Prelude.Int.{ℤ, pos}
use portato.Forward.State.{off, connected, error}
use portato.Forward.Tuber.{Tuber, Listener, ok, is_remote, started, start, stop}
use portato.Forward.Tuber.Loop.{
  Loop, Answer, new_loop, go, host_unknown, dial_failed, cancelled_first, Pc, head, dialing, dialed,
  at, serving, clear_pending_host, leaving, step, step_at, record_unknown_host,
  clear_pending_passphrase, clear_pending_password,
}
use portato.Forward.Tuber.System.{
  System, Event, stops, cancels, starts, spawn, spawn_if, loops_on, cancel_all, step_loops, apply,
  run,
}
use portato.Forward.Tuber.Ownership.Loops.{is_exited}
use portato.Forward.Tuber.Shutdown.{run_loop}

step_at-id : (p : Pc) (a : Answer) (t : Tuber) (l : Loop) → (step_at p a t l).1.id ≡ l.id
unfolding step_at
step_at-id head a t l = ground arith
step_at-id _ a t l = ground arith

step-id : (a : Answer) (t : Tuber) (l : Loop) → (step a t l).1.id ≡ l.id
unfolding step
step-id a t l = step_at-id l.pc a t l

-- A system with one loop.
abbrev alone : Tuber → Loop → ℕ → System
alone t l next = record {
  tuber = t;
  loops = l ∷ [];
  stopping = [];
  next_job = next;
  base_cancelled = false;
}

step_loops-alone :
    (j : ℕ) (a : Answer) (t : Tuber) (l : Loop)
    → l.id ≡ j
    → step_loops j a t (l ∷ []) ≡ ((step a t l).0, (step a t l).1 ∷ [])
unfolding step_loops
step_loops-alone j a t l e = ground arith

apply-alone :
    (j next : ℕ) (a : Answer) (t : Tuber) (l : Loop)
    → l.id ≡ j
    → apply (loops_on j a) (alone t l next) ≡ alone (step a t l).0 (step a t l).1 next
unfolding apply
apply-alone j next a t l e = rw (step_loops-alone j a t l e)

run-alone :
    (j next : ℕ) (answers : List Answer) (t : Tuber) (l : Loop)
    → l.id ≡ j
    → run (map (loops_on j) answers) (alone t l next)
      ≡ alone (run_loop answers t l).0 (run_loop answers t l).1 next
unfolding run run_loop
run-alone j next [] t l e = refl
run-alone j next (a ∷ rest) t l e =
    ap (run (map (loops_on j) rest)) (apply-alone j next a t l e)
    ∙ run-alone j next rest (step a t l).0 (step a t l).1 (step-id a t l ∙ e)

-- A running tuber whose only loop is in its dial.
abbrev pub dialing_loop : ℕ → Bool → ℤ → Loop
dialing_loop j remote attempt = record {
  id = j;
  remote = remote;
  cancelled = false;
  attempt = attempt;
  pc = dialing;
}

abbrev pub dialing_alone : Tuber → ℕ → Bool → ℤ → System
dialing_alone t j remote attempt = record {
  tuber = record t { running = true; job = some j };
  loops = dialing_loop j remote attempt ∷ [];
  stopping = [];
  next_job = suc j;
  base_cancelled = false;
}

cancels-alone :
    (t : Tuber) (l : Loop) (j next : ℕ)
    → l.id ≡ j
    → apply (cancels j) (record (alone t l next) { stopping = j ∷ [] })
      ≡ alone t (record l { cancelled = true }) next
unfolding apply cancel_all
cancels-alone t l j next e = ground arith

abbrev pub dial_answers : Text → Text → Text → Text → List Answer
dial_answers host fp line msg =
    host_unknown host fp line ∷ dial_failed msg ∷ go ∷ go ∷ go ∷ cancelled_first ∷ []

-- Stop cancels the dial, which meets an unknown host key and fails; the loop then exits.
abbrev pub stop_in_dial : ℕ → Text → Text → Text → Text → List Event
stop_in_dial j host fp line msg =
    stops ∷ cancels j ∷ map (loops_on j) (dial_answers host fp line msg)

stop_in_dial-run_loop :
    (t : Tuber) (j : ℕ) (remote : Bool) (attempt : ℤ) (host fp line msg : Text)
    → let stopped = (stop (record t { running = true; job = some j })).0 in
      let r =
        run_loop
          (dial_answers host fp line msg)
          stopped
          (record (dialing_loop j remote attempt) { cancelled = true }) in
      run (stop_in_dial j host fp line msg) (dialing_alone t j remote attempt)
      ≡ alone r.0 r.1 (suc j)
unfolding run apply stop
stop_in_dial-run_loop t j remote attempt host fp line msg =
    let stopped = (stop (record t { running = true; job = some j })).0 in
    ap (run (map (loops_on j) (dial_answers host fp line msg)))
      (cancels-alone stopped (dialing_loop j remote attempt) j (suc j) refl)
    ∙ run-alone j (suc j) (dial_answers host fp line msg) stopped
        (record (dialing_loop j remote attempt) { cancelled = true }) refl

-- A tuber stopped while it dials does not end Off: the cancelled dial returns an error, and the
-- loop shows it after Stop has set Off. The tuber stays in Error although it is not running, with
-- the host key that the dial rejected, and the loop has exited.
pub stop_in_dial-error :
    (t : Tuber) (j : ℕ) (remote : Bool) (attempt : ℤ) (host fp line msg : Text)
    → let s = run (stop_in_dial j host fp line msg) (dialing_alone t j remote attempt) in
      (s.tuber.running ≡ false)
      × (s.tuber.state ≡ error)
      × (s.tuber.err_msg ≡ msg)
      × (s.tuber.pending_host ≡ host)
      × (length (select (λ k. is_exited k.pc) s.loops) ≡ 1)
unfolding stop run_loop step record_unknown_host clear_pending_passphrase clear_pending_password
stop_in_dial-error t j remote attempt host fp line msg =
    rw (stop_in_dial-run_loop t j remote attempt host fp line msg) (ground arith)

-- One more Stop then takes the error away and leaves the prompt of the rejected host key.
pub stop_in_dial-prompt :
    (t : Tuber) (j : ℕ) (remote : Bool) (attempt : ℤ) (host fp line msg : Text)
    → let u =
        (stop (run (stop_in_dial j host fp line msg) (dialing_alone t j remote attempt)).tuber).0 in
      (u.running ≡ false)
      × (u.state ≡ off)
      × (u.pending_host ≡ host)
      × (u.pending_fingerprint ≡ fp)
      × (u.pending_host_line ≡ line)
unfolding stop run_loop step record_unknown_host clear_pending_passphrase clear_pending_password
stop_in_dial-prompt t j remote attempt host fp line msg =
    rw (stop_in_dial-run_loop t j remote attempt host fp line msg) (ground arith)

-- The system after a restart whose first loop has not exited: the new loop is the first of the list.
abbrev pair : Tuber → Loop → Loop → System
pair t l m = record {
  tuber = t;
  loops = l ∷ m ∷ [];
  stopping = [];
  next_job = 2;
  base_cancelled = false;
}

run-new :
    (answers : List Answer) (es : List Event) (t : Tuber) (l m : Loop)
    → l.id ≡ 1
    → run (map (loops_on 1) answers ++ es) (pair t l m)
      ≡ run es (pair (run_loop answers t l).0 (run_loop answers t l).1 m)
unfolding run run_loop apply step_loops
run-new [] es t l m e = refl
run-new (a ∷ rest) es t l m e =
    let here : apply (loops_on 1 a) (pair t l m) ≡ pair (step a t l).0 (step a t l).1 m =
      rw e refl in
    ap (run (map (loops_on 1) rest ++ es)) here
    ∙ run-new rest es (step a t l).0 (step a t l).1 m (step-id a t l ∙ e)

run-late :
    (answers : List Answer) (t : Tuber) (l m : Loop)
    → l.id ≡ 1
    → m.id ≡ 0
    → run (map (loops_on 0) answers) (pair t l m)
      ≡ pair (run_loop answers t m).0 l (run_loop answers t m).1
unfolding run run_loop apply step_loops
run-late [] t l m e f = refl
run-late (a ∷ rest) t l m e f =
    let here : apply (loops_on 0 a) (pair t l m) ≡ pair (step a t m).0 l (step a t m).1 =
      rw e (rw f refl) in
    ap (run (map (loops_on 0) rest)) here
    ∙ run-late rest (step a t m).0 l (step a t m).1 e (step-id a t m ∙ f)

-- A Connected local tuber whose only loop serves.
abbrev pub serving_loop : Loop
serving_loop = record { id = 0; remote = false; cancelled = false; attempt = pos 0; pc = serving 0 }

abbrev pub connected_alone : Tuber → System
connected_alone t = record {
  tuber = record t { running = true; job = some 0; client = some 0; state = connected };
  loops = serving_loop ∷ [];
  stopping = [];
  next_job = 1;
  base_cancelled = false;
}

abbrev new_answers : ℕ → List Answer
new_answers now = go ∷ go ∷ go ∷ go ∷ go ∷ dialed 1 ∷ at now ∷ []

abbrev late_answers : ℕ → List Answer
late_answers later = at later ∷ go ∷ []

-- Stop, a Start before the first loop has left its session, and the second loop up to its session; then
-- the first loop leaves its own.
abbrev pub overtaken : Listener → ℕ → ℕ → List Event
overtaken ln now later =
    stops
    ∷ cancels 0
    ∷ starts (ok ln)
    ∷ (map (loops_on 1) (new_answers now) ++ map (loops_on 0) (late_answers later))

abbrev restarted : Tuber → Listener → Tuber
restarted t ln =
    started (stop (record t { running = true; job = some 0; client = some 0; state = connected })).0
      (some ln) 1

abbrev late_loop : Loop
late_loop = record serving_loop { cancelled = true }

overtaken-restarted :
    (t : Tuber) (ln : Listener) (es : List Event)
    → is_remote t.cfg ≡ false
    → run (stops ∷ cancels 0 ∷ starts (ok ln) ∷ es) (connected_alone t)
      ≡ run es (pair (restarted t ln) (new_loop 1 false) late_loop)
unfolding run apply stop start spawn_if spawn cancel_all
overtaken-restarted t ln es here = rw here (rw here refl)

abbrev pub places : List Loop → List (ℕ × Pc)
places ls = map (λ l. (l.id, l.pc)) ls

-- The new loop up to its session, from any tuber that runs.
new_answers-connected :
    (t : Tuber) (now : ℕ)
    → let (u, l) = run_loop (new_answers now) t (new_loop 1 false) in
      (u.running ≡ t.running)
      × (u.job ≡ t.job)
      × (u.state ≡ connected)
      × (l.id ≡ 1)
      × (l.pc ≡ serving 1)
unfolding run_loop step clear_pending_host clear_pending_passphrase clear_pending_password
new_answers-connected t now = ground arith

late_answers-clears :
    (t : Tuber) (later : ℕ)
    → let (u, l) = run_loop (late_answers later) t late_loop in
      (u.running ≡ t.running)
      × (u.job ≡ t.job)
      × (u.state ≡ t.state)
      × (u.client ≡ none)
      × (l.id ≡ 0)
      × (l.pc ≡ leaving)
unfolding run_loop step
late_answers-clears t later = (refl, refl, refl, refl, refl, refl)

restarted-running :
    (t : Tuber) (ln : Listener)
    → ((restarted t ln).running ≡ true) × ((restarted t ln).job ≡ some 1)
unfolding stop
restarted-running t ln = (refl, refl)

-- A tuber that is not remote and Connected, whose only loop serves, is stopped and started again, and
-- the new loop connects before the first one has left its session. When the first loop leaves it, it
-- takes away the client that the new loop has published: the tuber then runs and stays Connected with
-- no client, while the loop that works for it serves.
pub overtaken-clears :
    (t : Tuber) (ln : Listener) (now later : ℕ)
    → is_remote t.cfg ≡ false
    → let s = run (overtaken ln now later) (connected_alone t) in
      (s.tuber.running ≡ true)
      × (s.tuber.job ≡ some 1)
      × (s.tuber.state ≡ connected)
      × (s.tuber.client ≡ none)
      × (places s.loops ≡ (1, serving 1) ∷ (0, leaving) ∷ [])
overtaken-clears t ln now later here =
    let up = restarted t ln in
    let fresh = run_loop (new_answers now) up (new_loop 1 false) in
    let (running, job, state, id, pc) = new_answers-connected up now in
    let (running', job', state', client', id', pc') = late_answers-clears fresh.0 later in
    let (on, one) = restarted-running t ln in
    let all =
      overtaken-restarted t ln
        (map (loops_on 1) (new_answers now) ++ map (loops_on 0) (late_answers later)) here
      ∙ run-new (new_answers now) (map (loops_on 0) (late_answers later)) up (new_loop 1 false)
          late_loop refl
      ∙ run-late (late_answers later) fresh.0 fresh.1 late_loop id refl in
    rw all (
      running' ∙ running ∙ on,
      job' ∙ job ∙ one,
      state' ∙ state,
      client',
      rw id (rw pc (rw id' (rw pc' refl))),
    )
