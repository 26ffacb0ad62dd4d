-- ===== src/Forward/Tuber/Ownership/Events.antt =====
-- The calls on a tuber, and the invariant of its loops.
use portato.Prelude.{
  Bool-cases, inl, inr, ℕ, ◌<◌, ◌≡◌, refl, sym, subst, ◌∙◌, Bool, true, false, Option, none, some,
  List, [], ◌∷◌, Text, arith,
}
use mathlib.Core.Path.{subst₂}
use portato.Config.Types.{Tuber as TuberConfig, Defaults}
use portato.Forward.Tuber.{is_remote, Tuber, Result, Listener, start, start_with, stop, new_tuber}
use portato.Forward.Tuber.Loop.{Loop, new_loop}
use portato.Forward.Tuber.System.{
  System, Event, starts, starts_with, stops, cancels, cancels_base, reconfigures, updates, loops_on,
  init, spawn, spawn_if, with_job, mem, apply, run,
}
use portato.Forward.Tuber.Invariant.{
  IsConsistent, start-IsConsistent, start_with-IsConsistent, stop-IsConsistent,
  reconfigure_locked-IsConsistent, update_metadata-IsConsistent,
}
use portato.Forward.Tuber.Ownership.Loops.{
  held_job, Held-more, Held-every, has_loop-every, Below-every, Below, AllBelow, Held, has_loop,
  Inv, mem-AllBelow, AllBelow-suc, AllBelow-remove, Held-spawn, Held-stop, Held-cancel,
  has_loop-cancel, Below-cancel,
}
use portato.Forward.Tuber.Ownership.Steps.{
  reconfigure_locked-job, update_metadata-job, step_loops-KeepsAll,
}

-- The new loop works for the tuber, unless the base context is cancelled.
Held-new :
    (base remote : Bool) (next : ℕ) (stopping : List ℕ) (ls : List Loop)
    → Below next ls
    → AllBelow next stopping
    → Held (held_job base none) stopping ls
    → Held
        (held_job base (some next))
        stopping
        (record (new_loop next remote) { cancelled = base } ∷ ls)
Held-new true remote next stopping ls b a v = (refl, λ x. cc, v)
Held-new false remote next stopping ls b a v = (
  ground (arith, mem-AllBelow next stopping a),
  λ x. cc,
  Held-spawn next next stopping ls b (omega arith) v,
)

apply-spawn :
    (s : System) (t : Tuber)
    → Inv s
    → s.tuber.job ≡ none
    → IsConsistent t
    → t.job ≡ some s.next_job
    → Inv (spawn s t)
unfolding spawn
apply-spawn s t v e c j = record {
  consistent = c;
  falling = (omega arith, v.falling);
  taken = AllBelow-suc s.next_job s.stopping v.taken;
  held =
      subst
        (λ k. Held (held_job s.base_cancelled k) s.stopping (
          record (new_loop s.next_job (is_remote t.cfg)) { cancelled = s.base_cancelled }
          ∷ s.loops))
        (sym j)
        (Held-new s.base_cancelled (is_remote t.cfg) s.next_job s.stopping s.loops v.falling v.taken
          (subst (λ k. Held (held_job s.base_cancelled k) s.stopping s.loops) e v.held));
  present = rw j (ground arith);
}

-- A call that set a new job found none; one that failed left the job alone.
abbrev Started : Tuber → ℕ → Tuber × Option Text → Type 0
Started t job (u, none) = (t.job ≡ none) × (u.job ≡ some job)
Started t job (u, some e) = u.job ≡ t.job

abbrev failed : Option Text → Bool
failed none = false
failed (some e) = true

Started-intro :
    (t : Tuber) (job : ℕ) (r : Tuber × Option Text)
    → (failed r.1 ≡ false → (t.job ≡ none) × (r.0.job ≡ some job))
    → (failed r.1 ≡ true → r.0.job ≡ t.job)
    → Started t job r
Started-intro t job (u, none) x y = x refl
Started-intro t job (u, some e) x y = y refl

start-Started :
    (r : Result Listener) (job : ℕ) (t : Tuber) → IsConsistent t → Started t job (start r job t)
unfolding start
start-Started r job t v = Started-intro t job (start r job t) (ground arith) (ground arith)

start_with-Started :
    (ln : Listener) (job : ℕ) (t : Tuber) → IsConsistent t → Started t job (start_with ln job t)
unfolding start_with
start_with-Started ln job t v =
    Started-intro t job (start_with ln job t) (ground arith) (ground arith)

spawn_if-Inv :
    (s : System) (r : Tuber × Option Text)
    → Inv s
    → Started s.tuber s.next_job r
    → IsConsistent r.0
    → Inv (spawn_if s r)
unfolding spawn_if
spawn_if-Inv s (t, none) v d c = apply-spawn s t v d.0 c d.1
spawn_if-Inv s (t, some e) v d c = record {
  consistent = c;
  falling = v.falling;
  taken = v.taken;
  held = subst (λ j. Held (held_job s.base_cancelled j) s.stopping s.loops) (sym d) v.held;
  present = subst (λ j. has_loop j s.loops ≡ true) (sym d) v.present;
}

has_loop-lt : (j n : ℕ) (ls : List Loop) → Below n ls → has_loop (some j) ls ≡ true → j < n
has_loop-lt j n [] b h = cc
has_loop-lt j n (l ∷ ls) b h = ground (arith, has_loop-lt j l.id ls b.1)

stop-job : (t : Tuber) → IsConsistent t → ((stop t).0.job ≡ none) × ((stop t).1.job ≡ t.job)
unfolding stop
stop-job t v = ground arith

AllBelow-with_job :
    (job : Option ℕ) (n : ℕ) (stopping : List ℕ) (ls : List Loop)
    → Below n ls
    → has_loop job ls ≡ true
    → AllBelow n stopping
    → AllBelow n (with_job job stopping)
AllBelow-with_job none n stopping ls b h a = a
AllBelow-with_job (some j) n stopping ls b h a = (has_loop-lt j n ls b h, a)

Held-stopped :
    (base : Bool) (job : Option ℕ) (stopping : List ℕ) (ls : List Loop)
    → Held (held_job base job) stopping ls
    → Held (held_job base none) (with_job job stopping) ls
Held-stopped true job stopping ls v = Held-more job stopping ls v
Held-stopped false job stopping ls v = Held-stop job stopping ls v

stop-Inv : (s : System) → Inv s → Inv (apply stops s)
unfolding apply
stop-Inv s v =
    let (gone, taken) = stop-job s.tuber v.consistent in
    record {
      consistent = stop-IsConsistent s.tuber v.consistent;
      falling = v.falling;
      taken =
          subst (λ j. AllBelow s.next_job (with_job j s.stopping)) (sym taken)
            (AllBelow-with_job s.tuber.job s.next_job s.stopping s.loops v.falling v.present
              v.taken);
      held =
          subst₂ (λ j k. Held (held_job s.base_cancelled j) (with_job k s.stopping) s.loops)
            (sym gone) (sym taken)
            (Held-stopped s.base_cancelled s.tuber.job s.stopping s.loops v.held);
      present = subst (λ j. has_loop j s.loops ≡ true) (sym gone) refl;
    }

-- Every event keeps the invariant.
apply-Inv : (e : Event) (s : System) → Inv s → Inv (apply e s)
unfolding apply
apply-Inv (starts r) s v =
    spawn_if-Inv s _ v (start-Started r s.next_job s.tuber v.consistent)
      (start-IsConsistent r s.next_job s.tuber v.consistent)
apply-Inv (starts_with ln) s v =
    spawn_if-Inv s _ v (start_with-Started ln s.next_job s.tuber v.consistent)
      (start_with-IsConsistent ln s.next_job s.tuber v.consistent)
apply-Inv stops s v = stop-Inv s v
apply-Inv (cancels id) s v = elim (Bool-cases (mem id s.stopping)) [
  | inl legal ↦ rw legal (record {
    consistent = v.consistent;
    falling = Below-cancel s.next_job id s.loops v.falling;
    taken = AllBelow-remove s.next_job id s.stopping v.taken;
    held = Held-cancel (held_job s.base_cancelled s.tuber.job) s.stopping id s.loops legal v.held;
    present = has_loop-cancel s.tuber.job id s.loops ∙ v.present;
  })
  | inr illegal ↦ rw illegal v
]
apply-Inv cancels_base s v = record {
  consistent = v.consistent;
  falling = Below-every s.next_job s.loops v.falling;
  taken = v.taken;
  held = Held-every s.stopping s.loops;
  present = has_loop-every s.tuber.job s.loops ∙ v.present;
}
apply-Inv (reconfigures cfg def) s v = record {
  consistent = reconfigure_locked-IsConsistent cfg def s.tuber v.consistent;
  falling = v.falling;
  taken = v.taken;
  held = rw (reconfigure_locked-job cfg def s.tuber) v.held;
  present = rw (reconfigure_locked-job cfg def s.tuber) v.present;
}
apply-Inv (updates cfg def) s v = record {
  consistent = update_metadata-IsConsistent cfg def s.tuber v.consistent;
  falling = v.falling;
  taken = v.taken;
  held = rw (update_metadata-job cfg def s.tuber) v.held;
  present = rw (update_metadata-job cfg def s.tuber) v.present;
}
apply-Inv (loops_on id a) s v =
    let k =
      step_loops-KeepsAll id a s.tuber (held_job s.base_cancelled s.tuber.job) s.stopping s.next_job
        s.loops v.consistent v.held v.falling in
    record {
      consistent = k.still_consistent;
      falling = k.all_falling;
      taken = v.taken;
      held = rw k.still_job k.all_held;
      present = rw k.still_job (k.all_present s.tuber.job ∙ v.present);
    }

pub run-Inv : (es : List Event) (s : System) → Inv s → Inv (run es s)
unfolding run
run-Inv [] s v = v
run-Inv (e ∷ es) s v = run-Inv es (apply e s) (apply-Inv e s v)

pub init-Inv : (cfg : TuberConfig) (def : Defaults) → Inv (init cfg def)
unfolding init new_tuber
init-Inv cfg def = record {
  consistent = ground arith;
  falling = tt;
  taken = tt;
  held = tt;
  present = refl;
}
