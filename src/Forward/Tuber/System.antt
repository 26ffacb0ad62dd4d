-- ===== src/Forward/Tuber/System.antt =====
-- A tuber with the goroutines that share it: the callers of its methods and its run loops. An
-- event is one section under the mutex, so a list of events is one interleaving. Nothing stops a
-- caller from starting the tuber while another waits in Stop for the loop before.
use portato.Prelude.{
  ℕ, suc, Bool, true, false, Option, none, some, List, [], ◌∷◌, Text, ◌==◌, ◌||◌, if◌then◌else◌,
}
use portato.Config.Types.{Tuber as TuberConfig, Defaults}
use portato.Forward.Tuber.{
  Tuber, Listener, Result, new_tuber, is_remote, start, start_with, stop, reconfigure_locked,
  update_metadata,
}
use portato.Forward.Tuber.Loop.{Loop, Answer, new_loop, step}

-- `base_cancelled` tells whether the context that all starts derive theirs from, the daemon's, has been
-- cancelled; `stopping` holds the jobs that a Stop has taken out of the tuber and not cancelled yet.
pub record System : Type 0 where
  pub tuber : Tuber
  pub loops : List Loop
  pub stopping : List ℕ
  pub next_job : ℕ
  pub base_cancelled : Bool

pub data Event : Type 0 where
  starts : Result Listener → Event
  starts_with : Listener → Event
  stops : Event
  -- the call of cancel in a Stop that has taken this job
  cancels : ℕ → Event
  -- the call of cancel of the base context, as in the daemon's Shutdown before it stops the tubers
  cancels_base : Event
  -- Reconfigure under the mutex; the Restart that may follow is a stop and a start
  reconfigures : TuberConfig → Defaults → Event
  updates : TuberConfig → Defaults → Event
  -- a step of the loop with this job
  loops_on : ℕ → Answer → Event

unfoldable pub init : TuberConfig → Defaults → System
unfolding new_tuber
init cfg def = record {
  tuber = new_tuber cfg def;
  loops = [];
  stopping = [];
  next_job = 0;
  base_cancelled = false;
}

-- A call that set a new job has started its loop, whose context derives from the base context.
unfoldable pub spawn : System → Tuber → System
spawn s t = record {
  tuber = t;
  loops = record (new_loop s.next_job (is_remote t.cfg)) { cancelled = s.base_cancelled } ∷ s.loops;
  stopping = s.stopping;
  next_job = suc s.next_job;
  base_cancelled = s.base_cancelled;
}

unfoldable pub spawn_if : System → Tuber × Option Text → System
unfolding spawn
spawn_if s (t, none) = spawn s t
spawn_if s (t, some e) = record s { tuber = t }

abbrev pub with_job : Option ℕ → List ℕ → List ℕ
with_job none ids = ids
with_job (some id) ids = id ∷ ids

abbrev pub mem : ℕ → List ℕ → Bool
mem id [] = false
mem id (j ∷ js) = (j == id) || mem id js

abbrev pub remove : ℕ → List ℕ → List ℕ
remove id [] = []
remove id (j ∷ js) = let rest = remove id js in if j == id then rest else j ∷ rest

abbrev pub cancel_loop : ℕ → Loop → Loop
cancel_loop id l = if l.id == id then record l { cancelled = true } else l

unfoldable pub cancel_all : ℕ → List Loop → List Loop
cancel_all id [] = []
cancel_all id (l ∷ ls) = cancel_loop id l ∷ cancel_all id ls

unfoldable pub cancel_every : List Loop → List Loop
cancel_every [] = []
cancel_every (l ∷ ls) = record l { cancelled = true } ∷ cancel_every ls

-- The loop with this job takes a step.
unfoldable pub step_loops : ℕ → Answer → Tuber → List Loop → Tuber × List Loop
step_loops id a t [] = (t, [])
step_loops id a t (l ∷ ls) =
    let (t', ls') = step_loops id a t ls in
    let (u, l') = step a t l in if l.id == id then (u, l' ∷ ls) else (t', l ∷ ls')

unfoldable pub apply : Event → System → System
apply (starts listened) s = spawn_if s (start listened s.next_job s.tuber)
apply (starts_with ln) s = spawn_if s (start_with ln s.next_job s.tuber)
apply stops s =
    let (t, h) = stop s.tuber in record s { tuber = t; stopping = with_job h.job s.stopping }
apply (cancels id) s =
    if mem id s.stopping
    then record s { loops = cancel_all id s.loops; stopping = remove id s.stopping }
    else s
apply cancels_base s = record s { loops = cancel_every s.loops; base_cancelled = true }
apply (reconfigures cfg def) s = record s { tuber = (reconfigure_locked cfg def s.tuber).0 }
apply (updates cfg def) s = record s { tuber = update_metadata cfg def s.tuber }
apply (loops_on id a) s =
    let (t, ls) = step_loops id a s.tuber s.loops in record s { tuber = t; loops = ls }

unfoldable pub run : List Event → System → System
run [] s = s
run (e ∷ es) s = run es (apply e s)
