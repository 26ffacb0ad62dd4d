-- ===== src/Forward/Tuber/Ownership/Steps.antt =====
-- What a step of one loop keeps of the others, and of the tuber.
use portato.Prelude.{
  Bool-cases, inl, inr, ℕ, ◌≡◌, refl, true, Option, none, some, List, [], ◌∷◌, ◌==◌, arith,
}
use portato.Config.Types.{Tuber as TuberConfig, Defaults}
use portato.Forward.Tuber.{Tuber, reconfigure_locked, update_metadata}
use portato.Forward.Tuber.Loop.{
  Loop, Answer, Pc, head, step, step_at, passphrase_sink, password_sink, record_unknown_host,
  clear_pending_host, clear_pending_passphrase, clear_pending_password,
}
use portato.Forward.Tuber.System.{step_loops}
use portato.Forward.Tuber.Invariant.{IsConsistent, step-IsConsistent}
use portato.Forward.Tuber.Ownership.Loops.{is_exited, Below, Held, has_loop}

-- A step moves its own loop only, which exits only when it is cancelled, and leaves the job.
record Keeps (t u : Tuber) (l k : Loop) : Type 0 where
  same_id : k.id ≡ l.id
  same_cancelled : k.cancelled ≡ l.cancelled
  exits : is_exited k.pc ≡ true → l.cancelled ≡ true
  same_job : u.job ≡ t.job
  same_running : u.running ≡ t.running

step_at-Keeps :
    (p : Pc) (a : Answer) (t : Tuber) (l : Loop)
    → l.pc ≡ p
    → (is_exited p ≡ true → l.cancelled ≡ true)
    → Keeps t (step_at p a t l).0 l (step_at p a t l).1
unfolding step_at passphrase_sink password_sink record_unknown_host clear_pending_host
    clear_pending_passphrase clear_pending_password
step_at-Keeps head a t l e x = ground arith
step_at-Keeps _ a t l e x = ground arith

step-Keeps :
    (a : Answer) (t : Tuber) (l : Loop)
    → (is_exited l.pc ≡ true → l.cancelled ≡ true)
    → Keeps t (step a t l).0 l (step a t l).1
unfolding step
step-Keeps a t l x = step_at-Keeps l.pc a t l refl x

-- What a step of a loop keeps of the whole list.
pub record KeepsAll (job : Option ℕ) (stopping : List ℕ) (n : ℕ) (t u : Tuber) (ls ks : List Loop)
    : Type 0 where
  pub all_held : Held job stopping ks
  pub all_falling : Below n ks
  pub all_present : (j : Option ℕ) → has_loop j ks ≡ has_loop j ls
  pub still_job : u.job ≡ t.job
  pub still_consistent : IsConsistent u

Held-replace :
    (job : Option ℕ) (stopping : List ℕ) (l k : Loop) (ls : List Loop)
    → k.id ≡ l.id
    → k.cancelled ≡ l.cancelled
    → (is_exited k.pc ≡ true → l.cancelled ≡ true)
    → Held job stopping (l ∷ ls)
    → Held job stopping (k ∷ ls)
Held-replace job stopping l k ls i c x h = (rw (i, c) h.0, λ e. rw c (x e), h.2)

Below-replace :
    (n : ℕ) (l k : Loop) (ls : List Loop) → k.id ≡ l.id → Below n (l ∷ ls) → Below n (k ∷ ls)
Below-replace n l k ls i b = (omega arith, rw i b.1)

has_loop-replace :
    (job : Option ℕ) (l k : Loop) (ls : List Loop)
    → k.id ≡ l.id
    → has_loop job (k ∷ ls) ≡ has_loop job (l ∷ ls)
has_loop-replace none l k ls i = refl
has_loop-replace (some j) l k ls i = rw i

has_loop-cons :
    (job : Option ℕ) (l : Loop) (ks ls : List Loop)
    → has_loop job ks ≡ has_loop job ls
    → has_loop job (l ∷ ks) ≡ has_loop job (l ∷ ls)
has_loop-cons none l ks ls h = refl
has_loop-cons (some j) l ks ls h = rw h

pub reconfigure_locked-job :
    (cfg : TuberConfig) (def : Defaults) (t : Tuber) → (reconfigure_locked cfg def t).0.job ≡ t.job
unfolding reconfigure_locked
reconfigure_locked-job cfg def t = ground arith

pub update_metadata-job :
    (cfg : TuberConfig) (def : Defaults) (t : Tuber) → (update_metadata cfg def t).job ≡ t.job
unfolding update_metadata
update_metadata-job cfg def t = refl

pub step_loops-KeepsAll :
    (id : ℕ) (a : Answer) (t : Tuber) (job : Option ℕ) (stopping : List ℕ) (n : ℕ) (ls : List Loop)
    → IsConsistent t
    → Held job stopping ls
    → Below n ls
    → KeepsAll job stopping n t (step_loops id a t ls).0 ls (step_loops id a t ls).1
unfolding step_loops
step_loops-KeepsAll id a t job stopping n [] v h b = record {
  all_held = tt;
  all_falling = tt;
  all_present = λ j. refl;
  still_job = refl;
  still_consistent = v;
}
step_loops-KeepsAll id a t job stopping n (l ∷ ls) v h b =
    let rest = step_loops-KeepsAll id a t job stopping l.id ls v h.2 b.1 in
    let k = step-Keeps a t l h.1 in
    let c = step-IsConsistent a t l v in
    elim (Bool-cases (l.id == id)) [
      | inl mine ↦ rw mine (record {
        all_held =
            Held-replace job stopping l (step a t l).1 ls k.same_id k.same_cancelled k.exits h;
        all_falling = Below-replace n l (step a t l).1 ls k.same_id b;
        all_present = λ j. has_loop-replace j l (step a t l).1 ls k.same_id;
        still_job = k.same_job;
        still_consistent = c;
      })
      | inr other ↦ rw other (record {
        all_held = (h.0, h.1, rest.all_held);
        all_falling = (b.0, rest.all_falling);
        all_present = λ j. has_loop-cons j l (step_loops id a t ls).1 ls (rest.all_present j);
        still_job = rest.still_job;
        still_consistent = rest.still_consistent;
      })
    ]
