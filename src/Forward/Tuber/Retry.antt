-- ===== src/Forward/Tuber/Retry.antt =====
-- The delays of a loop whose dials keep failing.
use portato.Prelude.{
  ℕ, ◌+◌, ◌^◌, ◌≡◌, refl, false, List, [], ◌∷◌, ◌++◌, length, Text, arith, ap, ◌∙◌,
}
use portato.Prelude.Int.{pos}
use portato.Forward.Backoff.{next_backoff, next_backoff-capped, capped}
use portato.Forward.State.{error}
use portato.Forward.Tuber.{Tuber}
use portato.Forward.Tuber.Loop.{Loop, Answer, go, dial_failed, timer, head, sleeping_failed, step}
use portato.Forward.Tuber.Shutdown.{run_loop}

-- One failing attempt, from the head of the loop into the sleep; and the end of the sleep.
abbrev pub attempt_fails : Text → List Answer
attempt_fails msg = go ∷ go ∷ go ∷ go ∷ go ∷ dial_failed msg ∷ go ∷ go ∷ go ∷ []

abbrev pub wakes : List Answer
wakes = timer ∷ go ∷ []

abbrev pub attempts_fail : List Text → List Answer
attempts_fail [] = []
attempts_fail (msg ∷ rest) = attempt_fails msg ++ (wakes ++ attempts_fail rest)

run_loop-append :
    (xs ys : List Answer) (t : Tuber) (l : Loop)
    → run_loop (xs ++ ys) t l ≡ run_loop ys (run_loop xs t l).0 (run_loop xs t l).1
unfolding run_loop
run_loop-append [] ys t l = refl
run_loop-append (a ∷ xs) ys t l = run_loop-append xs ys (step a t l).0 (step a t l).1

-- A loop that is about to dial for the (n + 1)-st time since the last session.
abbrev pub waits_at : ℕ → Loop → Loop
waits_at n l = record l { cancelled = false; attempt = pos n; pc = head }

attempt_fails-sleeps :
    (msg : Text) (n : ℕ) (t : Tuber) (l : Loop)
    → let (u, k) = run_loop (attempt_fails msg) t (waits_at n l) in
      (k ≡ record l {
        cancelled = false;
        attempt = pos (n + 1);
        pc = sleeping_failed (next_backoff (pos (n + 1)));
      })
      × (u.state ≡ error)
      × (u.err_msg ≡ msg)
unfolding run_loop step
attempt_fails-sleeps msg n t l = ground arith

-- After k failed attempts, from an attempt counter of n, one more failing attempt leaves the tuber in
-- Error with the error of the dial, and the loop asleep for 1 s doubled n + k + 1 times, at most 30 s.
pub attempts_fail-delay :
    (msgs : List Text) (msg : Text) (n : ℕ) (t : Tuber) (l : Loop)
    → let (u, k) = run_loop (attempts_fail msgs ++ attempt_fails msg) t (waits_at n l) in
      (k.pc ≡ sleeping_failed (pos (capped (2 ^ (n + length msgs + 1)))))
      × (u.state ≡ error)
      × (u.err_msg ≡ msg)
unfolding run_loop step
attempts_fail-delay [] msg n t l =
    let (k, state, e) = attempt_fails-sleeps msg n t l in
    (
      ap (λ (m : Loop). m.pc) k
          ∙ ap sleeping_failed (
              next_backoff-capped (pos (n + 1))
              ∙ ap (λ (i : ℕ). pos (capped (2 ^ i))) (omega arith)),
      state,
      e,
    )
attempts_fail-delay (m ∷ msgs) msg n t l =
    let u = (run_loop (attempt_fails m ++ wakes) t (waits_at n l)).0 in
    let (pc, state, e) = attempts_fail-delay msgs msg (n + 1) u l in
    (pc ∙ ap (λ (i : ℕ). sleeping_failed (pos (capped (2 ^ i)))) (omega arith), state, e)
