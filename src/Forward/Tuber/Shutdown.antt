-- ===== src/Forward/Tuber/Shutdown.antt =====
-- How a loop ends once its context is cancelled, and what the tuber shows then.
use portato.Prelude.{
  ℕ, zero, suc, ◌+◌, ◌-◌, ◌≤◌, ◌≡◌, refl, Bool, true, false, List, [], ◌∷◌, arith, if◌then◌else◌,
}
use portato.Forward.Tuber.{Tuber}
use portato.Forward.Tuber.Loop.{
  Loop, Answer, go, dial_failed, dialed, listen_refused, listening, at, timer, cancelled_first, Pc,
  head, entering, clearing_host, clearing_passphrase, clearing_password, dialing,
  dropping_passphrase, dropping_password, failing, binding, publishing, serving, withdrawing,
  leaving, disconnecting, sleeping_failed, resuming, sleeping_dropped, exited, step, step_at,
}

-- How many steps a cancelled loop has before it at most.
abbrev pub remaining : Pc → ℕ
remaining head = 1
remaining entering = 11
remaining clearing_host = 10
remaining clearing_passphrase = 9
remaining clearing_password = 8
remaining dialing = 7
remaining (dropping_passphrase msg) = 6
remaining (dropping_password msg) = 5
remaining (failing msg) = 4
remaining (binding client) = 5
remaining (publishing client) = 4
remaining (serving client) = 3
remaining withdrawing = 2
remaining leaving = 1
remaining disconnecting = 3
remaining (sleeping_failed d) = 3
remaining resuming = 2
remaining (sleeping_dropped d) = 2
remaining exited = 0

-- The answers that make a cancelled loop go on. The others do not fit the place, or are the calls
-- that a dial makes before it returns.
abbrev pub moves : Pc → Answer → Bool
moves dialing (dial_failed msg) = true
moves dialing (dialed client) = true
moves (binding client) (listen_refused e) = true
moves (binding client) listening = true
moves (publishing client) (at now) = true
moves (serving client) (at now) = true
moves (sleeping_failed d) timer = true
moves (sleeping_failed d) cancelled_first = true
moves (sleeping_dropped d) timer = true
moves (sleeping_dropped d) cancelled_first = true
moves head go = true
moves entering go = true
moves clearing_host go = true
moves clearing_passphrase go = true
moves clearing_password go = true
moves (dropping_passphrase msg) go = true
moves (dropping_password msg) go = true
moves (failing msg) go = true
moves withdrawing go = true
moves leaving go = true
moves disconnecting go = true
moves resuming go = true
moves _ _ = false

abbrev pub count_move : Bool → ℕ
count_move b = if b then 1 else 0

step_at-remaining :
    (p : Pc) (a : Answer) (t : Tuber) (l : Loop)
    → l.pc ≡ p
    → l.cancelled ≡ true
    → ((step_at p a t l).1.cancelled ≡ true)
      × (count_move (moves p a) + remaining (step_at p a t l).1.pc ≤ remaining p)
unfolding step_at
step_at-remaining head a t l e c = ground arith
step_at-remaining _ a t l e c = ground arith

-- The loop alone, under a list of answers.
unfoldable pub run_loop : List Answer → Tuber → Loop → Tuber × Loop
run_loop [] t l = (t, l)
run_loop (a ∷ rest) t l = let (t', l') = step a t l in run_loop rest t' l'

unfoldable pub count_moves : List Answer → Tuber → Loop → ℕ
count_moves [] t l = 0
count_moves (a ∷ rest) t l =
    let (t', l') = step a t l in count_move (moves l.pc a) + count_moves rest t' l'

-- Whatever a cancelled loop is answered, the moves that it makes and those that remain to it
-- afterwards are together at most those that remained to it before.
pub cancelled_moves :
    (answers : List Answer) (t : Tuber) (l : Loop)
    → l.cancelled ≡ true
    → count_moves answers t l + remaining (run_loop answers t l).1.pc ≤ remaining l.pc
unfolding count_moves run_loop step
cancelled_moves [] t l c = omega arith
cancelled_moves (a ∷ rest) t l c =
    let d = step_at-remaining l.pc a t l refl c in
    omega (arith, cancelled_moves rest (step a t l).0 (step a t l).1 d.0, d.1)

-- An answer that the environment can always give at a place.
abbrev pub answer_for : Pc → Answer
answer_for dialing = dial_failed []
answer_for (binding client) = listening
answer_for (publishing client) = at 0
answer_for (serving client) = at 0
answer_for (sleeping_failed d) = cancelled_first
answer_for (sleeping_dropped d) = cancelled_first
answer_for _ = go

unfoldable pub drive : ℕ → Tuber → Loop → Tuber × Loop
drive zero t l = (t, l)
drive (suc n) t l = let (t', l') = step (answer_for l.pc) t l in drive n t' l'

step_at-answer_for :
    (p : Pc) (t : Tuber) (l : Loop)
    → l.pc ≡ p
    → l.cancelled ≡ true
    → ((step_at p (answer_for p) t l).1.cancelled ≡ true)
      × (remaining (step_at p (answer_for p) t l).1.pc ≤ remaining p - 1)
unfolding step_at
step_at-answer_for head t l e c = ground arith
step_at-answer_for _ t l e c = ground arith

none_remaining : (p : Pc) → remaining p ≡ 0 → p ≡ exited
none_remaining exited h = refl
none_remaining _ h = absurd (omega arith)

-- From every place a cancelled loop is driven to its exit in any number of steps that is at least
-- `remaining`, by answers that fit the place.
pub drive-exits :
    (n : ℕ) (t : Tuber) (l : Loop)
    → l.cancelled ≡ true
    → remaining l.pc ≤ n
    → (drive n t l).1.pc ≡ exited
unfolding drive step
drive-exits zero t l c h = none_remaining l.pc (omega arith)
drive-exits (suc n) t l c h =
    let d = step_at-answer_for l.pc t l refl c in
    drive-exits n (step (answer_for l.pc) t l).0 (step (answer_for l.pc) t l).1 d.0
      (omega (arith, d.1))
