-- ===== src/Forward/Backoff.antt =====
-- internal/forward/backoff.go, and stableResetInterval of internal/forward/tuber.go: the delays
-- between reconnects. A duration is an `int64` of nanoseconds.
use portato.Prelude.{
  ℕ, zero, suc, ◌+◌, ◌*◌, ◌%◌, ◌^◌, ◌≤◌, ◌<◌, ◌≡◌, ◌⊎◌, ap, ◌∙◌, ◌-◌, ◌||◌, true, false, arith, leb,
  if◌then◌else◌, Bool-cases, inl, inr,
}
use native.Mathlib.Nat.{
  add-zero, add-suc, pow-zero, pow-suc, mul_assoc, pow-le-pow_right, one-le-pow, two-pow-succ,
}
use native.Mathlib.Numerals.{add-one}
use native.Mathlib.Decide.{dec_lt}
use portato.Prelude.Int.{ℤ, pos, ltb_ℤ, leb_ℤ, eqb_ℤ, eqb_ℤ_iff, pos_part, inc, to_int64}

abbrev pub second : ℕ
second = 1000000000

abbrev pub backoff_base : ℕ
backoff_base = 1 * second

abbrev pub backoff_max : ℕ
backoff_max = 30 * second

abbrev pub stable_reset_interval : ℕ
stable_reset_interval = 30 * second

-- The longest duration.
abbrev pub max_duration : ℕ
max_duration = 2 ^ 63 - 1

-- x << n on an `int64`: the bits that leave the word are lost.
unfoldable pub shl64 : ℕ → ℕ → ℤ
shl64 x n = to_int64 (x * 2 ^ n % 2 ^ 64)

unfoldable pub clamp_negative : ℤ → ℕ
clamp_negative attempt = if ltb_ℤ attempt (pos 0) then 0 else pos_part attempt

unfoldable pub next_backoff : ℤ → ℤ
next_backoff attempt =
    let d = shl64 backoff_base (clamp_negative attempt) in
    if leb_ℤ d (pos 0) || ltb_ℤ (pos backoff_max) d then pos backoff_max else d

unfoldable pub next_attempt_after_disconnect : ℤ → ℤ → ℤ
next_attempt_after_disconnect stable attempt =
    if leb_ℤ (pos stable_reset_interval) stable then pos 0 else inc attempt

-- The delay without words: the base doubled for each attempt, and the cap.
abbrev pub capped : ℕ → ℕ
capped p = if leb (backoff_base * p) backoff_max then backoff_base * p else backoff_max

-- The clamp of `next_backoff`.
abbrev clamp : ℤ → ℤ
clamp d = if leb_ℤ d (pos 0) || ltb_ℤ (pos backoff_max) d then pos backoff_max else d

small_shift :
    (p : ℕ) → 1 ≤ p → p ≤ 2 ^ 33 → clamp (to_int64 (backoff_base * p % 2 ^ 64)) ≡ pos (capped p)
small_shift p l h = ground arith

-- What a long shift leaves of the base is a multiple of 2 ^ 43, often 0.
left_over : (m w : ℕ) → w ≡ backoff_base * (2 ^ 34 * m) % 2 ^ 64 → (w ≡ 0) ⊎ (2 ^ 43 ≤ w)
left_over m w e = omega arith

clamp_left_over :
    (w : ℕ) → (w ≡ 0) ⊎ (2 ^ 43 ≤ w) → w < 2 ^ 64 → clamp (to_int64 w) ≡ pos backoff_max
clamp_left_over w e h = ground arith

pow-add : (k n : ℕ) → 2 ^ (k + n) ≡ 2 ^ k * 2 ^ n
pow-add k zero = simp (add-zero, pow-zero) (omega arith)
pow-add k (suc n) = simp (add-suc, pow-suc, pow-add k n, mul_assoc)

large_shift :
    (p m : ℕ)
    → 1 ≤ m
    → p ≡ 2 ^ 34 * m
    → clamp (to_int64 (backoff_base * p % 2 ^ 64)) ≡ pos (capped p)
large_shift p m l e =
    clamp_left_over _ (left_over m _ (ap (λ (k : ℕ). backoff_base * k % 2 ^ 64) e)) (omega arith)
    ∙ ground arith

shifted : (n : ℕ) → clamp (shl64 backoff_base n) ≡ pos (capped (2 ^ n))
unfolding shl64
shifted n = elim (dec_lt n 34) [
  | yes h ↦
      small_shift (2 ^ n) (one-le-pow n 2 (omega arith))
        (pow-le-pow_right {n = 2} (omega arith) {i = n} {j = 33} (omega arith))
  | no h ↦
      large_shift (2 ^ n) (2 ^ (n - 34)) (one-le-pow (n - 34) 2 (omega arith))
        (ap (λ (k : ℕ). 2 ^ k) (let e : n ≡ 34 + (n - 34) = omega arith in e) ∙ pow-add 34 (n - 34))
]

clamp_negative_lem : (attempt : ℤ) → clamp_negative attempt ≡ pos_part attempt
unfolding clamp_negative
clamp_negative_lem attempt = ground arith

-- Whatever the attempt, also far beyond the width of a word: 1 s doubled for each attempt, capped
-- at 30 s; a negative attempt counts as 0.
pub next_backoff-capped : (attempt : ℤ) → next_backoff attempt ≡ pos (capped (2 ^ pos_part attempt))
unfolding next_backoff
next_backoff-capped attempt = rw (clamp_negative_lem attempt) (shifted (pos_part attempt))

session_delay :
    (stable : ℤ) (n : ℕ)
    → let d = next_backoff (next_attempt_after_disconnect stable (pos n)) in
      (leb_ℤ (pos stable_reset_interval) stable ≡ true → d ≡ pos backoff_base)
      × (leb_ℤ (pos stable_reset_interval) stable ≡ false → leb_ℤ (next_backoff (pos n)) d ≡ true)
unfolding next_attempt_after_disconnect
session_delay stable n = (
  λ h. rw h (next_backoff-capped (pos 0)),
  λ h. ground (
    arith,
    next_backoff-capped (pos n),
    next_backoff-capped (pos (n + 1)),
    two-pow-succ n,
    ap (λ (k : ℕ). 2 ^ k) (add-one n),
  ),
)

-- After a session that was stable for 30 s the next delay is the base; after a shorter one it is at
-- least the delay of the attempt before.
pub next_backoff_after_disconnect :
    (stable : ℤ) (n : ℕ)
    → let d = next_backoff (next_attempt_after_disconnect stable (pos n)) in
      (if leb_ℤ (pos stable_reset_interval) stable
        then eqb_ℤ d (pos backoff_base)
        else leb_ℤ (next_backoff (pos n)) d)
      ≡ true
next_backoff_after_disconnect stable n =
    let (long, short) = session_delay stable n in
    elim (Bool-cases (leb_ℤ (pos stable_reset_interval) stable)) [
      | inl h ↦ rw h ((eqb_ℤ_iff _ _).1 (long h))
      | inr h ↦ rw h (short h)
    ]
