-- ===== src/Forward/Password/Prompts.antt =====
-- How often the loop of internal/forward/password.go dials and prompts.
use portato.Prelude.{
  ℕ, suc, ◌≡◌, ◌≤◌, refl, ap, ◌∙◌, Bool, true, false, not, ◌&&◌, Option, none, some, List, [], ◌∷◌,
  all, length, Text, arith, Bool-cases, Option-cases, inl, inr,
}
use portato.Forward.DialErrors.{DialError, message_of, password_auth_available}
use portato.Forward.Password.{
  Provider, waiting, Event, prompted, dismissed, tried, dropped, Round, failed_auth, Outcome, after,
  attempt, wait, got, password_loop,
}

abbrev pub tries : List Event → ℕ
tries [] = 0
tries (tried pw ∷ es) = suc (tries es)
tries (prompted a ∷ es) = tries es
tries (dismissed ∷ es) = tries es
tries (dropped ∷ es) = tries es

abbrev pub prompts : List Event → ℕ
prompts [] = 0
prompts (prompted a ∷ es) = suc (prompts es)
prompts (tried pw ∷ es) = prompts es
prompts (dismissed ∷ es) = prompts es
prompts (dropped ∷ es) = prompts es

module _ (V : Provider) where
  open V use {P}

  -- The loop from the next round on prompts for each dial.
  abbrev Prompts : Text → (P → Outcome V) → Type 0
  Prompts account next =
      (q : P) → tries (next (V.delete account q)).1 ≤ prompts (next (V.delete account q)).1

  attempt-tries :
      (account pw : Text) (r : Round) (next : P → Outcome V) (p : P)
      → Prompts account next
      → tries (attempt V account true r next pw p).1
        ≤ suc (prompts (attempt V account true r next pw p).1)
  unfolding attempt
  attempt-tries account pw r next p h = elim (Option-cases r.dial) [
    | inl fine ↦ rw (attempt, fine) (omega arith)
    | inr (e, bad) ↦ elim (Bool-cases (failed_auth e)) [
      | inr no_auth ↦ rw (attempt, bad, no_auth) (omega arith)
      | inl auth ↦ elim (Bool-cases (password_auth_available (message_of e))) [
        | inr closed ↦ rw (attempt, bad, auth, closed) (omega arith)
        | inl open_door ↦ rw (attempt, bad, auth, open_door) (omega (arith, h p))
      ]
    ]
  ]

  wait-tries :
      (account : Text) (r : Round) (next : P → Outcome V) (p : P)
      → Prompts account next
      → tries (wait V account true r next p).1 ≤ prompts (wait V account true r next p).1
  unfolding wait
  wait-tries account r next p h = elim (Option-cases r.waited) [
    | inl gone ↦ rw (wait, gone) (omega arith)
    | inr (pw, given) ↦
        rw (wait, given) (omega (arith, attempt-tries account pw r next (V.arrived account pw p) h))
  ]

  -- Deleting a password forgets it.
  abbrev pub Forgets : Text → Type 0
  Forgets account = (p : P) → (V.get account (V.delete account p)).1 ≡ none

  loop-prompts :
      (account : Text) (rs : List Round) (p : P)
      → Forgets account
      → (V.get account p).1 ≡ none
      → tries (password_loop V account true rs p).1 ≤ prompts (password_loop V account true rs p).1
  unfolding password_loop
  loop-prompts account [] p f h = omega arith
  loop-prompts account (r ∷ rs) p f h = elim (Bool-cases r.is_cancelled) [
    | inl c ↦ rw (password_loop, c) (omega arith)
    | inr c ↦
        rw (password_loop, c, h)
          (wait-tries account r (λ q. password_loop V account true rs q) (V.get account p).0
            (λ q. loop-prompts account rs (V.delete account q) f (f q)))
  ]

  -- The loop dials at most once more often than it prompts, for each number of rounds: no wrong
  -- password is tried again before the user has been asked. Deleting a password forgets it.
  pub password_loop-tries :
      (account : Text) (rs : List Round) (p : P)
      → Forgets account
      → tries (password_loop V account true rs p).1
        ≤ suc (prompts (password_loop V account true rs p).1)
  unfolding password_loop
  password_loop-tries account [] p f = omega arith
  password_loop-tries account (r ∷ rs) p f = elim (Bool-cases r.is_cancelled) [
    | inl c ↦ rw (password_loop, c) (omega arith)
    | inr c ↦ rw (password_loop, c) (first (V.get account p))
  ]
    where
      next : P → Outcome V
      next q = password_loop V account true rs q

      each : Prompts account next
      each q = loop-prompts account rs (V.delete account q) f (f q)

      first :
          (g : P × Option Text)
          → tries (got V account true r next g).1 ≤ suc (prompts (got V account true r next g).1)
      first (q, some pw) = attempt-tries account pw r next q each
      first (q, none) = omega (arith, wait-tries account r next q each)

  -- A wrong password: the server takes passwords, and not this one.
  abbrev pub is_wrong : Round → Bool
  is_wrong r = not r.is_cancelled && rejects r.dial
    where
      rejects : Option DialError → Bool
      rejects none = false
      rejects (some e) = failed_auth e && password_auth_available (message_of e)

  -- In the states `Q` the provider has the password, and has it again after its deletion.
  abbrev pub Keeps : Text → Text → (P → Type 0) → Type 0
  Keeps account pw Q =
      (p : P) → Q p → ((V.get account p).1 ≡ some pw) × Q (V.delete account (V.get account p).0)

  wrong_attempt :
      (account pw : Text) (r : Round) (next : P → Outcome V) (p : P)
      → is_wrong r ≡ true
      → attempt V account true r next pw p
        ≡ after V (tried pw ∷ dropped ∷ []) (next (V.delete account p))
  unfolding attempt
  wrong_attempt account pw r next p h = elim (Option-cases r.dial) [
    | inl fine ↦ absurd (ground (arith, fine))
    | inr (e, bad) ↦ ground (arith, bad)
  ]

  wrong_round :
      (account pw : Text) (r : Round) (rs : List Round) (p : P)
      → is_wrong r ≡ true
      → (V.get account p).1 ≡ some pw
      → password_loop V account true (r ∷ rs) p
        ≡ after V
            (tried pw ∷ dropped ∷ [])
            (password_loop V account true rs (V.delete account (V.get account p).0))
  unfolding password_loop
  wrong_round account pw r rs p h has =
      rw (password_loop, not_cancelled, has)
        (wrong_attempt account pw r (λ q. password_loop V account true rs q) (V.get account p).0 h)
    where
      not_cancelled : r.is_cancelled ≡ false
      not_cancelled = ground arith

  -- A password that comes back after its deletion is tried on every round, without a prompt and
  -- without an end: in each round the server rejects it.
  pub password_loop-spins :
      (account pw : Text) (Q : P → Type 0) (rs : List Round) (p : P)
      → Keeps account pw Q
      → Q p
      → all is_wrong rs ≡ true
      → (tries (password_loop V account true rs p).1 ≡ length rs)
        × (prompts (password_loop V account true rs p).1 ≡ 0)
        × ((password_loop V account true rs p).2 ≡ waiting)
  unfolding password_loop
  password_loop-spins account pw Q [] p k q h = (refl, refl, refl)
  password_loop-spins account pw Q (r ∷ rs) p k q h =
      let (has, q') = k p q in
      let (dials, asks, result) =
        password_loop-spins account pw Q rs (V.delete account (V.get account p).0) k q'
          (ground arith) in
      let round = wrong_round account pw r rs p (ground arith) has in
      (
        ap (λ (o : Outcome V). tries o.1) round ∙ ap (λ n. suc n) dials,
        ap (λ (o : Outcome V). prompts o.1) round ∙ asks,
        ap (λ (o : Outcome V). o.2) round ∙ result,
      )
