-- ===== src/Forward/Passphrase.antt =====
-- internal/forward/passphrase.go: loading an identity whose key may be protected by a passphrase. Reading
-- the file and parsing the key are answers of the environment.
use portato.Prelude.{
  suc, ◌≡◌, ◌≤◌, Bool, not, Option, none, some, List, [], ◌∷◌, ◌++◌, Text, if◌then◌else◌, arith,
  Bool-cases, Option-cases, inl, inr,
}
use portato.Forward.Password.{Provider, Event, prompted, dismissed, tried, dropped}
use portato.Forward.Password.Prompts.{tries, prompts, Forgets}

-- The answers to one round of the loop: ctx.Err at its head, what Wait returns, ctx.Err after it, and
-- whether the key parses with the passphrase.
pub record Round : Type 0 where
  pub is_cancelled : Bool
  pub waited : Option Text
  pub is_cancelled_after : Bool
  pub parses : Bool

-- `no_signer` is a nil signer with a nil error; `waiting` is a loop that is not done yet.
pub data Loaded : Type 0 where
  signer : Loaded
  read_failed : Loaded
  parse_failed : Loaded
  cancelled : Loaded
  no_signer : Loaded
  waiting : Loaded

-- ssh.ParsePrivateKey: a key, a missing passphrase, or another error.
pub data Parsed : Type 0 where
  key : Parsed
  passphrase_missing : Parsed
  broken : Parsed

module _ (V : Provider) where
  open V use {P}

  abbrev pub Outcome : Type 0
  Outcome = P × List Event × Loaded

  abbrev after : List Event → Outcome → Outcome
  after es (p, fs, d) = (p, es ++ fs, d)

  unfoldable pub attempt : Text → Round → (P → Outcome) → Text → P → Outcome
  attempt path r next pass p =
      let again = next (V.delete path p) in
      if r.parses
      then (p, tried pass ∷ dismissed ∷ [], signer)
      else after (tried pass ∷ dropped ∷ []) again

  unfoldable pub wait : Text → Round → (P → Outcome) → P → Outcome
  unfolding attempt
  wait path r next p = after (prompted path ∷ []) (elim r.waited [
    | none ↦ (p, [], if r.is_cancelled_after then cancelled else no_signer)
    | some pass ↦ attempt path r next pass (V.arrived path pass p)
  ])

  abbrev got : Text → Round → (P → Outcome) → P × Option Text → Outcome
  got path r next (p, some pass) = attempt path r next pass p
  got path r next (p, none) = wait path r next p

  unfoldable pub passphrase_loop : Text → List Round → P → Outcome
  unfolding wait attempt
  passphrase_loop path [] p = (p, [], waiting)
  passphrase_loop path (r ∷ rs) p =
      let next : P → Outcome = λ q. passphrase_loop path rs q in
      if r.is_cancelled then (p, [], cancelled) else got path r next (V.get path p)

  -- loadIdentityWithPassphrase. `p` is none for a nil provider; the answer keeps no provider then.
  unfoldable pub load_identity :
      Text → Bool → Parsed → List Round → Option P → Option P × List Event × Loaded
  unfolding passphrase_loop
  load_identity path readable parsed rs p =
      if not readable then (p, [], read_failed) else by_key parsed p
    where
      by_key : Parsed → Option P → Option P × List Event × Loaded
      by_key key p = (p, [], signer)
      by_key broken p = (p, [], parse_failed)
      by_key passphrase_missing none = (none, [], parse_failed)
      by_key passphrase_missing (some p) =
          let (q, es, d) = passphrase_loop path rs p in (some q, es, d)

  abbrev Prompts : Text → (P → Outcome) → Type 0
  Prompts path next =
      (q : P) → tries (next (V.delete path q)).1 ≤ prompts (next (V.delete path q)).1

  attempt-tries :
      (path pass : Text) (r : Round) (next : P → Outcome) (p : P)
      → Prompts path next
      → tries (attempt path r next pass p).1 ≤ suc (prompts (attempt path r next pass p).1)
  unfolding attempt
  attempt-tries path pass r next p h = elim (Bool-cases r.parses) [
    | inl fine ↦ rw (attempt, fine) (omega arith)
    | inr wrong ↦ rw (attempt, wrong) (omega (arith, h p))
  ]

  wait-tries :
      (path : Text) (r : Round) (next : P → Outcome) (p : P)
      → Prompts path next
      → tries (wait path r next p).1 ≤ prompts (wait path r next p).1
  unfolding wait
  wait-tries path r next p h = elim (Option-cases r.waited) [
    | inl gone ↦ rw (wait, gone) (omega arith)
    | inr (pass, given) ↦
        rw (wait, given) (omega (arith, attempt-tries path pass r next (V.arrived path pass p) h))
  ]

  loop-prompts :
      (path : Text) (rs : List Round) (p : P)
      → Forgets V path
      → (V.get path p).1 ≡ none
      → tries (passphrase_loop path rs p).1 ≤ prompts (passphrase_loop path rs p).1
  unfolding passphrase_loop
  loop-prompts path [] p f h = omega arith
  loop-prompts path (r ∷ rs) p f h = elim (Bool-cases r.is_cancelled) [
    | inl c ↦ rw (passphrase_loop, c) (omega arith)
    | inr c ↦
        rw (passphrase_loop, c, h)
          (wait-tries path r (λ q. passphrase_loop path rs q) (V.get path p).0
            (λ q. loop-prompts path rs (V.delete path q) f (f q)))
  ]

  -- The loop tries at most one passphrase more than it prompts for. Deleting one forgets it.
  pub passphrase_loop-tries :
      (path : Text) (rs : List Round) (p : P)
      → Forgets V path
      → tries (passphrase_loop path rs p).1 ≤ suc (prompts (passphrase_loop path rs p).1)
  unfolding passphrase_loop
  passphrase_loop-tries path [] p f = omega arith
  passphrase_loop-tries path (r ∷ rs) p f = elim (Bool-cases r.is_cancelled) [
    | inl c ↦ rw (passphrase_loop, c) (omega arith)
    | inr c ↦ rw (passphrase_loop, c) (first (V.get path p))
  ]
    where
      next : P → Outcome
      next q = passphrase_loop path rs q

      each : Prompts path next
      each q = loop-prompts path rs (V.delete path q) f (f q)

      first :
          (g : P × Option Text) → tries (got path r next g).1 ≤ suc (prompts (got path r next g).1)
      first (q, some pass) = attempt-tries path pass r next q each
      first (q, none) = omega (arith, wait-tries path r next q each)
