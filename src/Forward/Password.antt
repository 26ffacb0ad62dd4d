-- ===== src/Forward/Password.antt =====
-- internal/forward/password.go, and dialSSH of internal/forward/ssh.go: the dial with a password
-- prompt. The dial itself is an answer of the environment; the provider of passwords is an interface,
-- which internal/secret's store fills.
pub mod Prompts
pub mod Stores
mod Tests
use portato.Prelude.{
  ℕ, suc, Bool, true, false, not, ◌&&◌, ◌||◌, Option, none, some, List, [], ◌∷◌, ◌++◌, Text,
  if◌then◌else◌,
}
use portato.Forward.DialErrors.{DialError, message_of, is_auth_failed, password_auth_available}

-- PasswordProvider. `arrived` is what the Set of another goroutine does, after which Wait returns.
pub record Provider : Type 1 where
  pub P : Type 0
  pub get : Text → P → P × Option Text
  pub arrived : Text → Text → P → P
  pub delete : Text → P → P

pub data DialFailure : Type 0 where
  cancelled : DialFailure
  no_auth_method : DialFailure
  bastion_needs_key : DialFailure
  no_provider : DialFailure
  no_password : Text → DialFailure
  not_offered : Text → DialError → DialFailure
  dial_failed : DialError → DialFailure

-- `waiting` is a loop that is not done yet.
pub data Dialed : Type 0 where
  client : Dialed
  refused : DialFailure → Dialed
  waiting : Dialed

-- The sink's calls, the dials and the deletions, in order.
pub data Event : Type 0 where
  prompted : Text → Event
  dismissed : Event
  tried : Text → Event
  dropped : Event

-- The answers to one round of the loop: ctx.Err at its head, what Wait returns and ctx.Err after it,
-- and the error of the dial, none for a client.
pub record Round : Type 0 where
  pub is_cancelled : Bool
  pub waited : Option Text
  pub is_cancelled_after : Bool
  pub dial : Option DialError

abbrev pub failed_auth : DialError → Bool
failed_auth e = is_auth_failed (message_of e)

-- The keys' dial, then the dial without a method: what probeBeforePassword returns; `none` is its
-- (nil, nil). The dials answer with their error, `none` for a client.
unfoldable pub probe_before_password :
    Bool → Bool → Option DialError → Option DialError → Option Dialed
probe_before_password has_keys has_jumps by_keys by_none =
    if has_keys
    then elim by_keys [
      | none ↦ some client
      | some e ↦ if not (failed_auth e) then some (refused (dial_failed e)) else none
    ]
    else if has_jumps
    then some (refused bastion_needs_key)
    else elim by_none [
      | none ↦ some client
      | some e ↦ if not (failed_auth e) then some (refused (dial_failed e)) else none
    ]

module _ (V : Provider) where
  open V use {P}

  -- The provider afterwards, what was done, and the result.
  abbrev pub Outcome : Type 0
  Outcome = P × List Event × Dialed

  abbrev pub after : List Event → Outcome → Outcome
  after es (p, fs, d) = (p, es ++ fs, d)

  abbrev told : Bool → Event → List Event
  told true e = e ∷ []
  told false e = []

  -- The dial with a password and what follows; `next` is the next round.
  unfoldable pub attempt : Text → Bool → Round → (P → Outcome) → Text → P → Outcome
  attempt account has_sink r next pw p = elim r.dial [
    | none ↦ (p, tried pw ∷ told has_sink dismissed, client)
    | some e ↦
        let again = next (V.delete account p) in
        if not (failed_auth e)
        then (p, tried pw ∷ [], refused (dial_failed e))
        else if not (password_auth_available (message_of e))
        then (p, tried pw ∷ [], refused (not_offered account e))
        else after (tried pw ∷ dropped ∷ []) again
  ]

  -- Wait's answer when Get had no password.
  unfoldable pub wait : Text → Bool → Round → (P → Outcome) → P → Outcome
  unfolding attempt
  wait account has_sink r next p = after (told has_sink (prompted account)) (elim r.waited [
    | none ↦ (p, [], refused (if r.is_cancelled_after then cancelled else no_password account))
    | some pw ↦ attempt account has_sink r next pw (V.arrived account pw p)
  ])

  abbrev pub got : Text → Bool → Round → (P → Outcome) → P × Option Text → Outcome
  got account has_sink r next (p, some pw) = attempt account has_sink r next pw p
  got account has_sink r next (p, none) = wait account has_sink r next p

  -- The loop of dialWithPasswordPrompt over the rounds that have been answered.
  unfoldable pub password_loop : Text → Bool → List Round → P → Outcome
  unfolding wait attempt
  password_loop account has_sink [] p = (p, [], waiting)
  password_loop account has_sink (r ∷ rs) p =
      let next : P → Outcome = λ q. password_loop account has_sink rs q in
      if r.is_cancelled
      then (p, [], refused cancelled)
      else got account has_sink r next (V.get account p)

  unfoldable pub dial_with_password_prompt :
      Text → Bool → Option Dialed → List Round → Option P → Option P × List Event × Dialed
  unfolding password_loop
  dial_with_password_prompt account has_sink (some d) rs p = (p, [], d)
  dial_with_password_prompt account has_sink none rs none = (none, [], refused no_provider)
  dial_with_password_prompt account has_sink none rs (some p) =
      let (q, es, d) = password_loop account has_sink rs p in (some q, es, d)

  -- dialSSH. `by_keys` answers the dial with the keys.
  unfoldable pub dial_ssh :
      Bool
      → Bool
      → Bool
      → Text
      → Option DialError
      → Option DialError
      → List Round
      → Option P
      → Option P × List Event × Dialed
  unfolding probe_before_password dial_with_password_prompt
  dial_ssh password_auth has_keys has_jumps account by_keys by_none rs p =
      if password_auth
      then dial_with_password_prompt account true
          (probe_before_password has_keys has_jumps by_keys by_none) rs p
      else if has_keys
      then elim by_keys [ none ↦ (p, [], client) | some e ↦ (p, [], refused (dial_failed e)) ]
      else (p, [], refused no_auth_method)
