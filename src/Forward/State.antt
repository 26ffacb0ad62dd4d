-- ===== src/Forward/State.antt =====
-- internal/forward/state.go: the states of a tuber, their names, and a tuber's snapshot.
use portato.Prelude.{
  ℕ, ◌≡◌, refl, Bool, true, false, Option, none, some, List, ◌++◌, Text, lit, text_eq,
  if◌then◌else◌,
}
use portato.Prelude.Int.{ℤ, pos, sub_ℕ}

pub data State : Type 0 where
  off connecting connected reconnecting error : State

abbrev pub state_eq : State → State → Bool
state_eq off off = true
state_eq connecting connecting = true
state_eq connected connected = true
state_eq reconnecting reconnecting = true
state_eq error error = true
state_eq _ _ = false

-- State.String, of the five states that the code makes
unfoldable pub string : State → Text
string off = lit "off"
string connecting = lit "connecting"
string connected = lit "connected"
string reconnecting = lit "reconnecting"
string error = lit "error"

-- UnmarshalJSON on a decoded name: `stateByName`, and Off for an unknown name.
unfoldable pub state_by_name : Text → State
state_by_name name =
    if text_eq name (lit "off")
    then off
    else if text_eq name (lit "connecting")
    then connecting
    else if text_eq name (lit "connected")
    then connected
    else if text_eq name (lit "reconnecting")
    then reconnecting
    else if text_eq name (lit "error")
    then error
    else off

-- A state that goes over the daemon's socket by its name arrives unchanged.
pub state_by_name-string : (s : State) → state_by_name (string s) ≡ s
unfolding state_by_name string text_eq
state_by_name-string off = refl
state_by_name-string connecting = refl
state_by_name-string connected = refl
state_by_name-string reconnecting = refl
state_by_name-string error = refl

-- `none` is the zero time.
pub record Status : Type 0 where
  pub name : Text
  pub type : Text
  pub local : Text
  pub remote : Text
  pub state : State
  pub error : Text
  pub connected_at : Option ℕ
  pub tags : List Text
  pub pending_host : Text
  pub pending_fingerprint : Text
  pub pending_host_line : Text
  pub pending_passphrase : Text
  pub passphrase_attempts : ℕ
  pub pending_password : Text
  pub password_attempts : ℕ

-- Status.Uptime at the time `now`
unfoldable pub uptime : ℕ → Status → ℤ
uptime now s =
    if state_eq s.state connected
    then elim s.connected_at [ none ↦ pos 0 | some at ↦ sub_ℕ now at ]
    else pos 0

-- Status.Endpoint
unfoldable pub endpoint : Status → Text
endpoint s =
    if text_eq s.type (lit "remote")
    then s.local ++ (lit " ← " ++ s.remote)
    else if text_eq s.type (lit "dynamic")
    then s.local ++ lit " ⇄ *"
    else s.local ++ (lit " → " ++ s.remote)
