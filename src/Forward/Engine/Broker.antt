-- ===== src/Forward/Engine/Broker.antt =====
-- internal/forward/engine.go: Subscribe, the unsubscribe function that it returns, and notify. A
-- channel of the engine is its number of waiting signals, and whether it is in `subs`; it is known
-- by its position among the channels ever made.
pub mod Delivery
use portato.Prelude.{
  ℕ, zero, suc, ◌+◌, ◌-◌, ◌≤◌, ◌≡◌, refl, ◌∙◌, Bool, true, false, ◌&&◌, some, List, [], ◌∷◌, ◌++◌,
  all, any, all-append, get_elem?, ltb, leb, ◌==◌, if◌then◌else◌, arith,
}

abbrev pub subscriber_buffer : ℕ
subscriber_buffer = 16

pub record Channel : Type 0 where
  pub queued : ℕ
  pub subscribed : Bool

-- The select of `notify`: a full buffer takes the default branch.
unfoldable pub send : Channel → Channel
send c =
    if c.subscribed && ltb c.queued subscriber_buffer then record c { queued = c.queued + 1 } else c

-- The channels, after `Subscribe`, whose channel is the last one.
unfoldable pub subscribe : List Channel → List Channel
subscribe b = b ++ record { queued = 0; subscribed = true } ∷ []

unfoldable pub notify : List Channel → List Channel
unfolding send
notify [] = []
notify (c ∷ b) = send c ∷ notify b

-- A change of the channel at a position.
unfoldable pub change_at : ℕ → (Channel → Channel) → List Channel → List Channel
change_at i f [] = []
change_at zero f (c ∷ b) = f c ∷ b
change_at (suc i) f (c ∷ b) = c ∷ change_at i f b

abbrev pub drop_from_subs : Channel → Channel
drop_from_subs c = record c { subscribed = false }

-- `once.Do`: a second call changes nothing.
unfoldable pub unsubscribe : ℕ → List Channel → List Channel
unfolding change_at
unsubscribe i b = change_at i drop_from_subs b

-- A receive of the subscriber. It waits while the channel is empty, and so changes nothing.
abbrev pub receive_one : Channel → Channel
receive_one c = record c { queued = c.queued - 1 }

pub data Event : Type 0 where
  subscribes : Event
  notifies : Event
  unsubscribes : ℕ → Event
  receives : ℕ → Event

unfoldable pub apply : Event → List Channel → List Channel
unfolding subscribe notify unsubscribe change_at
apply subscribes b = subscribe b
apply notifies b = notify b
apply (unsubscribes i) b = unsubscribe i b
apply (receives i) b = change_at i receive_one b

unfoldable pub run : List Event → List Channel → List Channel
unfolding apply
run [] b = b
run (e ∷ es) b = run es (apply e b)
