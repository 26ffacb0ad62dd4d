-- ===== src/Forward/Engine/Broker/Delivery.antt =====
-- What the subscribers of the engine receive: internal/forward/engine.go.
use portato.Prelude.{
  ℕ, zero, suc, ◌≤◌, ◌≡◌, refl, ◌∙◌, Bool, true, false, some, List, [], ◌∷◌, all, any, all-append,
  get_elem?, leb, ◌==◌, if◌then◌else◌, arith,
}
use portato.Forward.Engine.Broker.{
  subscriber_buffer, Channel, send, subscribe, notify, change_at, drop_from_subs, unsubscribe,
  receive_one, Event, apply, run, subscribes, notifies, unsubscribes, receives,
}

-- What an event does to the channel at a position.
unfoldable change : ℕ → Event → Channel → Channel
unfolding send
change i subscribes c = c
change i notifies c = send c
change i (unsubscribes j) c = if j == i then drop_from_subs c else c
change i (receives j) c = if j == i then receive_one c else c

unfoldable changes : ℕ → List Event → Channel → Channel
unfolding change
changes i [] c = c
changes i (e ∷ es) c = changes i es (change i e c)

get-subscribe :
    (i : ℕ) (b : List Channel) (c : Channel)
    → get_elem? b i ≡ some c
    → get_elem? (subscribe b) i ≡ some c
unfolding subscribe
get-subscribe i [] c here = cc
get-subscribe zero (d ∷ b) c here = here
get-subscribe (suc i) (d ∷ b) c here = get-subscribe i b c here

get-notify :
    (i : ℕ) (b : List Channel) (c : Channel)
    → get_elem? b i ≡ some c
    → get_elem? (notify b) i ≡ some (send c)
unfolding notify
get-notify i [] c here = cc
get-notify zero (d ∷ b) c here = cc
get-notify (suc i) (d ∷ b) c here = get-notify i b c here

get-change_at :
    (f : Channel → Channel) (j i : ℕ) (b : List Channel) (c : Channel)
    → get_elem? b i ≡ some c
    → get_elem? (change_at j f b) i ≡ some (if j == i then f c else c)
unfolding change_at
get-change_at f j i [] c here = cc
get-change_at f zero zero (d ∷ b) c here = ground arith
get-change_at f zero (suc i) (d ∷ b) c here = ground arith
get-change_at f (suc j) zero (d ∷ b) c here = ground arith
get-change_at f (suc j) (suc i) (d ∷ b) c here = ground (arith, get-change_at f j i b c here)

get-apply :
    (e : Event) (i : ℕ) (b : List Channel) (c : Channel)
    → get_elem? b i ≡ some c
    → get_elem? (apply e b) i ≡ some (change i e c)
unfolding apply change unsubscribe
get-apply subscribes i b c here = get-subscribe i b c here
get-apply notifies i b c here = get-notify i b c here
get-apply (unsubscribes j) i b c here = get-change_at drop_from_subs j i b c here
get-apply (receives j) i b c here = get-change_at receive_one j i b c here

get-run :
    (es : List Event) (i : ℕ) (b : List Channel) (c : Channel)
    → get_elem? b i ≡ some c
    → get_elem? (run es b) i ≡ some (changes i es c)
unfolding run changes
get-run [] i b c here = here
get-run (e ∷ es) i b c here = get-run es i (apply e b) (change i e c) (get-apply e i b c here)

-- Whether the subscriber of a channel receives from it in a sequence of events.
abbrev pub reads : ℕ → Event → Bool
reads i (receives j) = j == i
reads i _ = false

abbrev pub leaves : ℕ → Event → Bool
leaves i (unsubscribes j) = j == i
leaves i _ = false

abbrev pub fits : Channel → Bool
fits c = leb c.queued subscriber_buffer

change-nonempty :
    (i : ℕ) (e : Event) (c : Channel) → reads i e ≡ false → 1 ≤ c.queued → 1 ≤ (change i e c).queued
unfolding change send
change-nonempty i subscribes c h w = w
change-nonempty i notifies c h w = ground arith
change-nonempty i (unsubscribes j) c h w = ground arith
change-nonempty i (receives j) c h w = ground arith

changes-nonempty :
    (i : ℕ) (es : List Event) (c : Channel)
    → any (reads i) es ≡ false
    → 1 ≤ c.queued
    → 1 ≤ (changes i es c).queued
unfolding changes
changes-nonempty i [] c h w = w
changes-nonempty i (e ∷ es) c h w =
    changes-nonempty i es (change i e c) (ground arith) (change-nonempty i e c (ground arith) w)

send-nonempty : (c : Channel) → c.subscribed ≡ true → 1 ≤ (send c).queued
unfolding send
send-nonempty c s = ground arith

-- After a notify, a channel that was subscribed has a signal waiting as long as its subscriber does
-- not read from it, whatever else happens.
pub run-notify :
    (b : List Channel) (es : List Event) (i : ℕ) (c : Channel)
    → get_elem? b i ≡ some c
    → c.subscribed ≡ true
    → any (reads i) es ≡ false
    → (d : Channel) × (get_elem? (run es (notify b)) i ≡ some d) × (1 ≤ d.queued)
run-notify b es i c here s unread = (
  changes i es (send c),
  get-run es i (notify b) (send c) (get-notify i b c here),
  changes-nonempty i es (send c) unread (send-nonempty c s),
)

change-unsubscribed :
    (i : ℕ) (e : Event) (c : Channel)
    → c.subscribed ≡ false
    → ((change i e c).subscribed ≡ false) × ((change i e c).queued ≤ c.queued)
unfolding change send
change-unsubscribed i subscribes c s = (s, omega arith)
change-unsubscribed i notifies c s = ground arith
change-unsubscribed i (unsubscribes j) c s = ground arith
change-unsubscribed i (receives j) c s = ground arith

changes-unsubscribed :
    (i : ℕ) (es : List Event) (c : Channel)
    → c.subscribed ≡ false
    → (changes i es c).queued ≤ c.queued
unfolding changes
changes-unsubscribed i [] c s = omega arith
changes-unsubscribed i (e ∷ es) c s =
    let (s', less) = change-unsubscribed i e c s in
    omega (arith, changes-unsubscribed i es (change i e c) s')

-- After its unsubscribe function has run, a channel never again has more signals waiting than it had
-- then.
pub run-unsubscribe :
    (b : List Channel) (es : List Event) (i : ℕ) (c : Channel)
    → get_elem? b i ≡ some c
    → (d : Channel) × (get_elem? (run es (unsubscribe i b)) i ≡ some d) × (d.queued ≤ c.queued)
unfolding unsubscribe
run-unsubscribe b es i c here = (
  changes i es (drop_from_subs c),
  get-run es i (unsubscribe i b) (drop_from_subs c)
      (get-change_at drop_from_subs i i b c here ∙ ground arith),
  changes-unsubscribed i es (drop_from_subs c) refl,
)

notify-fits : (b : List Channel) → all fits b ≡ true → all fits (notify b) ≡ true
unfolding notify send
notify-fits [] h = refl
notify-fits (c ∷ b) h = ground (arith, notify-fits b)

change_at-fits :
    (i : ℕ) (f : Channel → Channel) (b : List Channel)
    → ((c : Channel) → fits c ≡ true → fits (f c) ≡ true)
    → all fits b ≡ true
    → all fits (change_at i f b) ≡ true
unfolding change_at
change_at-fits i f [] keeps h = refl
change_at-fits zero f (c ∷ b) keeps h = ground (arith, keeps c)
change_at-fits (suc i) f (c ∷ b) keeps h = ground (arith, change_at-fits i f b keeps)

apply-fits : (e : Event) (b : List Channel) → all fits b ≡ true → all fits (apply e b) ≡ true
unfolding apply subscribe unsubscribe
apply-fits subscribes b h =
    ground (arith, all-append fits b (record { queued = 0; subscribed = true } ∷ []))
apply-fits notifies b h = notify-fits b h
apply-fits (unsubscribes i) b h = change_at-fits i drop_from_subs b (λ c f. f) h
apply-fits (receives i) b h = change_at-fits i receive_one b (λ c f. ground arith) h

-- No sequence of events fills a channel beyond its buffer.
pub run-fits : (es : List Event) (b : List Channel) → all fits b ≡ true → all fits (run es b) ≡ true
unfolding run
run-fits [] b h = h
run-fits (e ∷ es) b h = run-fits es (apply e b) (apply-fits e b h)
