-- ===== src/Internal/Broker/Delivery.antt =====
-- Calls on a broker in any order, internal/broker.go, and what they deliver.
use oida.Prelude.{
  if-split, length, All, get_or-set_self, ℕ, ◌<◌, ◌≡◌, refl, ap, ◌∙◌, true, Option, none, some,
  List, [], ◌∷◌,
}
use oida.Internal.Broker.{
  Broker, idle, new_broker, subscribe, release, close_events, notify, receive,
}
use oida.Internal.Broker.Sending.{
  channel, Open, IsOpen, All-map_of, send_each-Sent, send_each-pending,
}
use oida.Internal.Broker.Releasing.{
  Held, IsSound, IsSound-IsOpen, subscribe-IsSound, release-IsSound, close_events-IsSound,
  receive-IsSound,
}

-- What Notify does: it does not panic, every subscriber has a notification pending afterwards, no
-- subscriber is lost and no channel is closed, and notifying once more changes nothing.
pub record Notified (b b' : Broker) : Type 0 where
  pub done : notify b ≡ some b'
  pub reached : All (λ i. (channel b'.channels i).pending ≡ true) b.subscribers
  pub subscribers : b'.subscribers ≡ b.subscribers
  pub open_still : IsOpen b'
  pub burst : notify b' ≡ some b'

-- On a broker whose subscribers' channels are open, Notify does not panic, leaves a notification
-- pending on every subscriber's channel, keeps the subscribers and their channels open, and a
-- second Notify before anyone receives changes nothing.
pub notify-Notified : (b : Broker) → IsOpen b → (b' : Broker) × Notified b b'
unfolding notify
notify-Notified b h =
    let (ds, s) = send_each-Sent b.subscribers b.channels h in
    let still =
      All-map_of {P = Open b.channels} {Q = Open ds} (λ i o. (rw s.size o.0, s.closed i ∙ o.1))
        b.subscribers h in
    (
      record b { channels = ds },
      record {
        done = rw (s.done, notify);
        reached = s.reached;
        subscribers = refl;
        open_still = still;
        burst = rw (send_each-pending b.subscribers ds still s.reached, notify);
      },
    )

notify-IsSound : (b : Broker) → IsSound b → (b' : Broker) × (notify b ≡ some b') × IsSound b'
unfolding notify
notify-IsSound b v =
    let (ds, s) = send_each-Sent b.subscribers b.channels (IsSound-IsOpen b v) in
    (
      record b { channels = ds },
      rw (s.done, notify) refl,
      record {
        held =
            All-map_of {P = Held b.channels} {Q = Held ds}
              (λ i o. (rw s.size o.0, s.released i ∙ o.1)) b.subscribers v.held;
        once = λ j. rw (s.closing j, s.closed j, s.released j) (v.once j);
      },
    )

-- The calls on a broker, in any order. A release comes in two parts, its locked delete and its
-- close, and other calls may come in between.
pub data Call : Type 0 where
  subscribes notifies : Call
  releases closes receives : ℕ → Call

-- `none` is a panic.
pub step : Call → Broker → Option Broker
step subscribes b = some (subscribe b).1
step notifies b = notify b
step (releases i) b = some (release i b)
step (closes i) b = close_events i b
step (receives i) b = some (receive i b).1

pub run : List Call → Broker → Option Broker
unfolding step
run [] b = some b
run (c ∷ cs) b = elim (step c b) [ none ↦ none | some b' ↦ run cs b' ]

step-IsSound :
    (c : Call) (b : Broker) → IsSound b → (b' : Broker) × (step c b ≡ some b') × IsSound b'
unfolding step
step-IsSound subscribes b v = ((subscribe b).1, refl, subscribe-IsSound b v)
step-IsSound notifies b v = notify-IsSound b v
step-IsSound (releases i) b v = (release i b, refl, release-IsSound i b v)
step-IsSound (closes i) b v = close_events-IsSound i b v
step-IsSound (receives i) b v = ((receive i b).1, refl, receive-IsSound i b v)

run-IsSound :
    (cs : List Call) (b : Broker) → IsSound b → (b' : Broker) × (run cs b ≡ some b') × IsSound b'
unfolding run
run-IsSound [] b v = (b, refl, v)
run-IsSound (c ∷ cs) b v =
    let (b', e, o) = step-IsSound c b v in
    let (b'', e', o') = run-IsSound cs b' o in (b'', rw (e, run) e', o')

new_broker-IsSound : IsSound new_broker
unfolding new_broker
new_broker-IsSound = record { held = tt; once = λ j. (λ e. cc, λ e. refl) }

-- No order of subscribing, notifying, receiving and of the two parts of releasing, the delete
-- under the lock and the close after it, sends on a closed channel or closes one twice on a new
-- broker, and after it every subscriber's channel is open.
pub run-never_panics : (cs : List Call) → (b : Broker) × (run cs new_broker ≡ some b) × IsOpen b
run-never_panics cs =
    let (b, e, v) = run-IsSound cs new_broker new_broker-IsSound in (b, e, IsSound-IsOpen b v)

release_released : (i : ℕ) (b : Broker) → (channel b.channels i).released ≡ true → release i b ≡ b
unfolding release
release_released i b y = if-split (λ r. r ≡ b) (channel b.channels i).released (λ _. refl) (λ n. cc)

-- Releasing a channel again changes nothing.
pub release_once :
    (i : ℕ) (b : Broker) → i < length b.channels → release i (release i b) ≡ release i b
unfolding release
release_once i b h =
    let c = record (channel b.channels i) { released = true; closing = true } in
    let shut = ap (λ x. x.released) (get_or-set_self b.channels i c idle h) in
    if-split (λ r. release i r ≡ r) (channel b.channels i).released (λ y. release_released i b y)
      (λ _. release_released i _ shut)
