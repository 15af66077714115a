-- ===== src/Internal/Broker.antt =====
-- The fan-out of change notifications, internal/broker.go. A channel is named by its position in
-- the list of channels made so far; the subscriber map holds such positions. Each locked body is
-- one step, and closing a channel, outside the lock, is one of its own. A nil broker is not modelled.
pub mod Sending
pub mod Releasing
pub mod Delivery
use oida.Prelude.{
  ltb, leb, ◌==◌, if◌then◌else◌, ltb→lt, lt→ltb, ==_iff, Bool-cases, Option-cases, if-split, length,
  get_or, set, take, drop, replicate, keep, All, length-append, length-set, length-replicate,
  length-take, get_or-set_self, get_or-set_ne, take-take, take_all, length-keep-le,
  get_or-append_lt, get_or-append_end, All-append, All-reverse, All-take, take-append_left,
  length-reverse, length-map, ℤ, pos, negsuc, pos_part, neg_part, sub_ℕ, ◌+ℤ◌, ◌≤ℤ◌, ◌<ℤ◌, ltb_ℤ,
  leb_ℤ, sub_ℕ_parts, +ℤ_parts, eq_of_parts, int_laws, Text, bytes, text_eq, text_eq_refl,
  text_eq_sound, text_eq_iff, Map, lookup, insert, delete, lookup-insert, lookup-delete, ℕ, zero,
  suc, ◌+◌, ◌-◌, ◌*◌, ◌/◌, ◌%◌, ◌^◌, ◌≤◌, ◌<◌, min, fun_ext, ◌≡◌, refl, sym, ap, ap₂, ◌∙◌, subst,
  ◌≢◌, ◌↔◌, ◌⊎◌, inl, inr, Bool, true, false, not, ◌&&◌, ◌||◌, Option, none, some, List, [], ◌∷◌,
  ◌++◌, map, reverse, arith,
}

-- A channel of capacity one: whether a notification is pending, whether `once` has let a call of its
-- release function in, whether such a call stands between its unlock and its close, and whether the
-- channel is closed.
pub record Channel : Type 0 where
  pub pending : Bool
  pub released : Bool
  pub closing : Bool
  pub closed : Bool

pub record Broker : Type 0 where
  pub channels : List Channel
  pub subscribers : List ℕ

abbrev pub idle : Channel
idle = record { pending = false; released = false; closing = false; closed = false }

pub new_broker : Broker
new_broker = record { channels = []; subscribers = [] }

-- The new channel, and the broker that knows it.
pub subscribe : Broker → ℕ × Broker
subscribe b = (
  length b.channels,
  record {
    channels = b.channels ++ (idle ∷ []);
    subscribers = b.subscribers ++ (length b.channels ∷ []);
  },
)

-- The first part of the release function of a channel, up to the unlock: `once` lets one call in,
-- which takes the channel off the subscribers.
pub release : ℕ → Broker → Broker
release i b =
    let c = get_or b.channels i idle in
    if c.released then b else record b {
      channels = set b.channels i (record c { released = true; closing = true });
      subscribers = keep (λ j. not (j == i)) b.subscribers;
    }

-- The rest of it, after the unlock and with any calls in between. `none` is the panic of closing a
-- closed channel; where no call stands there, nothing happens.
pub close_events : ℕ → Broker → Option Broker
close_events i b =
    let c = get_or b.channels i idle in
    if not c.closing
    then some b
    else if c.closed
    then none
    else some
        (record b { channels = set b.channels i (record c { closing = false; closed = true }) })

-- The non-blocking send of Notify to each subscriber. `none` is the panic of a send on a closed
-- channel; a channel with a pending notification is skipped.
pub send_each : List ℕ → List Channel → Option (List Channel)
send_each [] cs = some cs
send_each (i ∷ is) cs =
    let c = get_or cs i idle in
    let rest = send_each is (set cs i (record c { pending = true })) in
    if c.closed then none else rest

pub notify : Broker → Option Broker
unfolding send_each
notify b = elim (send_each b.subscribers b.channels) [
  | none ↦ none
  | some cs ↦ some (record b { channels = cs })
]

unfoldable pub len : Broker → ℕ
len b = length b.subscribers

-- A subscriber takes the pending notification, if there is one.
pub receive : ℕ → Broker → Bool × Broker
receive i b =
    let c = get_or b.channels i idle in
    (c.pending, record b { channels = set b.channels i (record c { pending = false }) })
