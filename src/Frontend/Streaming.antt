-- ===== src/Frontend/Streaming.antt =====
-- The loop of an event stream, serveEvents and writeLiveEvent of frontend/handler.go and drain of
-- frontend/drain.go, beside a recorder that changes and notifies. The channel closes with the
-- subscription, which only the loop's own return releases.
use oida.Prelude.{
  if◌then◌else◌, ℕ, zero, suc, ◌+◌, ◌≤◌, ◌≡◌, refl, ◌≢◌, ◌⊎◌, Bool, true, false, Option, none, some,
  List, [], ◌∷◌, arith,
}

-- Where the loop stands: before the first event, at the select, at the debounce timer, after the
-- drain of the channel, or returned.
pub data Phase : Type 0 where
  opening listening settling drained returned : Phase

-- `recorded` counts the changes of what the recorder would show, `announced` those that a
-- notification followed, and `drawn` those that the last event written shows. `written` counts the
-- events, and `subscribed` says whether the recorder still sends to the channel.
pub record Stream : Type 0 where
  pub phase : Phase
  pub pending : Bool
  pub subscribed : Bool
  pub recorded : ℕ
  pub announced : ℕ
  pub drawn : ℕ
  pub written : ℕ

-- What happens next: the recorder changes or notifies, the loop receives, its timer fires, it draws
-- or pings and the writes succeed or not, or the client is gone.
pub data Event : Type 0 where
  changes notifies receives settles : Event
  draws pings : Bool → Event
  disconnects : Event

-- The subscription, before the first event is drawn.
unfoldable pub open_stream : ℕ → Stream
open_stream recorded = record {
  phase = opening;
  pending = false;
  subscribed = true;
  recorded = recorded;
  announced = recorded;
  drawn = 0;
  written = 0;
}

-- The return of the handler, with the deferred cancel.
abbrev pub returns : Stream → Stream
returns s = record s { phase = returned; subscribed = false }

-- writeLiveEvent, and whether the loop goes on.
pub write_live_event : Bool → Stream → Stream
write_live_event written s =
    if written
    then record s { phase = listening; drawn = s.recorded; written = s.written + 1 }
    else returns s

pub receive_event : Stream → Stream
receive_event s = if s.pending then record s { phase = settling; pending = false } else s

pub drain : Stream → Stream
drain s = record s { phase = drained; pending = false }

-- An event that the loop does not wait for in its phase changes nothing.
unfoldable pub step : Event → Stream → Stream
unfolding write_live_event receive_event drain
step changes s = record s { recorded = s.recorded + 1 }
step notifies s = record s {
  announced = s.recorded;
  pending = if s.subscribed then true else s.pending;
}
step receives s = elim s.phase [
  | listening ↦ receive_event s
  | opening ↦ s
  | settling ↦ s
  | drained ↦ s
  | returned ↦ s
]
step settles s = elim s.phase [
  | settling ↦ drain s
  | opening ↦ s
  | listening ↦ s
  | drained ↦ s
  | returned ↦ s
]
step (draws written) s = elim s.phase [
  | opening ↦ write_live_event written s
  | drained ↦ write_live_event written s
  | listening ↦ s
  | settling ↦ s
  | returned ↦ s
]
step (pings written) s = elim s.phase [
  | listening ↦ if written then s else returns s
  | opening ↦ s
  | settling ↦ s
  | drained ↦ s
  | returned ↦ s
]
step disconnects s = elim s.phase [
  | listening ↦ returns s
  | settling ↦ returns s
  | opening ↦ s
  | drained ↦ s
  | returned ↦ s
]

unfoldable pub run : List Event → Stream → Stream
unfolding step
run [] s = s
run (e ∷ es) s = run es (step e s)

-- What the loop itself does next, when the client stays and writes succeed.
pub own_event : Stream → Option Event
own_event s = elim s.phase [
  | opening ↦ some (draws true)
  | listening ↦ if s.pending then some receives else none
  | settling ↦ some settles
  | drained ↦ some (draws true)
  | returned ↦ none
]

-- The loop left to itself for a number of its steps.
pub proceed : ℕ → Stream → Stream
unfolding own_event step
proceed zero s = s
proceed (suc n) s = elim (own_event s) [ none ↦ s | some e ↦ proceed n (step e s) ]

-- At the select, what was announced is drawn or a notification is pending.
abbrev pub IsCurrent : Stream → Type 0
IsCurrent s =
    (s.announced ≤ s.recorded)
    × (s.phase ≡ listening → (s.pending ≡ true) ⊎ (s.announced ≤ s.drawn))
    × (s.phase ≢ returned → s.subscribed ≡ true)

step-IsCurrent : (e : Event) (s : Stream) → IsCurrent s → IsCurrent (step e s)
unfolding step write_live_event receive_event drain
step-IsCurrent changes s (a, l, o) = (omega arith, l, o)
step-IsCurrent notifies s (a, l, o) = (omega arith, λ e. ground arith, o)
step-IsCurrent receives s h = ground arith
step-IsCurrent settles s h = ground arith
step-IsCurrent (draws w) s h = ground arith
step-IsCurrent (pings w) s h = ground arith
step-IsCurrent disconnects s h = ground arith

run-IsCurrent : (es : List Event) (s : Stream) → IsCurrent s → IsCurrent (run es s)
unfolding run
run-IsCurrent [] s h = h
run-IsCurrent (e ∷ es) s h = run-IsCurrent es (step e s) (step-IsCurrent e s h)

open_stream-IsCurrent : (n : ℕ) → IsCurrent (open_stream n)
unfolding open_stream
open_stream-IsCurrent n = ground arith

-- Drawn up to date, with nothing left to do.
pub record IsIdle (s t : Stream) : Type 0 where
  pub at_select : t.phase ≡ listening
  pub nothing_pending : t.pending ≡ false
  pub current : s.announced ≤ t.drawn
  pub few : t.written ≤ s.written + 2

-- From each phase, by running the loop.
proceed-IsIdle :
    (p : Phase) (b : Bool) (s : Stream)
    → IsCurrent (record s { phase = p; pending = b })
    → p ≢ returned
    → IsIdle (record s { phase = p; pending = b }) (proceed 4 (record s { phase = p; pending = b }))
unfolding proceed own_event step write_live_event receive_event drain
proceed-IsIdle opening true s (a, l, o) ne = record {
  at_select = refl;
  nothing_pending = refl;
  current = a;
  few = omega arith;
}
proceed-IsIdle opening false s (a, l, o) ne = record {
  at_select = refl;
  nothing_pending = refl;
  current = a;
  few = omega arith;
}
proceed-IsIdle listening true s (a, l, o) ne = record {
  at_select = refl;
  nothing_pending = refl;
  current = a;
  few = omega arith;
}
proceed-IsIdle listening false s (a, l, o) ne = record {
  at_select = refl;
  nothing_pending = refl;
  current = ground arith;
  few = omega arith;
}
proceed-IsIdle settling true s (a, l, o) ne = record {
  at_select = refl;
  nothing_pending = refl;
  current = a;
  few = omega arith;
}
proceed-IsIdle settling false s (a, l, o) ne = record {
  at_select = refl;
  nothing_pending = refl;
  current = a;
  few = omega arith;
}
proceed-IsIdle drained true s (a, l, o) ne = record {
  at_select = refl;
  nothing_pending = refl;
  current = a;
  few = omega arith;
}
proceed-IsIdle drained false s (a, l, o) ne = record {
  at_select = refl;
  nothing_pending = refl;
  current = a;
  few = omega arith;
}
proceed-IsIdle returned b s h ne = absurd (ne refl)

-- After any sequence of changes, notifications, pings, timers and writes, an event stream that has
-- not returned needs at most four steps of its own loop, with successful writes and nothing
-- happening in between, to be back at its select with no notification pending, having drawn all
-- that was announced and written at most two events.
pub run-IsIdle :
    (n : ℕ) (es : List Event)
    → (run es (open_stream n)).phase ≢ returned
    → IsIdle (run es (open_stream n)) (proceed 4 (run es (open_stream n)))
run-IsIdle n es o =
    let s = run es (open_stream n) in
    proceed-IsIdle s.phase s.pending s (run-IsCurrent es (open_stream n) (open_stream-IsCurrent n))
      o
