-- ===== src/Internal/Broker/Releasing.antt =====
-- Releasing a channel, its delete under the lock and its close after it, internal/broker.go.
use oida.Prelude.{
  ◌==◌, Bool-cases, if-split, length, set, keep, All, length-append, length-set, get_or-set_ne,
  get_or-append_lt, get_or-append_end, All-append, ℕ, zero, suc, ◌<◌, ◌≡◌, refl, ◌∙◌, inl, inr,
  true, false, not, some, List, [], ◌∷◌, ◌++◌, arith,
}
use oida.Internal.Broker.{Channel, Broker, idle, subscribe, release, close_events, receive}
use oida.Internal.Broker.Sending.{channel, Open, IsOpen, All-map_of, field-set}

-- A channel whose release function has not been let in.
abbrev pub Held : List Channel → ℕ → Type 0
Held cs i = (i < length cs) × ((channel cs i).released ≡ false)

-- A channel that is about to be closed is released and not closed, and one that is not released is
-- not closed.
abbrev Once : Channel → Type 0
Once c =
    (c.closing ≡ true → (c.closed ≡ false) × (c.released ≡ true))
    × (c.released ≡ false → c.closed ≡ false)

-- Every subscriber's channel exists and is not released, and a channel is closed at most once.
pub record IsSound (b : Broker) : Type 0 where
  pub held : All (Held b.channels) b.subscribers
  pub once : (j : ℕ) → Once (channel b.channels j)

pub IsSound-IsOpen : (b : Broker) → IsSound b → IsOpen b
IsSound-IsOpen b v =
    All-map_of {P = Held b.channels} {Q = Open b.channels} (λ i h. (h.0, (v.once i).1 h.1))
      b.subscribers v.held

-- Every channel is as the changed one or as before.
channel-set :
    (P : Channel → Type 0) (cs : List Channel) (i j : ℕ) (c : Channel)
    → P c
    → P (channel cs j)
    → P (channel (set cs i c) j)
channel-set P [] i j c p h = h
channel-set P (d ∷ cs) zero zero c p h = p
channel-set P (d ∷ cs) zero (suc j) c p h = h
channel-set P (d ∷ cs) (suc i) zero c p h = h
channel-set P (d ∷ cs) (suc i) (suc j) c p h = channel-set P cs i j c p h

Once-append :
    (cs : List Channel) (j : ℕ) → Once (channel cs j) → Once (channel (cs ++ (idle ∷ [])) j)
Once-append [] zero h = (λ e. cc, λ e. refl)
Once-append [] (suc j) h = (λ e. cc, λ e. refl)
Once-append (c ∷ cs) zero h = h
Once-append (c ∷ cs) (suc j) h = Once-append cs j h

pub subscribe-IsSound : (b : Broker) → IsSound b → IsSound (subscribe b).1
unfolding subscribe
subscribe-IsSound b v =
    let n = length b.channels in
    let cs = b.channels ++ (idle ∷ []) in
    let l = length-append b.channels (idle ∷ []) in
    record {
      held =
          All-append (Held cs) b.subscribers (n ∷ [])
            (All-map_of {P = Held b.channels} {Q = Held cs}
              (λ i o. (omega (arith, l), rw (get_or-append_lt b.channels idle idle i o.0) o.1))
              b.subscribers v.held)
            ((omega (arith, l), rw (get_or-append_end b.channels idle idle)), tt);
      once = λ j. Once-append b.channels j (v.once j);
    }

Held-set_ne :
    (cs : List Channel) (i j : ℕ) (c : Channel) → (j == i) ≡ false → Held cs j → Held (set cs i c) j
Held-set_ne cs i j c n h =
    (rw (length-set cs i c) h.0, rw (get_or-set_ne cs i j c idle (ground arith)) h.1)

Held-keep :
    (cs : List Channel) (i : ℕ) (c : Channel) (is : List ℕ)
    → All (Held cs) is
    → All (Held (set cs i c)) (keep (λ j. not (j == i)) is)
Held-keep cs i c [] h = tt
Held-keep cs i c (j ∷ is) h = elim (Bool-cases (j == i)) [
  | inl y ↦ rw y (Held-keep cs i c is h.1)
  | inr n ↦ rw n (Held-set_ne cs i j c n h.0, Held-keep cs i c is h.1)
]

-- A change of one channel that releases none.
Held-set :
    (cs : List Channel) (i : ℕ) (c : Channel) (is : List ℕ)
    → c.released ≡ (channel cs i).released
    → All (Held cs) is
    → All (Held (set cs i c)) is
Held-set cs i c is e h =
    All-map_of {P = Held cs} {Q = Held (set cs i c)}
      (λ j o. (rw (length-set cs i c) o.0, field-set (λ x. x.released) cs i j c e ∙ o.1)) is h

pub release-IsSound : (i : ℕ) (b : Broker) → IsSound b → IsSound (release i b)
unfolding release
release-IsSound i b v =
    let c = record (channel b.channels i) { released = true; closing = true } in
    if-split IsSound (channel b.channels i).released (λ _. v)
      λ n. record {
        held = Held-keep b.channels i c b.subscribers v.held;
        once = λ j.
            channel-set Once b.channels i j c (λ e. ((v.once i).1 n, refl), λ e. (v.once i).1 n)
              (v.once j);
      }

pub close_events-IsSound :
    (i : ℕ) (b : Broker) → IsSound b → (b' : Broker) × (close_events i b ≡ some b') × IsSound b'
close_events-IsSound i b v = elim (Bool-cases (channel b.channels i).closing) [
  | inl y ↦
      let c = record (channel b.channels i) { closing = false; closed = true } in
      let (still, let_in) = (v.once i).0 y in
      (
        record b { channels = set b.channels i c },
        unfold close_events in rw (y, still) refl,
        record {
          held = Held-set b.channels i c b.subscribers refl v.held;
          once = λ j. channel-set Once b.channels i j c (λ e. cc, λ e. cc) (v.once j);
        },
      )
  | inr n ↦ (b, unfold close_events in rw n refl, v)
]

pub receive-IsSound : (i : ℕ) (b : Broker) → IsSound b → IsSound (receive i b).1
unfolding receive
receive-IsSound i b v =
    let c = record (channel b.channels i) { pending = false } in
    record {
      held = Held-set b.channels i c b.subscribers refl v.held;
      once = λ j. channel-set Once b.channels i j c (v.once i) (v.once j);
    }
