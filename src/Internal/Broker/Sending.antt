-- ===== src/Internal/Broker/Sending.antt =====
-- The sends of Notify to the subscribers' channels, internal/broker.go.
use oida.Prelude.{
  if-split, length, get_or, set, All, length-set, get_or-set_self, ℕ, zero, suc, ◌<◌, ◌≡◌, refl,
  sym, ap, ◌∙◌, Bool, true, false, some, List, [], ◌∷◌,
}
use oida.Internal.Broker.{Channel, Broker, idle, send_each}

abbrev pub channel : List Channel → ℕ → Channel
channel cs i = get_or cs i idle

abbrev pub Open : List Channel → ℕ → Type 0
Open cs i = (i < length cs) × ((channel cs i).closed ≡ false)

-- Every subscriber's channel exists and is open.
abbrev pub IsOpen : Broker → Type 0
IsOpen b = All (Open b.channels) b.subscribers

pub All-map_of : {P Q : ℕ → Type 0} → ((i : ℕ) → P i → Q i) → (is : List ℕ) → All P is → All Q is
All-map_of f [] h = tt
All-map_of f (i ∷ is) h = (f i h.0, All-map_of f is h.1)

-- What a change of one channel leaves alone there, it leaves alone everywhere.
pub field-set :
    (f : Channel → Bool) (cs : List Channel) (i j : ℕ) (c : Channel)
    → f c ≡ f (channel cs i)
    → f (channel (set cs i c) j) ≡ f (channel cs j)
field-set f [] i j c e = refl
field-set f (d ∷ cs) zero zero c e = e
field-set f (d ∷ cs) zero (suc j) c e = refl
field-set f (d ∷ cs) (suc i) zero c e = refl
field-set f (d ∷ cs) (suc i) (suc j) c e = field-set f cs i j c e

-- Marking a channel pending or not opens and closes none.
closed-set :
    (cs : List Channel) (i j : ℕ) (p : Bool)
    → (channel (set cs i (record (channel cs i) { pending = p })) j).closed ≡ (channel cs j).closed
closed-set cs i j p = field-set (λ c. c.closed) cs i j (record (channel cs i) { pending = p }) refl

Open-set :
    (cs : List Channel) (i j : ℕ) (p : Bool)
    → Open cs j
    → Open (set cs i (record (channel cs i) { pending = p })) j
Open-set cs i j p h =
    (rw (length-set cs i (record (channel cs i) { pending = p })) h.0, closed-set cs i j p ∙ h.1)

-- What the sends to the subscribers `is` make of the channels.
pub record Sent (is : List ℕ) (cs ds : List Channel) : Type 0 where
  pub done : send_each is cs ≡ some ds
  pub reached : All (λ i. (channel ds i).pending ≡ true) is
  pub kept : (j : ℕ) → (channel cs j).pending ≡ true → (channel ds j).pending ≡ true
  pub size : length ds ≡ length cs
  pub closed : (j : ℕ) → (channel ds j).closed ≡ (channel cs j).closed
  pub released : (j : ℕ) → (channel ds j).released ≡ (channel cs j).released
  pub closing : (j : ℕ) → (channel ds j).closing ≡ (channel cs j).closing

pending-set :
    (cs : List Channel) (i j : ℕ)
    → (channel cs j).pending ≡ true
    → (channel (set cs i (record (channel cs i) { pending = true })) j).pending ≡ true
pending-set [] i j h = h
pending-set (c ∷ cs) zero zero h = refl
pending-set (c ∷ cs) zero (suc j) h = h
pending-set (c ∷ cs) (suc i) zero h = h
pending-set (c ∷ cs) (suc i) (suc j) h = pending-set cs i j h

pub send_each-Sent :
    (is : List ℕ) (cs : List Channel) → All (Open cs) is → (ds : List Channel) × Sent is cs ds
unfolding send_each
send_each-Sent [] cs h = (
  cs,
  record {
    done = refl;
    reached = tt;
    kept = λ j p. p;
    size = refl;
    closed = λ j. refl;
    released = λ j. refl;
    closing = λ j. refl;
  },
)
send_each-Sent (i ∷ is) cs h =
    let c = record (channel cs i) { pending = true } in
    let cs' = set cs i c in
    let (ds, s) =
      send_each-Sent is cs'
        (All-map_of {P = Open cs} {Q = Open cs'} (λ j o. Open-set cs i j true o) is h.1) in
    (
      ds,
      record {
        done = if-split (λ r. r ≡ some ds) (channel cs i).closed (λ y. cc) (λ _. s.done);
        reached = (s.kept i (ap (λ x. x.pending) (get_or-set_self cs i c idle h.0.0)), s.reached);
        kept = λ j p. s.kept j (pending-set cs i j p);
        size = s.size ∙ length-set cs i c;
        closed = λ j. s.closed j ∙ closed-set cs i j true;
        released = λ j. s.released j ∙ field-set (λ x. x.released) cs i j c refl;
        closing = λ j. s.closing j ∙ field-set (λ x. x.closing) cs i j c refl;
      },
    )

set_pending :
    (cs : List Channel) (i : ℕ)
    → (channel cs i).pending ≡ true
    → set cs i (record (channel cs i) { pending = true }) ≡ cs
set_pending [] i p = refl
set_pending (c ∷ cs) zero p = ap (λ b. record c { pending = b } ∷ cs) (sym p)
set_pending (c ∷ cs) (suc i) p = ap (◌∷◌ c) (set_pending cs i p)

-- Where every subscriber's channel is pending and open, the sends change nothing.
pub send_each-pending :
    (is : List ℕ) (cs : List Channel)
    → All (Open cs) is
    → All (λ i. (channel cs i).pending ≡ true) is
    → send_each is cs ≡ some cs
unfolding send_each
send_each-pending [] cs h p = refl
send_each-pending (i ∷ is) cs h p =
    let same = set_pending cs i p.0 in
    if-split (λ r. r ≡ some cs) (channel cs i).closed (λ y. cc)
      λ _. rw same (send_each-pending is cs h.1 p.1)
