-- ===== src/Model/Durations.antt =====
-- The time per state as a map and as a table: Durations of model/trace.go, StateDurations of
-- model/stats.go and the labels of model/model.go.
use mathlib.Core.Bool.{true≢false}
use oida.Prelude.{
  if◌then◌else◌, if-split, length, All, ℤ, pos, pos_part, neg_part, sub_ℕ, ◌+ℤ◌, ◌≤ℤ◌, ltb_ℤ, leb_ℤ,
  +ℤ_parts, eq_of_parts, int_laws, Text, bytes, ℕ, ◌*◌, ◌≡◌, refl, sym, ap, ◌∙◌, Bool, true, false,
  List, [], ◌∷◌, arith,
}
use oida.Model.State.{
  State, waiting, starting, reading, processing, writing, keepalive, closing, error, unknown,
  states, num_states, state_index,
}
use oida.Model.Data.{Trace}
use oida.Model.Clock.{peek}
use oida.Model.Recording.{add_at}
use oida.Model.Finishing.{total}
use oida.Model.Statistics.Tallies.{Ratio}
use oida.Model.Timing.{IsTimed, total-accrued, length-add_at}

-- A map from states to durations: a slot for each listed state, where zero stands for no entry as
-- well, and the time in any other state.
pub record StateTimes : Type 0 where
  pub slots : List ℤ
  pub elsewhere : ℤ

pub record StateDuration : Type 0 where
  pub state : State
  pub label : Text
  pub duration : ℤ
  pub share : Ratio

abbrev is_listed : State → Bool
is_listed (unknown name) = false
is_listed _ = true

pub label : State → Text
label waiting = bytes "Waiting"
label starting = bytes "Starting"
label reading = bytes "Reading"
label processing = bytes "Processing"
label writing = bytes "Writing"
label keepalive = bytes "Keepalive"
label closing = bytes "Closing"
label error = bytes "Error"
label (unknown name) = name

unfoldable pub durations : ℕ → Trace → StateTimes
unfolding add_at peek
durations raw t =
    let current = sub_ℕ (peek raw t) t.changed_at in
    if t.finished
    then record { slots = t.state_time; elsewhere = pos 0 }
    else if is_listed t.state
    then record { slots = add_at (state_index t.state) current t.state_time; elsewhere = pos 0 }
    else record { slots = t.state_time; elsewhere = current }

abbrev share_of : ℤ → ℤ → Ratio
share_of whole duration =
    if ltb_ℤ (pos 0) whole
    then record { part = pos_part duration * 100; whole = pos_part whole }
    else record { part = 0; whole = 0 }

-- The loop over the listed states.
listed_durations : ℤ → List State → List ℤ → List StateDuration
unfolding label
listed_durations whole [] ds = []
listed_durations whole (s ∷ ss) [] = []
listed_durations whole (s ∷ ss) (d ∷ ds) =
    let rest = listed_durations whole ss ds in
    if leb_ℤ d (pos 0)
    then rest
    else record { state = s; label = label s; duration = d; share = share_of whole d } ∷ rest

unfoldable pub state_durations : StateTimes → List StateDuration
unfolding listed_durations total
state_durations times = listed_durations (total times.slots +ℤ times.elsewhere) states times.slots

pub duration_sum : List StateDuration → ℤ
duration_sum [] = pos 0
duration_sum (d ∷ ds) = d.duration +ℤ duration_sum ds

+ℤ_zero : (a : ℤ) → (a +ℤ pos 0) ≡ a
+ℤ_zero a = omega int_laws

sub_ℕ-split : (a b c : ℕ) → (sub_ℕ b a +ℤ sub_ℕ c b) ≡ sub_ℕ c a
sub_ℕ-split a b c = omega int_laws

zero_sum : (d a b : ℤ) → pos 0 ≤ℤ d → leb_ℤ d (pos 0) ≡ true → a ≡ b → a ≡ (d +ℤ b)
zero_sum d a b h k e =
    eq_of_parts a (d +ℤ b) (ground (arith, +ℤ_parts d b, ap pos_part e, ap neg_part e))

-- What the durations of a trace in flight add up to: all the time since it started.
total-durations :
    (raw : ℕ) (t : Trace)
    → IsTimed t
    → t.finished ≡ false
    → total (durations raw t).slots +ℤ (durations raw t).elsewhere ≡ sub_ℕ (peek raw t) t.started_at
unfolding durations
total-durations raw t v h =
    let now = peek raw t in
    let sums = λ (d : StateTimes). (total d.slots +ℤ d.elsewhere) ≡ sub_ℕ now t.started_at in
    if-split sums t.finished (λ y. absurd (true≢false (sym y ∙ h)))
      (λ _.
        if-split sums (is_listed t.state)
          (λ _.
            +ℤ_zero (total (add_at (state_index t.state) (sub_ℕ now t.changed_at) t.state_time))
            ∙ total-accrued t.state t.started_at t.changed_at now t.state_time v.slots v.accounted)
          (λ _.
            ap (λ a. a +ℤ sub_ℕ now t.changed_at) v.accounted
            ∙ sub_ℕ-split t.started_at t.changed_at now))

listed_durations-sum :
    (whole : ℤ) (ss : List State) (ds : List ℤ)
    → length ss ≡ length ds
    → All (λ d. pos 0 ≤ℤ d) ds
    → duration_sum (listed_durations whole ss ds) ≡ total ds
unfolding listed_durations duration_sum total
listed_durations-sum whole [] [] e h = refl
listed_durations-sum whole [] (d ∷ ds) e h = absurd (omega arith)
listed_durations-sum whole (s ∷ ss) [] e h = absurd (omega arith)
listed_durations-sum whole (s ∷ ss) (d ∷ ds) e (h, hs) =
    let rest = listed_durations-sum whole ss ds (omega arith) hs in
    if-split (λ r. duration_sum r ≡ (d +ℤ total ds)) (leb_ℤ d (pos 0))
      (λ y. zero_sum d (duration_sum (listed_durations whole ss ds)) (total ds) h y rest)
      (λ n. ap (d +ℤ◌) rest)

-- For a trace in flight whose times add up and which is in a listed state, the table of its
-- durations, where none is negative, adds up to the time from its start to the reading of its
-- clock.
pub state_durations-sum :
    (raw : ℕ) (t : Trace)
    → IsTimed t
    → t.finished ≡ false
    → is_listed t.state ≡ true
    → All (λ d. pos 0 ≤ℤ d) (durations raw t).slots
    → duration_sum (state_durations (durations raw t)) ≡ sub_ℕ (peek raw t) t.started_at
unfolding state_durations durations
state_durations-sum raw t v h l p =
    let times = durations raw t in
    let slotted : (length times.slots ≡ num_states) × (times.elsewhere ≡ pos 0) =
      if-split (λ (d : StateTimes). (length d.slots ≡ num_states) × (d.elsewhere ≡ pos 0))
        t.finished (λ _. (v.slots, refl))
        (λ _.
          if-split (λ (d : StateTimes). (length d.slots ≡ num_states) × (d.elsewhere ≡ pos 0))
            (is_listed t.state)
            (λ _. (
              length-add_at (state_index t.state) (sub_ℕ (peek raw t) t.changed_at) t.state_time
                  ∙ v.slots,
              refl,
            ))
            (λ n. absurd (true≢false (sym l ∙ n)))) in
    listed_durations-sum (total times.slots +ℤ times.elsewhere) states times.slots (sym slotted.0) p
    ∙ (sym (+ℤ_zero (total times.slots))
        ∙ ap (total times.slots +ℤ◌) (sym slotted.1)
        ∙ total-durations raw t v h)
