-- ===== src/Model/State.antt =====
-- The scoreboard states of a trace and their slots in the timing array, model/model.go.
use oida.Prelude.{get_or, Text, ℕ, ◌<◌, ◌≡◌, Bool, true, false, List, [], ◌∷◌, arith}

-- `State` is a string: a caller can build values beyond the named ones.
pub data State : Type 0 where
  waiting starting reading processing writing keepalive closing error : State
  unknown : Text → State

-- `states`, in display order.
abbrev pub states : List State
states = waiting ∷ starting ∷ reading ∷ processing ∷ writing ∷ keepalive ∷ closing ∷ error ∷ []

abbrev pub num_states : ℕ
num_states = 8

unfoldable pub state_index : State → ℕ
state_index starting = 1
state_index reading = 2
state_index processing = 3
state_index writing = 4
state_index keepalive = 5
state_index closing = 6
state_index error = 7
state_index _ = 0

-- `s == StateError`
abbrev pub is_error : State → Bool
is_error error = true
is_error _ = false

-- Each listed state has its own slot, and every value of the type has one.
pub get_or-states : (i : ℕ) → i < num_states → state_index (get_or states i waiting) ≡ i
unfolding state_index
get_or-states i h = ground arith

pub state_index-lt : (s : State) → state_index s < num_states
unfolding state_index
state_index-lt waiting = omega arith
state_index-lt starting = omega arith
state_index-lt _ = omega arith
