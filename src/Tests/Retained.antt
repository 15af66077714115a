-- ===== src/Tests/Retained.antt =====
-- The ring buffer and the in-memory driver, with two slots and three saves.
use oida.Prelude.{
  length, take, All, pos, Text, bytes, text_eq, ℕ, ◌+◌, ◌≤◌, ◌<◌, ◌≡◌, refl, ◌≢◌, none, List, [],
  ◌∷◌, map, reverse, arith,
}
use oida.Ring as Ring
use oida.Ring.{Ring, Retained}
use oida.Ring.Slots.{IsValid, new-IsValid}
use oida.Ring.Window.{window}
use oida.Ring.History.{Pushed, push_all, push_all-IsValid, copies, window-history}
use oida.Model.Data.{Trace}
use oida.Model.Cloning.Archive.{archived}
use oida.Storage.Results.{ok}
use oida.Storage.Memory.{Memory, trace_Retained, new_memory_storage, limited}
use oida.Storage.Memory as Driver
use oida.Storage.Memory.Retention.{saves, IsSaved, list-saves}
use oida.Tests.Traces.{spent}

-- Items are their own IDs.
instance abbrev text_Retained : Retained Text
text_Retained = record {
  blank = [];
  ident = λ a. a;
  copy = λ answers a. a;
  ident-blank = refl;
  ident-copy = λ answers a. refl;
}

pub nonempty : (c : ℕ) (cs : Text) → (c ∷ cs) ≢ []
nonempty c cs e = cc e

abbrev clock : ℕ → ℕ
clock k = 300 + k

abbrev pushes : List (Pushed Text)
pushes = (clock, bytes "a") ∷ (clock, bytes "b") ∷ (clock, bytes "c") ∷ []

abbrev held : Ring Text
held = push_all pushes (Ring.new (pos 2))

held-IsValid : IsValid held
held-IsValid = push_all-IsValid pushes (Ring.new (pos 2)) (new-IsValid (pos 2))

lists_newest_first : Ring.list held ≡ bytes "c" ∷ bytes "b" ∷ []
unfolding push_all Ring.push Ring.list Ring.new text_eq
lists_newest_first = refl

window-history_example : window held ≡ take 2 (reverse (copies pushes))
window-history_example = window-history (pos 2) pushes

abbrev saved : List (Pushed Trace)
saved =
    (clock, spent)
    ∷ (clock, record spent { id = bytes "01C" })
    ∷ (clock, record spent { id = bytes "01D" })
    ∷ []

abbrev pub driver : Memory
driver = new_memory_storage (pos 2)

pub driver-IsValid : IsValid driver
unfolding new_memory_storage
driver-IsValid = new-IsValid (pos 2)

pub driver_room : 0 < Driver.cap driver
unfolding new_memory_storage Driver.cap Ring.new Ring.cap
driver_room = omega arith

spent-IsSaved : (id : Text) → id ≢ [] → IsSaved (record spent { id = id })
spent-IsSaved id h = (record { finished = refl; ended = (refl, tt); lasted = omega arith }, h)

saved-IsSaved : All (λ p. IsSaved p.1) saved
saved-IsSaved = (
  spent-IsSaved (bytes "01B") (nonempty 48 (bytes "1B")),
  (
    spent-IsSaved (bytes "01C") (nonempty 48 (bytes "1C")),
    (spent-IsSaved (bytes "01D") (nonempty 48 (bytes "1D")), tt),
  ),
)

list-saves_example :
    Driver.list none (λ i. clock) (pos 1) (saves saved driver)
    ≡ ok (limited (pos 1) (take 2 (reverse (map (λ p. archived p.1) saved))))
list-saves_example = list-saves (pos 2) (pos 1) (λ i. clock) saved saved-IsSaved

others : All (λ p. p.1.id ≢ bytes "0") saved
others = (λ e. cc e, (λ e. cc e, (λ e. cc e, tt)))

driver_fits : Driver.cap driver ≤ length saved
unfolding new_memory_storage Driver.cap Ring.new Ring.cap
driver_fits = omega arith
