-- ===== src/Tests/Disk.antt =====
-- The disk driver with a folder of one document.
use oida.Prelude.{
  take, All, pos, leb_ℤ, Text, bytes, text_eq, Map, lookup, insert, ℕ, ◌+◌, ◌≡◌, refl, ◌⊎◌, inr,
  true, none, some, List, [], ◌∷◌, map, reverse, arith,
}
use oida.Model.Data.{Trace, GoError, zero_trace}
use oida.Model.Cloning.{clone}
use oida.Model.Ids.{valid_id}
use oida.Ring as Ring
use oida.Storage.Results.{io, ok, fail}
use oida.Storage.Memory.{Memory, new_memory_storage}
use oida.Storage.Memory as Driver
use oida.Storage.Disk.{
  Document, Disk, System, new_disk_storage, save, list, restore, decoded, store_both,
  write_document, prune_surplus, names, remove_each,
}
use oida.Storage.Disk.Persistence.{Persisted, save-Persisted}
use oida.Storage.Disk.Restoring.{recent, heading, cut_to, IsDecoded, list-restore}
use oida.Tests.Traces.{spent, boom}
use oida.Tests.Retained.{nonempty}

abbrev pub ready : System
ready = record {
  now = 500;
  writing = none;
  listing = none;
  removing = λ name. none;
  reading = λ name. none;
  inspecting = λ name. none;
}

abbrev full : System
full = record ready { writing = some boom }

abbrev kept : Trace
kept = record spent { id = bytes "0123456789ABCDEFGHJKMNPQRS" }

abbrev encode : Trace → GoError ⊎ Text
encode t = inr t.name

abbrev at : ℕ → ℕ
at k = 300 + k

abbrev folder : Map Document
folder = (bytes "0123456789ABCDEFGHJKMNPQRS", record { modified = 400; body = bytes "{}" }) ∷ []

abbrev disk : Disk
disk = new_disk_storage (pos 2) []

abbrev unbounded : Disk
unbounded = new_disk_storage (pos 0) []

fails : (save (λ names. names) encode none none full at at kept disk).0 ≡ fail (io boom)
unfolding save store_both write_document clone valid_id new_disk_storage
fails = refl

saves_it : (save (λ names. names) encode none none ready at at kept disk).0 ≡ ok tt
unfolding save store_both write_document prune_surplus names remove_each insert clone valid_id
    new_disk_storage Driver.save
saves_it = refl

saves_unbounded : (save (λ names. names) encode none none ready at at kept unbounded).0 ≡ ok tt
unfolding save store_both write_document prune_surplus insert clone valid_id new_disk_storage
    Driver.save
saves_unbounded = refl

save-Persisted_example :
    Persisted
      (λ names. names)
      encode
      ready
      at
      (clone at kept)
      disk
      (save (λ names. names) encode none none ready at at kept disk).1
save-Persisted_example =
    save-Persisted (λ names. names) encode none none ready at at kept disk saves_it

no_slots : Driver.cap unbounded.memory ≡ 0
unfolding new_disk_storage new_memory_storage Driver.cap Ring.cap Ring.new
no_slots = refl

bounded_by_nothing : leb_ℤ unbounded.limit (pos 0) ≡ true
unfolding new_disk_storage
bounded_by_nothing = refl

-- What encoding/json makes of a document, less the fields that it cannot set.
abbrev read_back : Trace
read_back = record zero_trace {
  id = bytes "0123456789ABCDEFGHJKMNPQRS";
  name = bytes "GET /";
  started_at = 100;
  duration = pos 40;
}

abbrev pub decode : Text → GoError ⊎ Trace
decode body = inr read_back

restored-IsDecoded :
    All IsDecoded (decoded decode ready folder (recent (pos 2) (map (λ entry. entry.0) folder)))
unfolding decoded lookup text_eq
restored-IsDecoded = (
  record {
    unfinished = refl;
    named = nonempty 48 (bytes "123456789ABCDEFGHJKMNPQRS");
    lasted = omega arith;
  },
  tt,
)

list-restore_example :
    (ts : List Trace) × (list none
        (λ i. at)
        (pos 5)
        (restore (λ names. names) decode ready (λ i. at) (new_disk_storage (pos 2) folder)).1
      ≡ ok ts)
    × (map heading ts
        ≡ cut_to (pos 5) (
            take 2 (
              reverse (
                map heading
                  (decoded decode ready folder (recent (pos 2) (map (λ entry. entry.0) folder)))))))
    × All (λ (t : Trace). t.in_flight ≡ true) ts
list-restore_example =
    list-restore (λ names. names) decode ready (λ i. at) (λ i. at) (pos 2) (pos 5) folder refl
      restored-IsDecoded
