-- ===== src/Storage/Disk.antt =====
-- The disk driver, storage/disk_storage.go: documents in a folder behind the in-memory driver. The
-- folder holds the documents alone, by their names without the suffix .json; what the operating
-- system answers to a call is an argument. Creating the folder is not modelled.
pub mod Persistence
pub mod Restoring
use oida.Prelude.{
  ltb, leb, ◌==◌, if◌then◌else◌, ltb→lt, lt→ltb, ==_iff, Bool-cases, Option-cases, if-split, length,
  get_or, set, take, drop, replicate, keep, All, length-append, length-set, length-replicate,
  length-take, get_or-set_self, get_or-set_ne, take-take, take_all, length-keep-le,
  get_or-append_lt, get_or-append_end, All-append, All-reverse, All-take, take-append_left,
  length-reverse, length-map, ℤ, pos, negsuc, pos_part, neg_part, sub_ℕ, ◌+ℤ◌, ◌≤ℤ◌, ◌<ℤ◌, ltb_ℤ,
  leb_ℤ, sub_ℕ_parts, +ℤ_parts, eq_of_parts, int_laws, Text, bytes, text_eq, text_eq_refl,
  text_eq_sound, text_eq_iff, has_prefix, cut_suffix, has_prefix_sound, has_prefix-append,
  cut_suffix_sound, cut_suffix-append, Map, lookup, insert, delete, lookup-insert, lookup-delete, ℕ,
  zero, suc, ◌+◌, ◌-◌, ◌*◌, ◌/◌, ◌%◌, ◌^◌, ◌≤◌, ◌<◌, min, fun_ext, ◌≡◌, refl, sym, ap, ap₂, ◌∙◌,
  subst, ◌≢◌, ◌↔◌, ◌⊎◌, inl, inr, Bool, true, false, not, ◌&&◌, ◌||◌, Option, none, some, List, [],
  ◌∷◌, ◌++◌, map, reverse, arith,
}
use oida.Model.Data.{Trace, GoError}
use oida.Model.Ids.{valid_id}
use oida.Model.Cloning.{clone}
use oida.Storage.Results.{
  Failure, cancelled, not_found, invalid_id, io, Result, ok, fail, ◌>>=◌, check, ◌>>◌,
}
use oida.Storage.Memory as Driver
use oida.Storage.Memory.{Memory, new_memory_storage, trace_Retained}

pub record Document : Type 0 where
  pub modified : ℕ
  pub body : Text

pub record Disk : Type 0 where
  pub memory : Memory
  pub folder : Map Document
  pub limit : ℤ

-- What the operating system answers during a call: the time, the first error of the calls that
-- write a document, and the errors of listing the folder, and of removing, reading and inspecting a
-- document. A document that does not exist is no error to remove.
pub record System : Type 0 where
  pub now : ℕ
  pub writing : Option GoError
  pub listing : Option GoError
  pub removing : Text → Option GoError
  pub reading : Text → Option GoError
  pub inspecting : Text → Option GoError

-- NewDiskStorage over what the folder holds.
unfoldable pub new_disk_storage : ℤ → Map Document → Disk
unfolding new_memory_storage
new_disk_storage limit folder = record {
  memory = new_memory_storage limit;
  folder = folder;
  limit = limit;
}

unfoldable pub remove_each : System → List Text → Map Document → Result (Unit {0}) × Map Document
unfolding delete
remove_each os [] folder = (ok tt, folder)
remove_each os (name ∷ names) folder =
    let rest = remove_each os names (delete name folder) in
    elim (os.removing name) [ none ↦ rest | some e ↦ (fail (io e), folder) ]

-- The loop of Prune over the entries of the folder.
remove_older : System → ℤ → Map Document → Map Document → Result (Unit {0}) × Map Document
unfolding delete
remove_older os cutoff [] folder = (ok tt, folder)
remove_older os cutoff ((name, doc) ∷ entries) folder =
    let after = if ltb_ℤ (pos doc.modified) cutoff then delete name folder else folder in
    let refused : Option GoError =
      if ltb_ℤ (pos doc.modified) cutoff then os.removing name else none in
    let rest = remove_older os cutoff entries after in
    elim (os.inspecting name) [
      | some e ↦ (fail (io e), folder)
      | none ↦ elim refused [ some e ↦ (fail (io e), folder) | none ↦ rest ]
    ]

unfoldable pub prune : Option GoError → System → ℕ → Disk → Result (Unit {0}) × Disk
unfolding remove_older
prune (some e) os max_age d = (fail (cancelled e), d)
prune none os max_age d = elim os.listing [
  | some e ↦ (fail (io e), d)
  | none ↦
      let (answer, folder) = remove_older os (sub_ℕ os.now max_age) d.folder d.folder in
      (answer, record d { folder = folder })
]

-- What a limit leaves out of the names, the oldest first.
abbrev pub surplus : ℤ → List Text → List Text
surplus limit names = take (length names - pos_part limit) names

unfoldable pub list : Option GoError → (ℕ → ℕ → ℕ) → ℤ → Disk → Result (List Trace)
unfolding Driver.list
list done answers limit d = Driver.list done answers limit d.memory

unfoldable pub len : Option GoError → Disk → Result ℕ
unfolding Driver.len
len done d = Driver.len done d.memory

unfoldable pub cap : Disk → ℤ
cap d = d.limit

pub save_each : (ℕ → ℕ → ℕ) → List Trace → Memory → Memory
unfolding Driver.save
save_each answers [] m = m
save_each answers (t ∷ ts) m =
    save_each (λ k. answers (suc k)) ts (Driver.save none (answers 0) (some t) m).1

-- sort.Strings on the names.
module _ (sorted : List Text → List Text) where
  unfoldable pub names : System → Map Document → Result (List Text)
  names os folder = elim os.listing [
    | some e ↦ fail (io e)
    | none ↦ ok (sorted (map (λ entry. entry.0) folder))
  ]

  unfoldable pub prune_surplus : System → ℤ → Map Document → Result (Unit {0}) × Map Document
  unfolding names remove_each
  prune_surplus os limit folder =
      if leb_ℤ limit (pos 0) then (ok tt, folder) else elim (names os folder) [
        | fail e ↦ (fail e, folder)
        | ok found ↦ remove_each os (surplus limit found) folder
      ]

  unfoldable pub write_document :
      System → Text → Text → ℤ → Map Document → Result (Unit {0}) × Map Document
  unfolding prune_surplus insert
  write_document os id body limit folder = elim os.writing [
    | some e ↦ (fail (io e), folder)
    | none ↦ prune_surplus os limit (insert id (record { modified = os.now; body = body }) folder)
  ]

  unfoldable pub reset : Option GoError → System → Disk → Result (Unit {0}) × Disk
  unfolding Driver.reset names remove_each
  reset done os d =
      let (emptied, memory) = Driver.reset done d.memory in
      elim emptied [
        | fail e ↦ (fail e, d)
        | ok u ↦ elim (names os d.folder) [
          | fail e ↦ (fail e, record d { memory = memory })
          | ok found ↦
              let (answer, folder) = remove_each os found d.folder in
              (answer, record d { folder = folder; memory = memory })
        ]
      ]

-- What encoding/json makes of a trace.
module _ (sorted : List Text → List Text) (encode : Trace → GoError ⊎ Text) where
  -- The document is written before the ring is touched.
  unfoldable pub store_both :
      Option GoError → System → (ℕ → ℕ) → Trace → Text → Disk → Result (Unit {0}) × Disk
  unfolding write_document Driver.save
  store_both done os answers stored body d =
      let (written, folder) = write_document sorted os stored.id body d.limit d.folder in
      let (answer, memory) = Driver.save done answers (some stored) d.memory in
      elim written [
        | fail e ↦ (fail e, record d { folder = folder })
        | ok u ↦ (answer, record d { folder = folder; memory = memory })
      ]

  -- `done` and `later` are the answers of ctx.Err() here and in the save of the ring.
  unfoldable pub save :
      Option GoError
      → Option GoError
      → System
      → (ℕ → ℕ)
      → (ℕ → ℕ)
      → Trace
      → Disk
      → Result (Unit {0}) × Disk
  unfolding store_both valid_id clone
  save (some e) later os first second t d = (fail (cancelled e), d)
  save none later os first second t d =
      let stored = clone first t in
      if not (valid_id stored.id) then (fail invalid_id, d) else elim (encode stored) [
        | inl e ↦ (fail (io e), d)
        | inr body ↦ store_both later os second stored body d
      ]

-- What encoding/json makes of a document: the fields of a trace and its spans that are not exported,
-- such as whether they have finished or ended, keep their zero values.
module _ (decode : Text → GoError ⊎ Trace) where
  pub read_document : System → Text → Disk → Result Trace
  unfolding valid_id
  read_document os id d = if not (valid_id id) then fail invalid_id else elim (lookup id d.folder) [
    | none ↦ fail not_found
    | some doc ↦ elim (os.reading id) [
      | some e ↦ fail (io e)
      | none ↦ elim (decode doc.body) [ inl e ↦ fail (io e) | inr t ↦ ok t ]
    ]
  ]

  unfoldable pub load : Option GoError → System → (ℕ → ℕ) → Text → Disk → Result Trace
  unfolding Driver.load read_document
  load done os answers id d = elim (Driver.load done answers id d.memory) [
    | ok t ↦ ok t
    | fail not_found ↦ read_document os id d
    | fail (cancelled e) ↦ fail (cancelled e)
    | fail invalid_id ↦ fail invalid_id
    | fail (io e) ↦ fail (io e)
  ]

  -- A document that cannot be read or decoded is skipped.
  unfoldable pub decoded : System → Map Document → List Text → List Trace
  decoded os folder [] = []
  decoded os folder (name ∷ names) =
      let rest = decoded os folder names in
      elim (os.reading name) [
        | some e ↦ rest
        | none ↦ elim (lookup name folder) [
          | none ↦ rest
          | some doc ↦ elim (decode doc.body) [ inl e ↦ rest | inr t ↦ t ∷ rest ]
        ]
      ]

-- Restore with a context that is not done: the newest documents up to the limit, oldest first.
unfoldable pub restore :
    (List Text → List Text)
    → (Text → GoError ⊎ Trace)
    → System
    → (ℕ → ℕ → ℕ)
    → Disk
    → Result (Unit {0}) × Disk
unfolding names decoded save_each
restore sorted decode os answers d = elim (names sorted os d.folder) [
  | fail e ↦ (fail e, d)
  | ok found ↦
      let recent =
        if ltb_ℤ (pos 0) d.limit && ltb_ℤ d.limit (pos (length found))
        then drop (length found - pos_part d.limit) found
        else found in
      (ok tt, record d { memory = save_each answers (decoded decode os d.folder recent) d.memory })
]
