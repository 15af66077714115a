-- ===== src/Storage/Disk/Persistence.antt =====
-- What a save of the disk driver leaves in the ring and in the folder.
use oida.Prelude.{
  if◌then◌else◌, Bool-cases, Option-cases, ℤ, pos, leb_ℤ, Text, text_eq, text_eq_refl, Map, lookup,
  insert, delete, lookup-insert, lookup-delete, ℕ, ◌≡◌, refl, sym, ◌∙◌, subst, ◌⊎◌, inl, inr, Bool,
  true, false, ◌||◌, Option, none, some, List, [], ◌∷◌, map, arith, sum_cases,
}
use oida.Model.Data.{GoError, Trace}
use oida.Model.Ids.{valid_id}
use oida.Model.Cloning.{clone}
use oida.Storage.Results.{Failure, not_found, ok, fail, Result-cases}
use oida.Ring as Ring
use oida.Storage.Memory as Driver
use oida.Storage.Memory.{ident-clone, Memory, trace_Retained}
use oida.Storage.Disk.{
  Document, Disk, System, remove_each, names, surplus, prune_surplus, write_document, store_both,
  save, read_document, load,
}

pub among : Text → List Text → Bool
among k [] = false
among k (n ∷ ns) = text_eq n k || among k ns

-- Removing names one by one without an error leaves what is under other names.
remove_each-lookup :
    (os : System) (ns : List Text) (folder : Map Document) (k : Text)
    → (remove_each os ns folder).0 ≡ ok tt
    → lookup k (remove_each os ns folder).1 ≡ (if among k ns then none else lookup k folder)
unfolding remove_each among
remove_each-lookup os [] folder k h = refl
remove_each-lookup os (n ∷ ns) folder k h = elim (Option-cases (os.removing n)) [
  | inl e ↦
      ground (arith, e, remove_each-lookup os ns (delete n folder) k, lookup-delete n k folder)
  | inr (x, e) ↦ ground (arith, e)
]

-- The names that a limit prunes from a folder.
abbrev pub pruned : (List Text → List Text) → ℤ → Map Document → List Text
pruned sorted limit folder =
    if leb_ℤ limit (pos 0) then [] else surplus limit (sorted (map (λ entry. entry.0) folder))

abbrev document : System → Text → Document
document os body = record { modified = os.now; body = body }

prune_surplus-lookup :
    (sorted : List Text → List Text) (os : System) (limit : ℤ) (folder : Map Document) (k : Text)
    → (prune_surplus sorted os limit folder).0 ≡ ok tt
    → lookup k (prune_surplus sorted os limit folder).1
      ≡ (if among k (pruned sorted limit folder) then none else lookup k folder)
unfolding prune_surplus names among
prune_surplus-lookup sorted os limit folder k h =
    ground (
      arith,
      remove_each-lookup os (surplus limit (sorted (map (λ entry. entry.0) folder))) folder k,
    )

-- What a save that succeeds did: the copy was encoded, the folder has its document but for what the
-- limit prunes, and the ring took the copy.
pub record Persisted (sorted : List Text → List Text) (encode : Trace → GoError ⊎ Text)
    (os : System) (answers : ℕ → ℕ) (stored : Trace) (d d' : Disk) : Type 0 where
  pub body : Text
  encoded : encode stored ≡ inr body
  pub valid : valid_id stored.id ≡ true
  pub kept :
      (k : Text)
      → lookup k d'.folder ≡ (
          if among k (pruned sorted d.limit (insert stored.id (document os body) d.folder))
          then none
          else if text_eq stored.id k
          then some (document os body)
          else lookup k d.folder)
  pub ring : d'.memory ≡ (Driver.save none answers (some stored) d.memory).1
  pub limit : d'.limit ≡ d.limit

module _ (sorted : List Text → List Text) (encode : Trace → GoError ⊎ Text) where
  store_both-fail :
      (later : Option GoError) (os : System) (second : ℕ → ℕ) (stored : Trace) (body : Text)
      (d : Disk) (e : Failure)
      → (store_both sorted encode later os second stored body d).0 ≡ fail e
      → (store_both sorted encode later os second stored body d).1.memory ≡ d.memory
  unfolding store_both Driver.save
  store_both-fail none os second stored body d e h = ground arith
  store_both-fail (some x) os second stored body d e h = ground arith

  -- A Save to disk that reports an error leaves the ring as it was, so that List shows no trace
  -- whose save has failed.
  save-fail :
      (done later : Option GoError) (os : System) (first second : ℕ → ℕ) (t : Trace) (d : Disk)
      (e : Failure)
      → (save sorted encode done later os first second t d).0 ≡ fail e
      → (save sorted encode done later os first second t d).1.memory ≡ d.memory
  unfolding save
  save-fail (some x) later os first second t d e h = refl
  save-fail none later os first second t d e h =
      ground (arith, λ (body : Text). store_both-fail later os second (clone first t) body d e)

  store_both-done :
      (os : System) (second : ℕ → ℕ) (stored : Trace) (body : Text) (d : Disk)
      → os.writing ≡ none
      → (prune_surplus sorted os d.limit (insert stored.id (document os body) d.folder)).0 ≡ ok tt
      → (store_both sorted encode none os second stored body d).1 ≡ record d {
        folder = (prune_surplus sorted os d.limit (insert stored.id (document os body) d.folder)).1;
        memory = (Driver.save none second (some stored) d.memory).1;
      }
  unfolding store_both Driver.save write_document
  store_both-done os second stored body d w p = ground arith

  store_both-Persisted :
      (later : Option GoError) (os : System) (second : ℕ → ℕ) (stored : Trace) (body : Text)
      (d : Disk)
      → encode stored ≡ inr body
      → valid_id stored.id ≡ true
      → (store_both sorted encode later os second stored body d).0 ≡ ok tt
      → Persisted sorted encode os second stored d
          (store_both sorted encode later os second stored body d).1
  unfolding store_both Driver.save write_document
  store_both-Persisted (some x) os second stored body d e v h = absurd (ground arith)
  store_both-Persisted none os second stored body d e v h = elim (Option-cases os.writing) [
    | inr (x, w) ↦ absurd (ground arith)
    | inl w ↦
        let folder = insert stored.id (document os body) d.folder in
        elim (Result-cases (prune_surplus sorted os d.limit folder).0) [
          | inr (x, p) ↦ absurd (ground arith)
          | inl (u, p) ↦
              subst (Persisted sorted encode os second stored d)
                (sym (store_both-done os second stored body d w p))
                (record {
                  body = body;
                  encoded = e;
                  valid = v;
                  kept = λ k.
                      prune_surplus-lookup sorted os d.limit folder k p
                      ∙ rw (lookup-insert stored.id k (document os body) d.folder) refl;
                  ring = refl;
                  limit = refl;
                })
        ]
  ]

  -- After a Save to disk that reports no error, the trace's document holds the encoding of the
  -- copy, no other document has changed, except that pruning to the limit has removed the surplus
  -- of the first names, and the ring has saved the copy.
  pub save-Persisted :
      (done later : Option GoError) (os : System) (first second : ℕ → ℕ) (t : Trace) (d : Disk)
      → (save sorted encode done later os first second t d).0 ≡ ok tt
      → Persisted sorted encode os second
          (clone first t)
          d
          (save sorted encode done later os first second t d).1
  unfolding save
  save-Persisted (some x) later os first second t d h = absurd (ground arith)
  save-Persisted none later os first second t d h =
      elim (Bool-cases (valid_id (clone first t).id)) [
        | inr v ↦ absurd (ground arith)
        | inl v ↦ elim (sum_cases (encode (clone first t))) [
          | inl (x, e) ↦ absurd (ground arith)
          | inr (body, e) ↦
              rw (v, e)
                (store_both-Persisted later os second (clone first t) body d e v (rw (v, e) at h))
        ]
      ]

load-no_slots :
    (answers : ℕ → ℕ) (id : Text) (m : Memory)
    → Driver.cap m ≡ 0
    → Driver.load none answers id m ≡ fail not_found
unfolding Driver.load Driver.cap Ring.find Ring.list Ring.find_in Ring.cap
load-no_slots answers id m h = ground arith

save-no_slots :
    (answers : ℕ → ℕ) (t : Trace) (m : Memory)
    → Driver.cap m ≡ 0
    → (Driver.save none answers (some t) m).1 ≡ m
unfolding Driver.save Driver.cap Ring.push Ring.cap
save-no_slots answers t m h = ground arith

read_document-found :
    (decode : Text → GoError ⊎ Trace) (os : System) (id : Text) (d : Disk) (doc : Document)
    (read : Trace)
    → valid_id id ≡ true
    → lookup id d.folder ≡ some doc
    → os.reading id ≡ none
    → decode doc.body ≡ inr read
    → read_document decode os id d ≡ ok read
unfolding read_document
read_document-found decode os id d doc read v l r q = ground arith

load-not_found :
    (decode : Text → GoError ⊎ Trace) (os : System) (answers : ℕ → ℕ) (id : Text) (d : Disk)
    → Driver.load none answers id d.memory ≡ fail not_found
    → load decode none os answers id d ≡ read_document decode os id d
unfolding load
load-not_found decode os answers id d a = rw (a, load) refl

-- In a disk storage without a limit, whose ring has no slots, a trace whose save reports no error
-- is loaded by its ID as what its document decodes to, where the document can be read and decodes.
load-save_unbounded :
    (sorted : List Text → List Text) (encode : Trace → GoError ⊎ Text)
    (decode : Text → GoError ⊎ Trace) (later : Option GoError) (os os' : System)
    (first second third : ℕ → ℕ) (t read : Trace) (body : Text) (d : Disk)
    → leb_ℤ d.limit (pos 0) ≡ true
    → Driver.cap d.memory ≡ 0
    → (save sorted encode none later os first second t d).0 ≡ ok tt
    → encode (clone first t) ≡ inr body
    → decode body ≡ inr read
    → os'.reading t.id ≡ none
    → load decode none os' third t.id (save sorted encode none later os first second t d).1
      ≡ ok read
unfolding among
load-save_unbounded sorted encode decode later os os' first second third t read body d l c s e r q =
    let d' = (save sorted encode none later os first second t d).1 in
    let p = save-Persisted sorted encode none later os first second t d s in
    let same : p.body ≡ body = ground (arith, p.encoded, e) in
    let absent : Driver.load none third t.id d'.memory ≡ fail not_found =
      rw (p.ring, save-no_slots second (clone first t) d.memory c)
        (load-no_slots third t.id d.memory c) in
    let kept : lookup t.id d'.folder ≡ some (document os p.body) =
      ground (arith, p.kept t.id, text_eq_refl t.id, ident-clone first t, l) in
    load-not_found decode os' third t.id d' absent
    ∙ read_document-found decode os' t.id d' (document os p.body) read
        (rw (← ident-clone first t) p.valid) kept q (rw same r)
