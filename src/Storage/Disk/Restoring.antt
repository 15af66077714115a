-- ===== src/Storage/Disk/Restoring.antt =====
-- What Restore makes of a folder.
use mathlib.Core.List.{reverse-cons}
use oida.Prelude.{
  if◌then◌else◌, Bool-cases, if-split, length, take, drop, keep, All, All-reverse, All-take,
  length-map, ℤ, pos, pos_part, ◌<ℤ◌, ltb_ℤ, Text, text_eq, text_eq_iff, Map, ℕ, zero, suc, ◌-◌,
  ◌≡◌, refl, ap, ap₂, ◌∙◌, ◌≢◌, ◌⊎◌, inl, inr, true, false, ◌&&◌, Option, none, some, List, [], ◌∷◌,
  ◌++◌, map, reverse, arith,
}
use oida.Ring
use oida.Ring.{named}
use oida.Ring.Slots.{new-IsValid}
use oida.Ring.Window.{list-window}
use oida.Ring.History.{push_all, copies, push_all-IsValid, window-history}
use oida.Model.State.{State}
use oida.Model.Data.{GoError, Trace, HttpInfo}
use oida.Model.Cloning.{clone}
use oida.Storage.Results.{ok}
use oida.Storage.Memory.{Memory, trace_Retained, limited, new_memory_storage, clones}
use oida.Storage.Memory as Driver
use oida.Storage.Memory.Retention.{saves, saves-push_all}
use oida.Storage.Disk.{Document, System, new_disk_storage, list, save_each, names, decoded, restore}

-- The saves with the answers of the clock to each.
abbrev pushes : (ℕ → ℕ → ℕ) → List Trace → List ((ℕ → ℕ) × Trace)
pushes answers [] = []
pushes answers (t ∷ ts) = (answers 0, t) ∷ pushes (λ k. answers (suc k)) ts

save_each-saves :
    (answers : ℕ → ℕ → ℕ) (ts : List Trace) (m : Memory)
    → save_each answers ts m ≡ saves (pushes answers ts) m
unfolding save_each saves Driver.save
save_each-saves answers [] m = refl
save_each-saves answers (t ∷ ts) m =
    save_each-saves (λ k. answers (suc k)) ts (Driver.save none (answers 0) (some t) m).1

-- What a document says of a trace, less its spans, attributes and log.
pub record Heading : Type 0 where
  pub id : Text
  pub name : Text
  pub service : Text
  pub state : State
  pub started_at : ℕ
  pub duration : ℤ
  pub error_text : Text
  pub http : Option HttpInfo

abbrev pub heading : Trace → Heading
heading t = record {
  id = t.id;
  name = t.name;
  service = t.service;
  state = t.state;
  started_at = t.started_at;
  duration = t.duration;
  error_text = t.error_text;
  http = t.http;
}

-- A decoded trace: encoding/json sets no unexported field, so it has not finished. Its document was
-- written by Save, with an ID and a duration.
pub record IsDecoded (t : Trace) : Type 0 where
  pub unfinished : t.finished ≡ false
  pub named : t.id ≢ []
  pub lasted : pos 0 <ℤ t.duration

heading-clone : (answers : ℕ → ℕ) (t : Trace) → IsDecoded t → heading (clone answers t) ≡ heading t
unfolding clone
heading-clone answers t v = ground (arith, v.lasted)

IsDecoded-clone : (answers : ℕ → ℕ) (t : Trace) → IsDecoded t → IsDecoded (clone answers t)
IsDecoded-clone answers t v = record {
  unfinished = unfold clone in v.unfinished;
  named = unfold clone in v.named;
  lasted = rw (ap (λ h. h.duration) (heading-clone answers t v)) v.lasted;
}

copies-IsDecoded :
    (answers : ℕ → ℕ → ℕ) (ts : List Trace)
    → All IsDecoded ts
    → All IsDecoded (copies (pushes answers ts))
copies-IsDecoded answers [] h = tt
copies-IsDecoded answers (t ∷ ts) h =
    (IsDecoded-clone (answers 0) t h.0, copies-IsDecoded (λ k. answers (suc k)) ts h.1)

copies-heading :
    (answers : ℕ → ℕ → ℕ) (ts : List Trace)
    → All IsDecoded ts
    → map heading (copies (pushes answers ts)) ≡ map heading ts
copies-heading answers [] h = refl
copies-heading answers (t ∷ ts) h =
    ap₂ ◌∷◌ (heading-clone (answers 0) t h.0) (copies-heading (λ k. answers (suc k)) ts h.1)

clones-heading :
    (answers : ℕ → ℕ → ℕ) (ts : List Trace)
    → All IsDecoded ts
    → map heading (clones answers ts) ≡ map heading ts
unfolding clones
clones-heading answers [] h = refl
clones-heading answers (t ∷ ts) h =
    ap₂ ◌∷◌ (heading-clone (answers 0) t h.0) (clones-heading (λ k. answers (suc k)) ts h.1)

clones-in_flight :
    (answers : ℕ → ℕ → ℕ) (ts : List Trace)
    → All IsDecoded ts
    → All (λ (t : Trace). t.in_flight ≡ true) (clones answers ts)
unfolding clones clone
clones-in_flight answers [] h = tt
clones-in_flight answers (t ∷ ts) h =
    (rw h.0.unfinished refl, clones-in_flight (λ k. answers (suc k)) ts h.1)

map-take : (n : ℕ) (ts : List Trace) → map heading (take n ts) ≡ take n (map heading ts)
map-take zero ts = refl
map-take (suc n) [] = refl
map-take (suc n) (t ∷ ts) = ap (◌∷◌ (heading t)) (map-take n ts)

map-snoc :
    (ts : List Trace) (t : Trace)
    → map heading (ts ++ (t ∷ [])) ≡ map heading ts ++ (heading t ∷ [])
map-snoc [] t = refl
map-snoc (u ∷ ts) t = ap (◌∷◌ (heading u)) (map-snoc ts t)

map-reverse : (ts : List Trace) → map heading (reverse ts) ≡ reverse (map heading ts)
map-reverse [] = refl
map-reverse (t ∷ ts) =
    rw (reverse-cons t ts, reverse-cons (heading t) (map heading ts))
      (map-snoc (reverse ts) t ∙ ap (λ hs. hs ++ (heading t ∷ [])) (map-reverse ts))

-- The cut to a limit, of a list of any type.
abbrev pub cut_to {ℓ} : {A : Type ℓ} → ℤ → List A → List A
cut_to limit xs =
    if ltb_ℤ (pos 0) limit && ltb_ℤ limit (pos (length xs)) then take (pos_part limit) xs else xs

map-limited :
    (limit : ℤ) (ts : List Trace) → map heading (limited limit ts) ≡ cut_to limit (map heading ts)
unfolding limited
map-limited limit ts = rw (length-map heading ts) (
    if-split
      (λ xs. map heading xs ≡ (
        if ltb_ℤ (pos 0) limit && ltb_ℤ limit (pos (length ts))
        then take (pos_part limit) (map heading ts)
        else map heading ts))
      (ltb_ℤ (pos 0) limit && ltb_ℤ limit (pos (length ts)))
      (λ y. rw y (map-take (pos_part limit) ts)) (λ n. rw n refl))

limited-IsDecoded :
    (limit : ℤ) (ts : List Trace) → All IsDecoded ts → All IsDecoded (limited limit ts)
unfolding limited
limited-IsDecoded limit ts h =
    if-split (All IsDecoded) (ltb_ℤ (pos 0) limit && ltb_ℤ limit (pos (length ts)))
      (λ _. All-take IsDecoded (pos_part limit) ts h) (λ _. h)

keep-named : (ts : List Trace) → All IsDecoded ts → keep named ts ≡ ts
keep-named [] h = refl
keep-named (t ∷ ts) h = elim (Bool-cases (text_eq t.id [])) [
  | inl y ↦ absurd (h.0.named ((text_eq_iff t.id []).0 y))
  | inr n ↦ rw n (ap (◌∷◌ t) (keep-named ts h.1))
]

-- The names that Restore reads.
abbrev pub recent : ℤ → List Text → List Text
recent limit found =
    if ltb_ℤ (pos 0) limit && ltb_ℤ limit (pos (length found))
    then drop (length found - pos_part limit) found
    else found

restored :
    (sorted : List Text → List Text) (decode : Text → GoError ⊎ Trace) (os : System)
    (answers : ℕ → ℕ → ℕ) (size : ℤ) (folder : Map Document)
    → os.listing ≡ none
    → (restore sorted decode os answers (new_disk_storage size folder)).1.memory
      ≡ save_each answers
          (decoded decode os folder (recent size (sorted (map (λ entry. entry.0) folder))))
          (new_memory_storage size)
unfolding restore names new_disk_storage
restored sorted decode os answers size folder ready = ground arith

held :
    (size : ℤ) (answers : ℕ → ℕ → ℕ) (ts : List Trace)
    → All IsDecoded ts
    → Ring.list (save_each answers ts (new_memory_storage size))
      ≡ take (pos_part size) (reverse (copies (pushes answers ts)))
unfolding new_memory_storage
held size answers ts h =
    let ps = pushes answers ts in
    rw (save_each-saves answers ts (Ring.new size), saves-push_all ps (Ring.new size))
      (list-window (push_all ps (Ring.new size))
          (push_all-IsValid ps (Ring.new size) (new-IsValid size))
        ∙ rw (window-history size ps) (
            keep-named _ (
              All-take IsDecoded (pos_part size) (reverse (copies ps))
                (All-reverse IsDecoded (copies ps) (copies-IsDecoded answers ts h)))))

-- After Restore of a new disk storage whose folder can be listed and whose readable documents
-- decode to traces with an ID and a duration, which have not finished since no document sets that,
-- List returns traces with the headings of what the newest documents decode to, the last names
-- first, as many as the size keeps, cut to the limit if it is positive; and it marks each of them
-- as in flight.
pub list-restore :
    (sorted : List Text → List Text) (decode : Text → GoError ⊎ Trace) (os : System)
    (answers later : ℕ → ℕ → ℕ) (size limit : ℤ) (folder : Map Document)
    → os.listing ≡ none
    → All IsDecoded
        (decoded decode os folder (recent size (sorted (map (λ entry. entry.0) folder))))
    → (ts : List Trace) × (list none later limit
          (restore sorted decode os answers (new_disk_storage size folder)).1
        ≡ ok ts)
      × (map heading ts
          ≡ cut_to limit (
              take (pos_part size) (
                reverse (
                  map heading (
                    decoded decode os folder
                      (recent size (sorted (map (λ entry. entry.0) folder))))))))
      × All (λ (t : Trace). t.in_flight ≡ true) ts
unfolding list Driver.list
list-restore sorted decode os answers later size limit folder ready h =
    let ds = decoded decode os folder (recent size (sorted (map (λ entry. entry.0) folder))) in
    let cs = copies (pushes answers ds) in
    let kept = take (pos_part size) (reverse cs) in
    let good : All IsDecoded kept =
      All-take IsDecoded (pos_part size) (reverse cs)
        (All-reverse IsDecoded cs (copies-IsDecoded answers ds h)) in
    let shown : All IsDecoded (limited limit kept) = limited-IsDecoded limit kept good in
    (
      clones later (limited limit kept),
      rw (restored sorted decode os answers size folder ready, held size answers ds h) refl,
      clones-heading later (limited limit kept) shown
          ∙ map-limited limit kept
          ∙ ap (cut_to limit) (
              map-take (pos_part size) (reverse cs)
              ∙ ap (take (pos_part size))
                  (map-reverse cs ∙ ap reverse (copies-heading answers ds h))),
      clones-in_flight later (limited limit kept) shown,
    )
