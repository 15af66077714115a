-- ===== src/Storage/Memory/Retention.antt =====
-- What the in-memory driver retains over a history of saves.
use oida.Prelude.{
  take_all, take-append_left, length-reverse, length-map, Option-cases, ℕ, zero, suc, ◌<◌, ◌≤◌,
  Bool-cases, if-split, length, take, keep, All, All-reverse, All-take, ℤ, pos, pos_part, ltb_ℤ,
  Text, text_eq, text_eq_iff, ◌≡◌, refl, sym, ap, ap₂, ◌∙◌, subst, ◌≢◌, inl, inr, true, ◌&&◌, none,
  some, List, [], ◌∷◌, map, reverse, arith,
}
use oida.Ring
use oida.Ring.{Retained, named}
use oida.Ring.Slots.{IsValid, push-IsValid, len-le-cap, new-IsValid}
use oida.Ring.Window.{window, length-window, window-push, list-window}
use oida.Ring.History.{
  Newest, find-Newest, window-push_all, copies, Pushed, push_all, push_all-IsValid, window-history,
}
use oida.Model.Data.{Trace}
use oida.Model.Cloning.{clone}
use oida.Model.Cloning.Archive.{clone-clone, IsComplete, archived, clone-archived}
use oida.Storage.Results.{not_found, fail, ok}
use oida.Storage.Memory.{
  cap, load, save, ident-clone, trace_Retained, Memory, new_memory_storage, clones, limited, list,
}

-- Saves in order, oldest first, with a context that is not done.
unfoldable pub saves : List (Pushed Trace) → Memory → Memory
unfolding save
saves [] m = m
saves ((answers, t) ∷ ps) m = saves ps (save none answers (some t) m).1

pub saves-push_all : (ps : List (Pushed Trace)) (m : Memory) → saves ps m ≡ push_all ps m
unfolding saves push_all
saves-push_all [] m = refl
saves-push_all ((answers, t) ∷ ps) m = saves-push_all ps (Ring.push answers (some t) m).0

-- A trace that storage keeps as it is.
abbrev pub IsSaved : Trace → Type 0
IsSaved t = IsComplete t × (t.id ≢ [])

-- A retained copy: later copies of it are the same, and it has an ID.
abbrev IsStable : Trace → Type 0
IsStable a = ((answers : ℕ → ℕ) → clone answers a ≡ a) × (named a ≡ true)

named-clone : (answers : ℕ → ℕ) (t : Trace) → t.id ≢ [] → named (clone answers t) ≡ true
named-clone answers t h = rw (ident-clone answers t) (elim (Bool-cases (text_eq t.id [])) [
  | inl y ↦ absurd (h ((text_eq_iff t.id []).0 y))
  | inr n ↦ rw n
])

copy-IsStable : (answers : ℕ → ℕ) (t : Trace) → IsSaved t → IsStable (clone answers t)
copy-IsStable answers t h = (λ later. clone-clone answers later t h.0, named-clone answers t h.1)

copies-IsStable : (ps : List (Pushed Trace)) → All (λ p. IsSaved p.1) ps → All IsStable (copies ps)
copies-IsStable [] h = tt
copies-IsStable ((answers, t) ∷ ps) h = (copy-IsStable answers t h.0, copies-IsStable ps h.1)

keep-named-IsStable : (ts : List Trace) → All IsStable ts → keep named ts ≡ ts
keep-named-IsStable [] h = refl
keep-named-IsStable (t ∷ ts) h = ground (arith, keep-named-IsStable ts h.1)

clones-IsStable : (answers : ℕ → ℕ → ℕ) (ts : List Trace) → All IsStable ts → clones answers ts ≡ ts
unfolding clones
clones-IsStable answers [] h = refl
clones-IsStable answers (t ∷ ts) h =
    ap₂ ◌∷◌ (h.0.0 (answers 0)) (clones-IsStable (λ k. answers (suc k)) ts h.1)

copies-archived :
    (ps : List (Pushed Trace)) → All (λ p. IsSaved p.1) ps → copies ps ≡ map (λ p. archived p.1) ps
copies-archived [] h = refl
copies-archived ((answers, t) ∷ ps) h =
    ap₂ ◌∷◌ (clone-archived answers t h.0.0) (copies-archived ps h.1)

limited-IsStable : (limit : ℤ) (ts : List Trace) → All IsStable ts → All IsStable (limited limit ts)
unfolding limited
limited-IsStable limit ts h =
    if-split (All IsStable) (ltb_ℤ (pos 0) limit && ltb_ℤ limit (pos (length ts)))
      (λ _. All-take IsStable (pos_part limit) ts h) (λ _. h)

retained-IsStable :
    (n : ℕ) (ps : List (Pushed Trace))
    → All (λ p. IsSaved p.1) ps
    → All IsStable (take n (reverse (copies ps)))
retained-IsStable n ps h =
    All-take IsStable n (reverse (copies ps))
      (All-reverse IsStable (copies ps) (copies-IsStable ps h))

retained :
    (size : ℤ) (ps : List (Pushed Trace))
    → All (λ p. IsSaved p.1) ps
    → Ring.list (push_all ps (Ring.new size)) ≡ take (pos_part size) (reverse (copies ps))
retained size ps h =
    list-window (push_all ps (Ring.new size))
      (push_all-IsValid ps (Ring.new size) (new-IsValid size))
    ∙ rw (window-history size ps) (
        keep-named-IsStable (take (pos_part size) (reverse (copies ps)))
          (retained-IsStable (pos_part size) ps h))

-- After any history of saves of completed traces with an ID in a new storage of `size` slots, List
-- returns the archived forms of the last `size` of them, newest first, cut to the limit if it is
-- positive, whatever the clock answers.
pub list-saves :
    (size limit : ℤ) (answers : ℕ → ℕ → ℕ) (ps : List (Pushed Trace))
    → All (λ p. IsSaved p.1) ps
    → list none answers limit (saves ps (new_memory_storage size))
      ≡ ok (limited limit (take (pos_part size) (reverse (map (λ p. archived p.1) ps))))
unfolding list new_memory_storage
list-saves size limit answers ps h =
    rw (saves-push_all ps (Ring.new size), retained size ps h, ← copies-archived ps h)
      (ap ok (
        clones-IsStable answers _
          (limited-IsStable limit _ (retained-IsStable (pos_part size) ps h))))

Newest-front :
    (id : Text) (k : ℕ) (x : Trace) (xs : List Trace)
    → 0 < k
    → x.id ≡ id
    → Newest id (take k (x ∷ xs)) x
Newest-front id zero x xs h e = absurd (omega arith)
Newest-front id (suc k) x xs h e = inl (e, refl)

-- In a valid storage with a slot to keep it in, a completed trace with an ID that was just saved
-- is loaded by its ID as it was archived.
pub load-save :
    (answers later : ℕ → ℕ) (t : Trace) (m : Memory)
    → IsValid m
    → 0 < cap m
    → IsSaved t
    → load none later t.id (save none answers (some t) m).1 ≡ ok (archived t)
unfolding load save cap
load-save answers later t m v c h =
    let r = (Ring.push answers (some t) m).0 in
    let front =
      Newest-front t.id (Ring.cap m) (clone answers t) (window m) c (ident-clone answers t) in
    let found =
      (find-Newest t.id r (clone answers t) (push-IsValid answers (some t) m v) h.1).1
        (rw (window-push answers t m v) front) in
    rw found (ap ok (clone-clone answers later t h.0 ∙ clone-archived answers t h.0))

no-Newest :
    (id : Text) (n : ℕ) (ts : List Trace) (a : Trace)
    → All (λ t. t.id ≢ id) ts
    → ¬ Newest id (take n ts) a
no-Newest id zero ts a h m = m
no-Newest id (suc n) [] a h m = m
no-Newest id (suc n) (t ∷ ts) a h (inl (e, q)) = h.0 e
no-Newest id (suc n) (t ∷ ts) a h (inr (d, m)) = no-Newest id n ts a h.1 m

copies-other :
    (id : Text) (ps : List (Pushed Trace))
    → All (λ p. p.1.id ≢ id) ps
    → All (λ t. t.id ≢ id) (copies ps)
copies-other id [] h = tt
copies-other id ((answers, t) ∷ ps) h =
    (λ e. h.0 (sym (ident-clone answers t) ∙ e), copies-other id ps h.1)

-- In a valid storage, once at least as many traces were saved under other IDs as there are slots,
-- a nonempty ID is not found.
load-evicted :
    (later : ℕ → ℕ) (id : Text) (ps : List (Pushed Trace)) (m : Memory)
    → IsValid m
    → id ≢ []
    → cap m ≤ length ps
    → All (λ p. p.1.id ≢ id) ps
    → load none later id (saves ps m) ≡ fail not_found
unfolding load cap
load-evicted later id ps m v ne full h = elim (Option-cases (Ring.find id (saves ps m))) [
  | inl e ↦ rw e
  | inr (a, e) ↦ absurd (gone a e)
]
  where
    only_new : window (push_all ps m) ≡ take (Ring.cap m) (reverse (copies ps))
    only_new =
        window-push_all ps m (window m) v
          (sym (take_all (Ring.cap m) (window m) (rw (length-window m) (len-le-cap m v))))
        ∙ take-append_left (Ring.cap m) (reverse (copies ps)) (window m)
            (rw (length-reverse (copies ps), length-map (λ p. clone p.0 p.1) ps) full)

    gone : (a : Trace) → Ring.find id (saves ps m) ≡ some a → ⊥
    gone a e =
        no-Newest id (Ring.cap m) (reverse (copies ps)) a
          (All-reverse (λ t. t.id ≢ id) (copies ps) (copies-other id ps h))
          (subst (λ w. Newest id w a) only_new
            ((find-Newest id (push_all ps m) a (push_all-IsValid ps m v) ne).0
              (ap (Ring.find id) (sym (saves-push_all ps m)) ∙ e)))
