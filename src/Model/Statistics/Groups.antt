-- ===== src/Model/Statistics/Groups.antt =====
-- The figures of a group are those of the window's traces with its key.
use oida.Prelude.{
  if◌then◌else◌, Bool-cases, length, keep, All, ℤ, pos, ◌+ℤ◌, ◌≤ℤ◌, int_laws, Text, text_eq,
  text_eq_sound, Map, lookup, lookup-insert, ℕ, ◌+◌, ◌%◌, ◌^◌, ◌≡◌, refl, sym, ap, ◌∙◌, subst, ◌⊎◌,
  inl, inr, Option, none, some, List, [], ◌∷◌, ◌++◌, arith,
}
use native.Mathlib.Nat.{mod-add-mod}
use oida.Model.Data.{Trace}
use oida.Model.Statistics.Tallies.{
  Statistic, key_of, has_failed, response_bytes_of, new_statistic, tally, group_trace, group_all,
}

-- The traces of a group.
pub of_group : Text → List Trace → List Trace
of_group key ts = keep (λ t. text_eq (key_of t) key) ts

abbrev sum_of : (Trace → ℕ) → List Trace → ℕ
sum_of f [] = 0
sum_of f (t ∷ ts) = f t + sum_of f ts

abbrev sum_durations : List Trace → ℤ
sum_durations [] = pos 0
sum_durations (t ∷ ts) = t.duration +ℤ sum_durations ts

-- What the figures of a group say of its traces.
pub record IsTally (key : Text) (ts : List Trace) (s : Statistic) : Type 0 where
  pub label : s.host ++ (0 ∷ s.name) ≡ key
  pub count : s.count ≡ length ts
  pub errors : s.errors ≡ length (keep has_failed ts)
  pub total_duration : s.total_duration ≡ sum_durations ts
  pub longest : All (λ t. t.duration ≤ℤ s.max_duration) ts
  pub least : (b : ℤ) → pos 0 ≤ℤ b → All (λ t. t.duration ≤ℤ b) ts → s.max_duration ≤ℤ b
  pub response_bytes : s.total_response_bytes ≡ sum_of response_bytes_of ts % 2 ^ 64
  pub allocated : s.total_allocated ≡ sum_of (λ t. t.memory.allocated_bytes) ts % 2 ^ 64
  pub spans : s.total_spans ≡ sum_of (λ t. length t.spans) ts % 2 ^ 64

abbrev tally_from : List Trace → Statistic → Statistic
tally_from [] s = s
tally_from (t ∷ ts) s = tally_from ts (tally t s)

abbrev tally_all : List Trace → Option Statistic → Option Statistic
tally_all [] o = o
tally_all (t ∷ ts) none = some (tally_from ts (tally t (new_statistic t)))
tally_all (t ∷ ts) (some s) = some (tally_from ts (tally t s))

tally_all-one :
    (t : Trace) (o : Option Statistic)
    → some (tally t (elim o [ none ↦ new_statistic t | some s ↦ s ])) ≡ tally_all (t ∷ []) o
tally_all-one t none = refl
tally_all-one t (some s) = refl

lookup-group_trace :
    (key : Text) (t : Trace) (m : Map Statistic)
    → lookup key (group_trace t m)
      ≡ (if text_eq (key_of t) key then tally_all (t ∷ []) (lookup key m) else lookup key m)
unfolding group_trace
lookup-group_trace key t m =
    let o = lookup (key_of t) m in
    lookup-insert (key_of t) key
      (tally t (elim o as (λ o. Statistic) [ none ↦ new_statistic t | some s ↦ s ])) m
    ∙ elim (Bool-cases (text_eq (key_of t) key)) [
      | inl y ↦ rw y (
          tally_all-one t o
          ∙ ap (λ k. tally_all (t ∷ []) (lookup k m)) (text_eq_sound (key_of t) key y))
      | inr n ↦ rw n refl
    ]

tally_all-cons :
    (t : Trace) (ts : List Trace) (o : Option Statistic)
    → tally_all ts (tally_all (t ∷ []) o) ≡ tally_all (t ∷ ts) o
tally_all-cons t [] none = refl
tally_all-cons t [] (some s) = refl
tally_all-cons t (u ∷ ts) none = refl
tally_all-cons t (u ∷ ts) (some s) = refl

lookup-group_all :
    (key : Text) (ts : List Trace) (m : Map Statistic)
    → lookup key (group_all ts m) ≡ tally_all (of_group key ts) (lookup key m)
unfolding group_all of_group
lookup-group_all key [] m = refl
lookup-group_all key (t ∷ ts) m = elim (Bool-cases (text_eq (key_of t) key)) [
  | inl y ↦
      lookup-group_all key ts (group_trace t m)
      ∙ rw (lookup-group_trace key t m, y) (tally_all-cons t (of_group key ts) (lookup key m))
  | inr n ↦ lookup-group_all key ts (group_trace t m) ∙ rw (lookup-group_trace key t m, n) refl
]

count-tally_from : (ts : List Trace) (s : Statistic) → (tally_from ts s).count ≡ s.count + length ts
unfolding tally
count-tally_from [] s = omega arith
count-tally_from (t ∷ ts) s = omega (arith, count-tally_from ts (tally t s))

errors-tally_from :
    (ts : List Trace) (s : Statistic)
    → (tally_from ts s).errors ≡ s.errors + length (keep has_failed ts)
unfolding tally
errors-tally_from [] s = omega arith
errors-tally_from (t ∷ ts) s = ground (arith, errors-tally_from ts (tally t s))

add_zero : (a : ℤ) → a ≡ a +ℤ pos 0
add_zero a = grind int_laws

add_assoc : (a b c : ℤ) → (a +ℤ b) +ℤ c ≡ a +ℤ (b +ℤ c)
add_assoc a b c = grind int_laws

total_duration-tally_from :
    (ts : List Trace) (s : Statistic)
    → (tally_from ts s).total_duration ≡ s.total_duration +ℤ sum_durations ts
unfolding tally
total_duration-tally_from [] s = add_zero s.total_duration
total_duration-tally_from (t ∷ ts) s =
    total_duration-tally_from ts (tally t s)
    ∙ add_assoc s.total_duration t.duration (sum_durations ts)

-- A sum that wraps at each step wraps once.
wrapped-tally_from :
    (sum : Statistic → ℕ) (f : Trace → ℕ)
    → ((t : Trace) (s : Statistic) → sum (tally t s) ≡ (sum s + f t) % 2 ^ 64)
    → (ts : List Trace) (s : Statistic) (n : ℕ) → sum s ≡ n % 2 ^ 64
    → sum (tally_from ts s) ≡ (n + sum_of f ts) % 2 ^ 64
wrapped-tally_from sum f step [] s n h = h ∙ ap (λ k. k % 2 ^ 64) (omega arith)
wrapped-tally_from sum f step (t ∷ ts) s n h =
    wrapped-tally_from sum f step ts (tally t s) (n + f t)
      (step t s ∙ ap (λ k. (k + f t) % 2 ^ 64) h ∙ mod-add-mod n (2 ^ 64) (f t))
    ∙ ap (λ k. k % 2 ^ 64) (omega arith)

wrapped-fresh :
    (sum : Statistic → ℕ) (f : Trace → ℕ)
    → ((t : Trace) (s : Statistic) → sum (tally t s) ≡ (sum s + f t) % 2 ^ 64)
    → (t : Trace) (ts : List Trace) → sum (new_statistic t) ≡ 0 % 2 ^ 64
    → sum (tally_from ts (tally t (new_statistic t))) ≡ sum_of f (t ∷ ts) % 2 ^ 64
wrapped-fresh sum f step t ts z =
    wrapped-tally_from sum f step (t ∷ ts) (new_statistic t) 0 z
    ∙ ap (λ k. k % 2 ^ 64) (omega arith)

longest-tally_from :
    (ts : List Trace) (s : Statistic)
    → (s.max_duration ≤ℤ (tally_from ts s).max_duration)
      × All (λ t. t.duration ≤ℤ (tally_from ts s).max_duration) ts
unfolding tally
longest-tally_from [] s = (omega arith, tt)
longest-tally_from (t ∷ ts) s =
    let (up, rest) = longest-tally_from ts (tally t s) in
    (ground (arith, up), (ground (arith, up), rest))

least-tally_from :
    (ts : List Trace) (s : Statistic) (b : ℤ)
    → s.max_duration ≤ℤ b
    → All (λ t. t.duration ≤ℤ b) ts
    → (tally_from ts s).max_duration ≤ℤ b
unfolding tally
least-tally_from [] s b h k = h
least-tally_from (t ∷ ts) s b h (k, ks) = least-tally_from ts (tally t s) b (ground arith) ks

named-tally_from :
    (ts : List Trace) (s : Statistic)
    → (tally_from ts s).host ++ (0 ∷ (tally_from ts s).name) ≡ s.host ++ (0 ∷ s.name)
unfolding tally
named-tally_from [] s = refl
named-tally_from (t ∷ ts) s = named-tally_from ts (tally t s)

of_group_cases :
    (key : Text) (ts : List Trace)
    → (of_group key ts ≡ [])
      ⊎ ((t : Trace) × (us : List Trace) × (of_group key ts ≡ t ∷ us) × (key_of t ≡ key))
unfolding of_group
of_group_cases key [] = inl refl
of_group_cases key (t ∷ ts) = elim (Bool-cases (text_eq (key_of t) key)) [
  | inl y ↦ inr (t, of_group key ts, rw y refl, text_eq_sound (key_of t) key y)
  | inr n ↦ rw n (of_group_cases key ts)
]

tallied :
    (key : Text) (t : Trace) (ts : List Trace)
    → key_of t ≡ key
    → IsTally key (t ∷ ts) (tally_from ts (tally t (new_statistic t)))
unfolding tally
tallied key t ts e =
    let s = new_statistic t in
    record {
      label = named-tally_from ts (tally t s) ∙ e;
      count = count-tally_from (t ∷ ts) s ∙ omega arith;
      errors = errors-tally_from (t ∷ ts) s ∙ omega arith;
      total_duration = total_duration-tally_from (t ∷ ts) s ∙ grind int_laws;
      longest = (longest-tally_from (t ∷ ts) s).1;
      least = least-tally_from (t ∷ ts) s;
      response_bytes =
          wrapped-fresh (λ s. s.total_response_bytes) response_bytes_of (λ t s. refl) t ts refl;
      allocated =
          wrapped-fresh (λ s. s.total_allocated) (λ t. t.memory.allocated_bytes) (λ t s. refl) t ts
            refl;
      spans = wrapped-fresh (λ s. s.total_spans) (λ t. length t.spans) (λ t s. refl) t ts refl;
    }

-- After the loop over the window, each key either has no trace and no group, or a group whose name
-- and host make up the key, and whose count, failures, total and longest duration are those of the
-- window's traces with that key, with the sums of response bytes, allocated bytes and spans modulo
-- 2^64.
pub lookup-IsTally :
    (window : List Trace) (key : Text)
    → ((of_group key window ≡ []) × (lookup key (group_all window []) ≡ none))
      ⊎ ((s : Statistic) × (lookup key (group_all window []) ≡ some s)
          × IsTally key (of_group key window) s)
unfolding lookup
lookup-IsTally window key =
    let found = lookup-group_all key window [] in
    elim (of_group_cases key window) [
      | inl e ↦ inl (e, found ∙ ap (λ ts. tally_all ts none) e)
      | inr (t, us, e, k) ↦ inr (
        tally_from us (tally t (new_statistic t)),
        found ∙ ap (λ ts. tally_all ts none) e,
        subst (λ ts. IsTally key ts (tally_from us (tally t (new_statistic t)))) (sym e)
            (tallied key t us k),
      )
    ]
