-- ===== src/Frontend/Listing/Filtering.antt =====
-- Which traces Filter of frontend/view/filter.go keeps.
use mathlib.Core.Bool.{true≢false}
use oida.Prelude.{
  if◌then◌else◌, Bool-cases, if-split, keep, Text, bytes, text_eq, text_eq_sound, text_eq_iff, ◌≡◌,
  refl, sym, ap, ◌∙◌, subst, ◌≢◌, ◌↔◌, ◌⊎◌, inl, inr, Bool, true, false, not, ◌&&◌, ◌||◌, List, [],
  ◌∷◌, arith,
}
use oida.Model.Data.{Value, Span, Trace, span_list}
use oida.Model.State.{State, error, is_error}
use oida.Model.Recording.{contains, kinds_from, kinds, has_kind}
use oida.Model.Statistics.Tallies.{trace_host}
use oida.Model.Statistics.Stable.{keep_all}
use oida.Frontend.Page.{Page}
use oida.Frontend.Listing.{matches, passes, filter_each, filter}
use oida.Frontend.Listing.Matching.{
  Any, any_item, any_item_iff, searched_texts, HoldsText, matches_iff,
}

-- Splitting the loop's list of kinds seen so far from those that come.
member_kinds :
    (kind : Text) (seen : List Text) (ss : List Span)
    → (contains kind (kinds_from seen ss) || contains kind seen)
      ≡ (any_item (λ s. text_eq s.kind kind) ss || contains kind seen)
unfolding kinds_from contains
member_kinds kind seen [] = refl
member_kinds kind seen (s ∷ ss) =
    let old = member_kinds kind seen ss in
    let fresh = member_kinds kind (s.kind ∷ seen) ss in
    elim (Bool-cases (contains s.kind seen)) [
      | inl y ↦ rw y (ground (arith, text_eq_sound s.kind kind, sym y, same y))
      | inr n ↦ rw n (ground arith)
    ]
  where
    same : contains s.kind seen ≡ true → text_eq s.kind kind ≡ true → contains kind seen ≡ true
    same h e = subst (λ k. contains k seen ≡ true) (text_eq_sound s.kind kind e) h

has_kind_iff :
    (kind : Text) (t : Trace)
    → text_eq kind [] ≡ false
    → (has_kind kind t ≡ true) ↔ Any (λ s. s.kind ≡ kind) (span_list t)
unfolding has_kind kinds contains
has_kind_iff kind t e =
    let spans =
      any_item_iff (λ s. text_eq s.kind kind) (λ s. s.kind ≡ kind) (λ s. text_eq_iff s.kind kind)
        (span_list t) in
    let all = member_kinds kind [] (span_list t) in
    rw e (λ h. spans.0 (ground arith), λ m. let h = spans.1 m in ground arith)

is_error_iff : (s : State) → (is_error s ≡ true) ↔ (s ≡ error)
is_error_iff error = (λ _. refl, λ _. refl)
is_error_iff s = (λ h. absurd (true≢false (sym h)), λ e. ap is_error e)

-- What Filter asks of a trace.
pub record Passes (lower : Text → Text) (show : Value → Text) (p : Page) (t : Trace) : Type 0 where
  pub found : (p.query ≡ []) ⊎ Any (HoldsText lower show p.query) (searched_texts lower show t)
  pub of_kind : (p.kind ≡ []) ⊎ Any (λ s. s.kind ≡ p.kind) (span_list t)
  pub of_host : (p.host ≡ []) ⊎ (trace_host t ≡ p.host)
  pub of_status : (p.status ≢ bytes "error") ⊎ ((t.error_text ≢ []) ⊎ (t.state ≡ error))

all_tests :
    (m k of_kind h of_host s e failed : Bool)
    → (if not m
        then false
        else if not k && not of_kind
        then false
        else if not h && not of_host
        then false
        else not (s && e && not failed))
      ≡ (m && ((k || of_kind) && ((h || of_host) && (not s || (not e || failed)))))
all_tests m k of_kind h of_host s e failed = ground arith

four_tests :
    {a b c d : Bool}
    → (a && (b && (c && d))) ≡ true
    → (a ≡ true) × (b ≡ true) × (c ≡ true) × (d ≡ true)
four_tests h = ground arith

all_four :
    {a b c d : Bool} → a ≡ true → b ≡ true → c ≡ true → d ≡ true → (a && (b && (c && d))) ≡ true
all_four h i j k = ground arith

not_or_iff :
    (s t : Text) (b : Bool) {P : Type 0}
    → (b ≡ true) ↔ P
    → ((not (text_eq s t) || b) ≡ true) ↔ ((s ≢ t) ⊎ P)
not_or_iff s t b h = elim (Bool-cases (text_eq s t)) [
  | inl y ↦ (
    λ e. inr (h.0 (ground arith)),
    λ m. elim m [
      | inl ne ↦ absurd (ne (text_eq_sound s t y))
      | inr q ↦ let b = h.1 q in ground arith
    ],
  )
  | inr n ↦ (λ _. inl (λ e. true≢false (sym ((text_eq_iff s t).1 e) ∙ n)), λ _. rw n refl)
]

four_of :
    {a b c d : Bool} → (a && b && c && d) ≡ true → (a ≡ true) × (b ≡ true) × (c ≡ true) × (d ≡ true)
four_of h = ground arith

not_error : (s : Text) → (text_eq s [] || text_eq s (bytes "all")) ≡ true → s ≢ bytes "error"
unfolding text_eq
not_error s h e = true≢false (sym h ∙ rw e refl)

module _ (lower : Text → Text) (show : Value → Text) (p : Page) where
  abbrev empty : Text → Bool
  empty s = text_eq s []

  -- The tests of the loop, each with what lets a trace through.
  passes-tests :
      (t : Trace)
      → passes lower show p t ≡ (
          matches lower show t p.query
          && ((empty p.kind || has_kind p.kind t)
              && ((empty p.host || text_eq (trace_host t) p.host)
                  && (not (text_eq p.status (bytes "error"))
                      || (not (empty t.error_text) || is_error t.state)))))
  unfolding passes
  passes-tests t =
      all_tests (matches lower show t p.query) (empty p.kind) (has_kind p.kind t) (empty p.host)
        (text_eq (trace_host t) p.host) (text_eq p.status (bytes "error")) (empty t.error_text)
        (is_error t.state)

  or_empty :
      (s : Text) (b : Bool) {P : Type 0}
      → ((text_eq s [] ≡ false) → (b ≡ true) ↔ P)
      → ((empty s || b) ≡ true) ↔ ((s ≡ []) ⊎ P)
  or_empty s b h = elim (Bool-cases (text_eq s [])) [
    | inl y ↦ (λ _. inl (text_eq_sound s [] y), λ _. rw y refl)
    | inr n ↦ (
      λ e. inr ((h n).0 (ground arith)),
      λ m. elim m [
        | inl e ↦ absurd (true≢false (sym ((text_eq_iff s []).1 e) ∙ n))
        | inr q ↦ let b = (h n).1 q in ground arith
      ],
    )
  ]

  failed_iff :
      (t : Trace)
      → ((not (empty t.error_text) || is_error t.state) ≡ true)
        ↔ ((t.error_text ≢ []) ⊎ (t.state ≡ error))
  failed_iff t = not_or_iff t.error_text [] (is_error t.state) (is_error_iff t.state)

  pub passes_iff : (t : Trace) → (passes lower show p t ≡ true) ↔ Passes lower show p t
  passes_iff t =
      let search = matches_iff lower show t p.query in
      let kind = or_empty p.kind (has_kind p.kind t) (has_kind_iff p.kind t) in
      let host =
        or_empty p.host (text_eq (trace_host t) p.host) (λ _. text_eq_iff (trace_host t) p.host) in
      let status =
        not_or_iff p.status (bytes "error") (not (empty t.error_text) || is_error t.state)
          (failed_iff t) in
      (
        λ h.
            let (a, b, c, d) = four_tests (sym (passes-tests t) ∙ h) in
            record {
              found = search.0 a;
              of_kind = kind.0 b;
              of_host = host.0 c;
              of_status = status.0 d;
            },
        λ f.
            passes-tests t
            ∙ all_four (search.1 f.found) (kind.1 f.of_kind) (host.1 f.of_host)
                (status.1 f.of_status),
      )

  filter_each-keep : (ts : List Trace) → filter_each lower show p ts ≡ keep (passes lower show p) ts
  unfolding filter_each
  filter_each-keep [] = refl
  filter_each-keep (t ∷ ts) =
      ap (λ r. if passes lower show p t then t ∷ r else r) (filter_each-keep ts)

  -- Without a filter every trace passes.
  unfiltered :
      (empty p.query
          && empty p.kind
          && empty p.host
          && (empty p.status || text_eq p.status (bytes "all")))
        ≡ true
      → (t : Trace) → passes lower show p t ≡ true
  unfiltered y t =
      let (q, k, h, s) = four_of y in
      (passes_iff t).1 (record {
        found = inl (text_eq_sound p.query [] q);
        of_kind = inl (text_eq_sound p.kind [] k);
        of_host = inl (text_eq_sound p.host [] h);
        of_status = inl (not_error p.status s);
      })

  -- Filter keeps, in their order, exactly the traces that meet what Passes asks: the query is
  -- empty or stands, whatever the case, in a text of the trace, of its request, of its attributes
  -- or of its spans; some span has the kind, if one is given; the host is the one given; and the
  -- trace failed, if only failures are asked for.
  pub filter-Passes :
      (ts : List Trace)
      → (filter lower show ts p ≡ keep (passes lower show p) ts)
        × ((t : Trace) → (passes lower show p t ≡ true) ↔ Passes lower show p t)
  unfolding filter
  filter-Passes ts = (
    if-split (λ r. r ≡ keep (passes lower show p) ts)
        (empty p.query
          && empty p.kind
          && empty p.host
          && (empty p.status || text_eq p.status (bytes "all")))
        (λ y. sym (keep_all (unfiltered y) ts)) (λ n. filter_each-keep ts),
    passes_iff,
  )
