-- ===== src/Frontend/Listing/Matching.antt =====
-- What the search and the filters of the list let through, `matches` of frontend/view/funcs.go and
-- Filter of frontend/view/filter.go.
use mathlib.Core.Bool.{true≢false}
use mathlib.Core.List.{cons≢nil}
use oida.Prelude.{
  if◌then◌else◌, Bool-cases, Text, text_eq, text_eq_sound, text_eq_iff, Map, contains_text_sound,
  contains_text-append, ◌≡◌, refl, sym, ap, ap₂, ◌∙◌, ◌≢◌, ◌↔◌, ◌⊎◌, inl, inr, Bool, true, false,
  ◌||◌, Option, none, some, List, [], ◌∷◌, ◌++◌, arith,
}
use oida.Model.Recording.{made}
use oida.Model.Data.{Value, HttpInfo, Span, Trace, span_list}
use oida.Frontend.Listing.{attribute_text, contains, any_attribute, any_span, matches_http, matches}

-- Some item of a list satisfies a predicate.
abbrev pub Any : {A : Type 0} → (A → Type 0) → List A → Type 0
Any P [] = ⊥
Any P (x ∷ xs) = P x ⊎ Any P xs

abbrev pub any_item : {A : Type 0} → (A → Bool) → List A → Bool
any_item f [] = false
any_item f (x ∷ xs) = f x || any_item f xs

pub any_item_iff :
    {A : Type 0} (f : A → Bool) (P : A → Type 0)
    → ((a : A) → (f a ≡ true) ↔ P a)
    → (xs : List A) → (any_item f xs ≡ true) ↔ Any P xs
any_item_iff f P h [] = (λ e. absurd (true≢false (sym e)), λ x. absurd x)
any_item_iff f P h (x ∷ xs) =
    let ih = any_item_iff f P h xs in
    elim (Bool-cases (f x)) [
      | inl y ↦ (λ _. inl ((h x).0 y), λ _. rw y refl)
      | inr n ↦ (
        λ e. inr (ih.0 (ground arith)),
        λ s. elim s [ inl p ↦ absurd (true≢false (sym ((h x).1 p) ∙ n)) | inr m ↦ rw n (ih.1 m) ],
      )
    ]

any_item-append :
    {A : Type 0} (f : A → Bool) (xs ys : List A)
    → any_item f (xs ++ ys) ≡ (any_item f xs || any_item f ys)
any_item-append f [] ys = refl
any_item-append f (x ∷ xs) ys = ground (arith, any_item-append f xs ys)

any_branch :
    (a b c h m s : Bool)
    → (if (a || b || c) then true else if h then true else if m then true else s)
      ≡ (a || (b || (c || (h || (m || s)))))
any_branch a b c h m s = ground arith

or_false : (a b c d : Bool) → (a || b || c || d) ≡ (a || (b || (c || (d || false))))
or_false a b c d = ground arith

module _ (lower : Text → Text) (show : Value → Text) where
  -- The texts of a trace in which a person would look for a word.
  abbrev attribute_texts : Map Value → List Text
  attribute_texts [] = []
  attribute_texts ((key, value) ∷ more) = key ∷ attribute_text show value ∷ attribute_texts more

  abbrev span_texts : List Span → List Text
  span_texts [] = []
  span_texts (s ∷ more) =
      s.name
      ∷ s.kind
      ∷ s.error_text
      ∷ s.filename
      ∷ (attribute_texts (made s.attributes) ++ span_texts more)

  abbrev http_texts : Option HttpInfo → List Text
  http_texts none = []
  http_texts (some h) = h.uri ∷ h.route ∷ h.host ∷ h.remote_address ∷ []

  abbrev pub searched_texts : Trace → List Text
  searched_texts t =
      t.name
      ∷ t.id
      ∷ t.error_text
      ∷ (http_texts t.http ++ (attribute_texts (made t.attributes) ++ span_texts (span_list t)))

  -- A text in which the query stands, whatever the case of either.
  abbrev pub HoldsText : Text → Text → Type 0
  HoldsText query s = (s ≢ []) × (u : Text) × (v : Text) × (lower s ≡ u ++ (lower query ++ v))

  contains_iff : (query s : Text) → (contains lower show s (lower query) ≡ true) ↔ HoldsText query s
  unfolding contains text_eq
  contains_iff query [] = (λ e. absurd (true≢false (sym e)), λ h. absurd (h.0 refl))
  contains_iff query (c ∷ s) = (
    λ e.
        let (u, v, found) = contains_text_sound (lower query) (lower (c ∷ s)) e in
        (λ x. cons≢nil x, u, v, found),
    λ (ne, u, v, e). rw e (contains_text-append (lower query) u v),
  )

  any_attribute-texts :
      (query : Text) (m : Map Value)
      → any_attribute lower show m query
        ≡ any_item (λ s. contains lower show s query) (attribute_texts m)
  unfolding any_attribute
  any_attribute-texts query [] = refl
  any_attribute-texts query ((key, value) ∷ m) = ground (arith, any_attribute-texts query m)

  any_span-texts :
      (query : Text) (ss : List Span)
      → any_span lower show ss query ≡ any_item (λ s. contains lower show s query) (span_texts ss)
  unfolding any_span
  any_span-texts query [] = refl
  any_span-texts query (s ∷ ss) =
      let found = λ (t : Text). contains lower show t query in
      let own = attribute_texts (made s.attributes) in
      ground (
        arith,
        any_item-append found own (span_texts ss),
        any_span-texts query ss,
        any_attribute-texts query (made s.attributes),
      )

  abbrev matches_info : Text → Option HttpInfo → Bool
  matches_info query http = elim http [ none ↦ false | some h ↦ matches_http lower show h query ]

  matches_info-texts :
      (query : Text) (http : Option HttpInfo)
      → matches_info query http ≡ any_item (λ s. contains lower show s query) (http_texts http)
  unfolding matches_http
  matches_info-texts query none = refl
  matches_info-texts query (some h) =
      or_false (contains lower show h.uri query) (contains lower show h.route query)
        (contains lower show h.host query) (contains lower show h.remote_address query)

  matches-texts :
      (t : Trace) (query : Text)
      → text_eq query [] ≡ false
      → matches lower show t query
        ≡ any_item (λ s. contains lower show s (lower query)) (searched_texts t)
  unfolding matches
  matches-texts t query e =
      let found = λ (s : Text). contains lower show s (lower query) in
      let own = attribute_texts (made t.attributes) in
      let joined : any_item found (http_texts t.http ++ (own ++ span_texts (span_list t))) ≡ (
          any_item found (http_texts t.http)
          || (any_attribute lower show (made t.attributes) (lower query)
              || any_span lower show (span_list t) (lower query))) =
        any_item-append found (http_texts t.http) (own ++ span_texts (span_list t))
        ∙ ap (any_item found (http_texts t.http) ||◌) (
            any_item-append found own (span_texts (span_list t))
            ∙ ap₂ ◌||◌ (sym (any_attribute-texts (lower query) (made t.attributes)))
                (sym (any_span-texts (lower query) (span_list t)))) in
      rw e (
        any_branch (found t.name) (found t.id) (found t.error_text)
          (matches_info (lower query) t.http)
          (any_attribute lower show (made t.attributes) (lower query))
          (any_span lower show (span_list t) (lower query))
        ∙ ap (λ b. found t.name || (found t.id || (found t.error_text || b)))
            (ap
                (λ b.
                  b
                  || (any_attribute lower show (made t.attributes) (lower query)
                      || any_span lower show (span_list t) (lower query)))
                (matches_info-texts (lower query) t.http)
              ∙ sym joined))

  matches_empty : (t : Trace) → matches lower show t [] ≡ true
  unfolding matches text_eq
  matches_empty t = refl

  pub matches_iff :
      (t : Trace) (query : Text)
      → (matches lower show t query ≡ true)
        ↔ ((query ≡ []) ⊎ Any (HoldsText query) (searched_texts t))
  matches_iff t query =
      let texts =
        any_item_iff (λ s. contains lower show s (lower query)) (HoldsText query)
          (contains_iff query) (searched_texts t) in
      elim (Bool-cases (text_eq query [])) [
        | inl y ↦ (
          λ _. inl (text_eq_sound query [] y),
          λ _. rw (text_eq_sound query [] y) (matches_empty t),
        )
        | inr n ↦ (
          λ e. inr (texts.0 (sym (matches-texts t query n) ∙ e)),
          λ s. elim s [
            | inl q ↦ absurd (true≢false (sym ((text_eq_iff query []).1 q) ∙ n))
            | inr m ↦ matches-texts t query n ∙ texts.1 m
          ],
        )
      ]
