-- ===== src/Frontend/Page/Choices.antt =====
-- What NewPage of frontend/view/page.go chooses of a request: only what the front end offers.
use mathlib.Core.Bool.{true≢false}
use oida.Prelude.{
  Bool-cases, Option-cases, if-split, ℤ, pos, Text, bytes, text_eq, text_eq_sound, text_eq_iff, ◌≡◌,
  refl, sym, ◌∙◌, inl, inr, Bool, not, ◌||◌, List, [], ◌∷◌, arith,
}
use oida.Model.Options.{Numerals, Options, int_eq, int_eq_iff}
use oida.Tracer.Snapshots.{Snapshot}
use oida.Frontend.Page.{
  Urls, View, PageRequest, sort_age, sort_duration, sort_spans, sort_allocated, sort_keys,
  first_limit, limit_options, Page, requested_limit, requested_sort, requested_status, new_page,
  OneOf, offered_limit, offered_sort,
}

-- What a reader chose on the list.
pub record Filters : Type 0 where
  pub limit : ℤ
  pub query : Text
  pub kind : Text
  pub host : Text
  pub status : Text
  pub sort : Text
  pub ascending : Bool

abbrev pub filters : Page → Filters
filters p = record {
  limit = p.limit;
  query = p.query;
  kind = p.kind;
  host = p.host;
  status = p.status;
  sort = p.sort;
  ascending = p.ascending;
}

-- The choices that NewPage makes: offered limits, statuses and columns, and texts without space
-- around them.
pub record IsUsable (u : Urls) (f : Filters) : Type 0 where
  pub limit_offered : OneOf f.limit limit_options
  pub status_offered : OneOf f.status (bytes "error" ∷ bytes "all" ∷ [])
  pub sort_offered : OneOf f.sort sort_keys
  pub query_trimmed : u.trim f.query ≡ f.query
  pub kind_trimmed : u.trim f.kind ≡ f.kind
  pub host_trimmed : u.trim f.host ≡ f.host

offered_limit-offered :
    (value : ℤ) (options : List ℤ) → OneOf value options → offered_limit value options ≡ value
unfolding offered_limit
offered_limit-offered value [] m = absurd m
offered_limit-offered value (o ∷ os) m =
    if-split (λ r. r ≡ value) (int_eq o value) (λ y. refl)
      (λ n. elim m [
        | inl e ↦ absurd (true≢false (sym ((int_eq_iff o value).1 (sym e)) ∙ n))
        | inr m' ↦ offered_limit-offered value os m'
      ])

OneOf-offered_limit :
    (value : ℤ) (options : List ℤ) → OneOf (offered_limit value options) (first_limit ∷ options)
unfolding offered_limit
OneOf-offered_limit value [] = inl refl
OneOf-offered_limit value (o ∷ os) =
    if-split (λ r. OneOf r (first_limit ∷ o ∷ os)) (int_eq o value)
      (λ y. inr (inl (sym ((int_eq_iff o value).0 y))))
      (λ n. elim (OneOf-offered_limit value os) [ inl e ↦ inl e | inr m ↦ inr (inr m) ])

offered_sort-offered :
    (value : Text) (keys : List Text) → OneOf value keys → offered_sort value keys ≡ value
unfolding offered_sort
offered_sort-offered value [] m = absurd m
offered_sort-offered value (o ∷ os) m =
    if-split (λ r. r ≡ value) (text_eq o value) (λ y. text_eq_sound o value y)
      (λ n. elim m [
        | inl e ↦ absurd (true≢false (sym ((text_eq_iff o value).1 (sym e)) ∙ n))
        | inr m' ↦ offered_sort-offered value os m'
      ])

OneOf-offered_sort :
    (value : Text) (keys : List Text) → OneOf (offered_sort value keys) (sort_age ∷ keys)
unfolding offered_sort
OneOf-offered_sort value [] = inl refl
OneOf-offered_sort value (o ∷ os) =
    if-split (λ r. OneOf r (sort_age ∷ o ∷ os)) (text_eq o value) (λ y. inr (inl refl))
      (λ n. elim (OneOf-offered_sort value os) [ inl e ↦ inl e | inr m ↦ inr (inr m) ])

OneOf-first : {A : Type 0} (a x : A) (xs : List A) → OneOf a (x ∷ x ∷ xs) → OneOf a (x ∷ xs)
OneOf-first a x xs (inl e) = inl e
OneOf-first a x xs (inr m) = m

module _ (u : Urls) (r : PageRequest) where
  limit-OneOf : OneOf (requested_limit u r) limit_options
  unfolding requested_limit
  limit-OneOf = elim (Option-cases (u.atoi (r.query (bytes "limit")))) [
    | inl e ↦ rw (requested_limit, e) (inl refl)
    | inr (v, e) ↦
        rw (requested_limit, e)
          (OneOf-first (offered_limit v limit_options) first_limit (pos 50 ∷ pos 100 ∷ pos 200 ∷ [])
            (OneOf-offered_limit v limit_options))
  ]

  sort-OneOf : OneOf (requested_sort r) sort_keys
  unfolding requested_sort
  sort-OneOf =
      OneOf-first (offered_sort (r.query (bytes "sort")) sort_keys) sort_age
        (sort_duration ∷ sort_spans ∷ sort_allocated ∷ [])
        (OneOf-offered_sort (r.query (bytes "sort")) sort_keys)

  status-OneOf : OneOf (requested_status r) (bytes "error" ∷ bytes "all" ∷ [])
  unfolding requested_status
  status-OneOf =
      let v = r.query (bytes "status") in
      if-split (λ s. OneOf s (bytes "error" ∷ bytes "all" ∷ []))
        (text_eq v (bytes "error") || text_eq v (bytes "all"))
        (λ y. elim (Bool-cases (text_eq v (bytes "error"))) [
          | inl e ↦ inl (text_eq_sound v _ e)
          | inr n ↦ inr (inl (text_eq_sound v _ (ground arith)))
        ])
        (λ n. inr (inl refl))

  -- Whatever a request asks for, the page made of it has an offered limit, status and column, and
  -- a query, a kind and a host without space around them.
  pub new_page-IsUsable :
      {n : Numerals} {S : Type 0} (opts : Options n S) (snapshot : Snapshot) (name : View)
      → IsUsable u (filters (new_page u opts snapshot name r))
  unfolding new_page
  new_page-IsUsable opts snapshot name = record {
    limit_offered = limit-OneOf;
    status_offered = status-OneOf;
    sort_offered = sort-OneOf;
    query_trimmed = u.trim-trim _;
    kind_trimmed =
        if-split (λ k. u.trim k ≡ k) (not (text_eq (u.trim (r.query (bytes "kind"))) []))
          (λ y. u.trim-trim _) (λ n. u.trim-empty);
    host_trimmed = u.trim-trim _;
  }
