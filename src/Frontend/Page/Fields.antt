-- ===== src/Frontend/Page/Fields.antt =====
-- The controls and the texts of a page, the remaining methods of frontend/view/page.go that compute
-- no drawing, and SelectField of frontend/view/model.go.
use mathlib.Core.Bool.{true≢false}
use oida.Prelude.{
  ◌==◌, if◌then◌else◌, if-split, ℤ, pos, ◌+ℤ◌, Text, bytes, text_eq, text_eq_sound, text_eq_iff,
  ◌≡◌, refl, sym, ap, ◌∙◌, ◌⊎◌, inl, inr, Bool, not, Option, none, some, List, [], ◌∷◌, ◌++◌, map,
}
use oida.Frontend.Page.{Urls, limit_options, Page, OneOf}
use oida.Frontend.Page.Choices.{filters, IsUsable}
use oida.Frontend.Requests.{asset_prefix}

record SelectOption : Type 0 where
  pub value : Text
  pub label : Text
  pub note : Text

record SelectField : Type 0 where
  pub id : Text
  pub name : Text
  pub label : Text
  pub value : Text
  pub options : List SelectOption

unfoldable is_selected : SelectField → SelectOption → Bool
unfolding text_eq
is_selected f o = text_eq o.value f.value

-- The loop of Selected.
abbrev label_of : Text → List SelectOption → Option Text
label_of value [] = none
label_of value (o ∷ os) = if text_eq o.value value then some o.label else label_of value os

-- The label found, or that of the first option.
abbrev chosen_label : List SelectOption → Option Text → Text
chosen_label options (some l) = l
chosen_label [] none = []
chosen_label (o ∷ os) none = o.label

selected : SelectField → Text
selected f = chosen_label f.options (label_of f.value f.options)

abbrev list_kinds : List Text
list_kinds =
    bytes "http"
    ∷ bytes "database"
    ∷ bytes "external"
    ∷ bytes "template"
    ∷ bytes "cache"
    ∷ bytes "queue"
    ∷ bytes "internal"
    ∷ []

kind_field : Page → SelectField
kind_field p = record {
  id = bytes "oida-kind";
  name = bytes "kind";
  label = bytes "Kind";
  value = p.kind;
  options =
      record { value = []; label = bytes "every kind"; note = [] }
      ∷ map (λ k. record { value = k; label = k; note = [] }) list_kinds;
}

status_field : Page → SelectField
status_field p = record {
  id = bytes "oida-status";
  name = bytes "status";
  label = bytes "Status";
  value = p.status;
  options =
      record { value = bytes "all"; label = bytes "every status"; note = [] }
      ∷ record { value = bytes "error"; label = bytes "failed only"; note = [] }
      ∷ [];
}

rows_field : Urls → Page → SelectField
rows_field u p = record {
  id = bytes "oida-limit";
  name = bytes "limit";
  label = bytes "Rows";
  value = u.itoa p.limit;
  options =
      map (λ limit. record { value = u.itoa limit; label = u.itoa limit; note = bytes "rows" })
        limit_options;
}

unfoldable fields : Urls → Page → List SelectField
unfolding kind_field status_field rows_field
fields u p = kind_field p ∷ status_field p ∷ rows_field u p ∷ []

unfoldable sort_class : Page → Text → Text
unfolding text_eq
sort_class p key =
    if not (text_eq p.sort key)
    then bytes "sort"
    else if p.ascending
    then bytes "sort active asc"
    else bytes "sort active desc"

unfoldable domain : Page → Text
unfolding text_eq
domain p = if not (text_eq p.host []) then p.host else bytes "all hosts"

unfoldable filtered : Page → Bool
unfolding text_eq
filtered p = not (text_eq p.host [])

unfoldable traces_path : Page → Text
traces_path p = p.path ++ bytes "/traces"

unfoldable asset_url : Page → Text → Text
asset_url p name = p.path ++ asset_prefix ++ name

unfoldable events_url : Page → Text
events_url p = p.path ++ bytes "/live/events"

unfoldable login_path : Page → Text
login_path p = p.path ++ bytes "/login"

unfoldable pub service : Page → Text
unfolding text_eq
service p = if text_eq p.snapshot.service [] then bytes "unnamed service" else p.snapshot.service

-- A time of zero is the zero time.
unfoldable pub now : Page → ℤ
now p = if p.snapshot.started_at == 0 then pos 0 else pos p.snapshot.started_at +ℤ p.snapshot.uptime

abbrev limit_option : Urls → ℤ → SelectOption
limit_option u limit = record { value = u.itoa limit; label = u.itoa limit; note = bytes "rows" }

label_of-limits :
    (u : Urls) (limit : ℤ) (limits : List ℤ)
    → OneOf limit limits
    → label_of (u.itoa limit) (map (limit_option u) limits) ≡ some (u.itoa limit)
label_of-limits u limit [] m = absurd m
label_of-limits u limit (l ∷ ls) m =
    if-split (λ (o : Option Text). o ≡ some (u.itoa limit)) (text_eq (u.itoa l) (u.itoa limit))
      (λ y. ap some (text_eq_sound (u.itoa l) (u.itoa limit) y))
      (λ n. elim m [
        | inl e ↦
            absurd
              (true≢false (sym ((text_eq_iff (u.itoa l) (u.itoa limit)).1 (ap u.itoa (sym e))) ∙ n))
        | inr m' ↦ label_of-limits u limit ls m'
      ])

status_label :
    (p : Page)
    → OneOf p.status (bytes "error" ∷ bytes "all" ∷ [])
    → ((p.status ≡ bytes "error") × (selected (status_field p) ≡ bytes "failed only"))
      ⊎ ((p.status ≡ bytes "all") × (selected (status_field p) ≡ bytes "every status"))
unfolding selected status_field text_eq
status_label p (inl e) = inl (e, rw e refl)
status_label p (inr (inl e)) = inr (e, rw e refl)
status_label p (inr (inr x)) = absurd x

-- The closed controls of a usable page name its limit and its status.
selected-Usable :
    (u : Urls) (p : Page)
    → IsUsable u (filters p)
    → (selected (rows_field u p) ≡ u.itoa p.limit)
      × (((p.status ≡ bytes "error") × (selected (status_field p) ≡ bytes "failed only"))
          ⊎ ((p.status ≡ bytes "all") × (selected (status_field p) ≡ bytes "every status")))
unfolding selected rows_field
selected-Usable u p f = (
  ap (chosen_label (rows_field u p).options)
      (label_of-limits u p.limit limit_options f.limit_offered),
  status_label p f.status_offered,
)
