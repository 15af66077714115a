-- ===== src/Model/Options/Defaults.antt =====
-- Defaults are applied once: the front end applies them again to what a tracer runs with.
use oida.Prelude.{
  if◌then◌else◌, Text, bytes, text_eq, cut_suffix, ℕ, ◌≡◌, refl, sym, ap, ap₂, ◌∙◌, subst, false,
  Option, none, some, List, [],
}
use oida.Model.Options.{
  Numerals, Options, default_path, trimmed_path, with_defaults, default_ignores,
}

abbrev or_default : Option (List Text) → Option (List Text)
or_default none = some default_ignores
or_default (some ps) = some ps

abbrev or_now : ℕ → Option ℕ → Option ℕ
or_now now none = some now
or_now now (some c) = some c

module _ (p : Numerals) (Storage : Type 0) where
  given :
      (path : Text)
      → text_eq path [] ≡ false
      → (if text_eq path [] then default_path else path) ≡ path
  given path n = rw n refl

  trimmed_path-id :
      (path : Text)
      → text_eq path [] ≡ false
      → cut_suffix (bytes "/") path ≡ none
      → trimmed_path p Storage path ≡ path
  trimmed_path-id path n e =
      subst
        (λ g.
          (elim (cut_suffix (bytes "/") g) as (λ x. Text) [ none ↦ g | some rest ↦ rest ]) ≡ path)
        (sym (given path n)) (rw e refl)

  default_ignores-once :
      (ps : Option (List Text))
      → (elim (or_default ps) [ none ↦ some default_ignores | some qs ↦ some qs ]) ≡ or_default ps
  default_ignores-once none = refl
  default_ignores-once (some ps) = refl

  clock_once :
      (now later : ℕ) (c : Option ℕ)
      → (elim (or_now now c) [ none ↦ some later | some d ↦ some d ]) ≡ or_now now c
  clock_once now later none = refl
  clock_once now later (some c) = refl

  -- Applying the defaults to options that have them changes nothing, whatever the clock, where the
  -- path is not empty and does not end with a slash.
  with_defaults-with_defaults :
      (now later : ℕ) (o : Options p Storage)
      → text_eq (with_defaults p Storage now o).path [] ≡ false
      → cut_suffix (bytes "/") (with_defaults p Storage now o).path ≡ none
      → with_defaults p Storage later (with_defaults p Storage now o)
        ≡ with_defaults p Storage now o
  unfolding with_defaults
  with_defaults-with_defaults now later o n e =
      let w = with_defaults p Storage now o in
      ap
        (λ path. record w {
          path = path;
          ignore_paths = elim w.ignore_paths [ none ↦ some default_ignores | some ps ↦ some ps ];
          clock = elim w.clock [ none ↦ some later | some c ↦ some c ];
        })
        (trimmed_path-id w.path n e)
      ∙ ap₂ (λ ignores clock. record w { ignore_paths = ignores; clock = clock })
          (default_ignores-once o.ignore_paths) (clock_once now later o.clock)
