-- ===== src/Internal/Environment/Variables.antt =====
-- Reading one variable, internal/options_from_env.go.
use oida.Prelude.{
  ltb, if◌then◌else◌, length, ℤ, pos, leb_ℤ, Text, bytes, text_eq, split, ◌⊎◌, inl, inr, Bool, true,
  false, not, ◌&&◌, Option, none, some, List, [], ◌∷◌,
}
use oida.Model.Options.{Numerals, OptionError, invalid_option, int_eq, negative}

infixl 5 ◌>>=◌
abbrev pub ◌>>=◌ : {A B : Type 0} → OptionError ⊎ A → (A → OptionError ⊎ B) → OptionError ⊎ B
inl e >>= f = inl e
inr a >>= f = f a

abbrev pub bool_eq : Bool → Bool → Bool
bool_eq true b = b
bool_eq false b = not b

unfoldable pub texts_eq : List Text → List Text → Bool
unfolding text_eq
texts_eq [] [] = true
texts_eq (s ∷ ss) (t ∷ ts) = let rest = texts_eq ss ts in text_eq s t && rest
texts_eq _ _ = false

-- `env` is os.Getenv, which answers the empty text for a variable that is not set.
module _ (p : Numerals) (env : Text → Text) where
  abbrev pub env_value : Text → Text
  env_value name = p.trim (env name)

  -- The variable is set, and the field has its default.
  abbrev applies : Text → Bool → Bool
  applies name at_default = not (text_eq (env_value name) []) && at_default

  unfoldable pub env_bool : Text → Bool → Bool → OptionError ⊎ Bool
  unfolding text_eq
  env_bool name field unset =
      if not (applies name (bool_eq field unset))
      then inr field
      else elim (p.parse_bool (env_value name)) [
        | none ↦ inl (invalid_option name (bytes "must be true or false"))
        | some b ↦ inr b
      ]

  unfoldable pub env_int : Text → ℤ → ℤ → OptionError ⊎ ℤ
  unfolding text_eq
  env_int name field unset =
      if not (applies name (int_eq field unset))
      then inr field
      else elim (p.parse_int (env_value name)) [
        | none ↦ inl (invalid_option name (bytes "must be an integer"))
        | some n ↦ inr n
      ]

  unfoldable pub env_duration_field : Text → ℤ → ℤ → OptionError ⊎ ℤ
  unfolding text_eq
  env_duration_field name field unset =
      if not (applies name (int_eq field unset))
      then inr field
      else elim (p.parse_duration (env_value name)) [
        | none ↦ inl (invalid_option name (bytes "must be a duration, such as 1ms"))
        | some n ↦
            if negative n then inl (invalid_option name (bytes "must not be negative")) else inr n
      ]

  -- Zero for a variable that is not set.
  unfoldable pub env_duration : Text → OptionError ⊎ ℤ
  unfolding text_eq
  env_duration name =
      if text_eq (env_value name) []
      then inr (pos 0)
      else elim (p.parse_duration (env_value name)) [
        | none ↦ inl (invalid_option name (bytes "must be a duration, such as 168h"))
        | some n ↦
            if leb_ℤ n (pos 0)
            then inl (invalid_option name (bytes "must be a positive duration"))
            else inr n
      ]

  unfoldable pub env_text : Text → Text → Text → Text
  unfolding text_eq
  env_text name field unset = if applies name (text_eq field unset) then env_value name else field

  -- `min(max(rate, 0), 100)`
  unfoldable pub clamped : p.Float → p.Float
  clamped rate =
      let raised = if p.lower_than rate p.zero_rate then p.zero_rate else rate in
      if p.lower_than p.full_rate raised then p.full_rate else raised

  unfoldable pub env_rate : p.Float → OptionError ⊎ p.Float
  unfolding text_eq clamped
  env_rate field =
      let name = bytes "OIDA_SAMPLE_RATE" in
      if not (applies name (p.equals field p.full_rate))
      then inr field
      else elim (p.parse_float (env_value name)) [
        | none ↦ inl (invalid_option name (bytes "must be a number"))
        | some rate ↦
            if p.is_nan rate
            then inl (invalid_option name (bytes "must be a number"))
            else inr (clamped rate)
      ]

  unfoldable pub keep_items : List Text → List Text
  unfolding text_eq
  keep_items [] = []
  keep_items (item ∷ items) =
      let rest = keep_items items in if text_eq (p.trim item) [] then rest else p.trim item ∷ rest

  unfoldable pub split_list : Text → List Text
  unfolding keep_items split
  split_list value = keep_items (split b',' value)

  -- A list applies when it has an item and the code left the default.
  unfoldable pub env_list : Text → Option (List Text) → Bool → Option (List Text)
  unfolding split_list
  env_list name field at_default =
      if ltb 0 (length (split_list (env_value name))) && at_default
      then some (split_list (env_value name))
      else field
