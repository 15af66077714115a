-- ===== src/Internal/Environment/Precedence.antt =====
-- What code sets, the environment leaves.
use oida.Prelude.{
  Bool-cases, ℤ, pos, Text, text_eq, text_eq_sound, Map, ℕ, ◌≡◌, refl, sym, ap, ap₂, subst, ◌⊎◌,
  inl, inr, Bool, true, false, not, Option, none, some, List, [], ◌∷◌, arith,
}
use mathlib.Core.Bool.{true≢false}
use oida.Model.Options.{
  Numerals, OptionError, Options, default_path, default_ignores, int_eq, is_set, int_eq_iff,
}
use oida.Internal.Environment.Variables.{
  ◌>>=◌, bool_eq, texts_eq, env_bool, env_int, env_duration_field, env_text, env_rate, env_list,
}
use oida.Internal.Environment.Applying.{
  Driver, Surroundings, storage_from_env, auth_from_env, options_from_env,
}

inr-injective : {A : Type 0} {a b : A} → ◌≡◌ {A = OptionError ⊎ A} (inr a) (inr b) → a ≡ b
inr-injective {A} {a} {b} e =
    ap (λ (x : OptionError ⊎ A). elim x as (λ y. A) [ inl f ↦ a | inr c ↦ c ]) e

bind-inr :
    {A B : Type 0} (x : OptionError ⊎ A) (f : A → OptionError ⊎ B) (b : B)
    → (x >>= f) ≡ inr b
    → (a : A) × (x ≡ inr a) × (f a ≡ inr b)
bind-inr (inl e) f b q = cc
bind-inr (inr a) f b q = (a, refl, q)

bool_eq_sound : (a b : Bool) → bool_eq a b ≡ true → a ≡ b
bool_eq_sound true b e = sym e
bool_eq_sound false true e = e
bool_eq_sound false false e = refl

texts_eq_sound : (ss ts : List Text) → texts_eq ss ts ≡ true → ss ≡ ts
unfolding texts_eq
texts_eq_sound [] [] e = refl
texts_eq_sound [] (t ∷ ts) e = cc
texts_eq_sound (s ∷ ss) [] e = cc
texts_eq_sound (s ∷ ss) (t ∷ ts) e =
    ap₂ ◌∷◌ (text_eq_sound s t (ground arith)) (texts_eq_sound ss ts (ground arith))

module _ (p : Numerals) (env : Text → Text) where
  env_bool-Stays :
      (name : Text) (field unset after : Bool)
      → env_bool p env name field unset ≡ inr after
      → (after ≡ field) ⊎ (field ≡ unset)
  unfolding env_bool
  env_bool-Stays name field unset after e = elim (Bool-cases (bool_eq field unset)) [
    | inl y ↦ inr (bool_eq_sound field unset y)
    | inr n ↦ inl (ground arith)
  ]

  env_int-Stays :
      (name : Text) (field unset after : ℤ)
      → env_int p env name field unset ≡ inr after
      → (after ≡ field) ⊎ (field ≡ unset)
  unfolding env_int
  env_int-Stays name field unset after e = elim (Bool-cases (int_eq field unset)) [
    | inl y ↦ inr ((int_eq_iff field unset).0 y)
    | inr n ↦ inl (ground arith)
  ]

  env_duration_field-Stays :
      (name : Text) (field unset after : ℤ)
      → env_duration_field p env name field unset ≡ inr after
      → (after ≡ field) ⊎ (field ≡ unset)
  unfolding env_duration_field
  env_duration_field-Stays name field unset after e = elim (Bool-cases (int_eq field unset)) [
    | inl y ↦ inr ((int_eq_iff field unset).0 y)
    | inr n ↦ inl (ground arith)
  ]

  env_text-Stays :
      (name : Text) (field unset : Text)
      → (env_text p env name field unset ≡ field) ⊎ (field ≡ unset)
  unfolding env_text
  env_text-Stays name field unset = elim (Bool-cases (text_eq field unset)) [
    | inl y ↦ inr (text_eq_sound field unset y)
    | inr n ↦ inl (ground arith)
  ]

  env_list-Stays :
      (name : Text) (field : Option (List Text)) (at_default : Bool)
      → (env_list p env name field at_default ≡ field) ⊎ (at_default ≡ true)
  unfolding env_list
  env_list-Stays name field true = inr refl
  env_list-Stays name field false = inl (ground arith)

  ignores-Stays :
      (name : Text) (field : Option (List Text))
      → (env_list p env name field
            (elim field [ none ↦ false | some ps ↦ texts_eq ps default_ignores ])
          ≡ field)
        ⊎ (field ≡ some default_ignores)
  ignores-Stays name none = elim (env_list-Stays name none false) [
    | inl e ↦ inl e
    | inr e ↦ elim (true≢false (sym e)) [ ]
  ]
  ignores-Stays name (some ps) =
      elim (env_list-Stays name (some ps) (texts_eq ps default_ignores)) [
        | inl e ↦ inl e
        | inr e ↦ inr (ap some (texts_eq_sound ps default_ignores e))
      ]

  networks-Stays :
      (name : Text) (field : Option (List Text))
      → (env_list p env name field (not (is_set field)) ≡ field) ⊎ (field ≡ none)
  networks-Stays name none = inr refl
  networks-Stays name (some ns) = elim (env_list-Stays name (some ns) false) [
    | inl e ↦ inl e
    | inr e ↦ elim (true≢false (sym e)) [ ]
  ]

  env_rate-Stays :
      (field after : p.Float)
      → env_rate p env field ≡ inr after
      → (after ≡ field) ⊎ (p.equals field p.full_rate ≡ true)
  unfolding env_rate
  env_rate-Stays field after e = elim (Bool-cases (p.equals field p.full_rate)) [
    | inl y ↦ inr y
    | inr n ↦ inl (ground arith)
  ]

  -- What options set in code keep: each is as it was, or was at its default.
  pub record KeepsCode (before after : Options p Driver) : Type 0 where
    pub service_name : (after.service_name ≡ before.service_name) ⊎ (before.service_name ≡ [])
    pub path : (after.path ≡ before.path) ⊎ (before.path ≡ default_path)
    pub users_file : (after.users_file ≡ before.users_file) ⊎ (before.users_file ≡ [])
    pub signing_secret :
        (after.signing_secret ≡ before.signing_secret) ⊎ (before.signing_secret ≡ [])
    pub enabled : (after.enabled ≡ before.enabled) ⊎ (before.enabled ≡ false)
    pub track_memory_use :
        (after.track_memory_use ≡ before.track_memory_use) ⊎ (before.track_memory_use ≡ true)
    pub trust_request_id :
        (after.trust_request_id ≡ before.trust_request_id) ⊎ (before.trust_request_id ≡ false)
    pub live_stream : (after.live_stream ≡ before.live_stream) ⊎ (before.live_stream ≡ true)
    pub capture_logs : (after.capture_logs ≡ before.capture_logs) ⊎ (before.capture_logs ≡ true)
    pub ring_buffer_size :
        (after.ring_buffer_size ≡ before.ring_buffer_size) ⊎ (before.ring_buffer_size ≡ pos 200)
    pub top_requests : (after.top_requests ≡ before.top_requests) ⊎ (before.top_requests ≡ pos 20)
    pub max_spans_per_trace :
        (after.max_spans_per_trace ≡ before.max_spans_per_trace)
        ⊎ (before.max_spans_per_trace ≡ pos 1000)
    pub refresh_interval :
        (after.refresh_interval ≡ before.refresh_interval) ⊎ (before.refresh_interval ≡ pos 5)
    pub debug_span_min_duration :
        (after.debug_span_min_duration ≡ before.debug_span_min_duration)
        ⊎ (before.debug_span_min_duration ≡ pos 1000)
    pub sample_rate :
        (after.sample_rate ≡ before.sample_rate) ⊎ (p.equals before.sample_rate p.full_rate ≡ true)
    pub ignore_paths :
        (after.ignore_paths ≡ before.ignore_paths) ⊎ (before.ignore_paths ≡ some default_ignores)
    pub allowed_networks :
        (after.allowed_networks ≡ before.allowed_networks) ⊎ (before.allowed_networks ≡ none)
    pub storage : (after.storage ≡ before.storage) ⊎ (before.storage ≡ none)
    pub users : (after.users ≡ before.users) ⊎ (before.users ≡ none)
    pub functions :
        (after.sampler ≡ before.sampler)
        × (after.route_func ≡ before.route_func)
        × (after.on_error ≡ before.on_error)
        × (after.authorize ≡ before.authorize)
        × (after.clock ≡ before.clock)
        × (after.authorize_user ≡ before.authorize_user)

  module _ (outside : Surroundings) where
    storage_from_env-Stays :
        (ring : ℤ) (field after : Option Driver)
        → storage_from_env p env outside ring field ≡ inr after
        → (after ≡ field) ⊎ (field ≡ none)
    unfolding storage_from_env
    storage_from_env-Stays ring none after e = inr refl
    storage_from_env-Stays ring (some s) after e = inl (ground arith)

    auth_from_env-Stays :
        (field after : Option (Map Text)) (file : Text) (authorize : Option ℕ)
        → auth_from_env p env outside field file authorize ≡ inr after
        → (after ≡ field) ⊎ (field ≡ none)
    unfolding auth_from_env
    auth_from_env-Stays none after file authorize e = inr refl
    auth_from_env-Stays (some us) after file authorize e = inl (ground arith)

    -- When the environment is applied without an error, each option that it can set is as the code
    -- left it, or was at its default before (unset, for the storage, the users, the lists and the
    -- texts), and the functions in the options are as they were.
    pub options_from_env-KeepsCode :
        (o after : Options p Driver)
        → options_from_env p env outside o ≡ inr after
        → KeepsCode o after
    unfolding options_from_env
    options_from_env-KeepsCode o after e =
        let (enabled, p1, e) = bind-inr _ _ after e in
        let (memory, p2, e) = bind-inr _ _ after e in
        let (trusted, p3, e) = bind-inr _ _ after e in
        let (stream, p4, e) = bind-inr _ _ after e in
        let (logs, p5, e) = bind-inr _ _ after e in
        let (ring, p6, e) = bind-inr _ _ after e in
        let (top, p7, e) = bind-inr _ _ after e in
        let (spans, p8, e) = bind-inr _ _ after e in
        let (refresh, p9, e) = bind-inr _ _ after e in
        let (shortest, p10, e) = bind-inr _ _ after e in
        let (rate, p11, e) = bind-inr _ _ after e in
        let (store, p12, e) = bind-inr _ _ after e in
        let (us, p13, e) = bind-inr _ _ after e in
        subst (KeepsCode o) (inr-injective e) (record {
          service_name = env_text-Stays _ o.service_name [];
          path = env_text-Stays _ o.path default_path;
          users_file = env_text-Stays _ o.users_file [];
          signing_secret = env_text-Stays _ o.signing_secret [];
          enabled = env_bool-Stays _ o.enabled false enabled p1;
          track_memory_use = env_bool-Stays _ o.track_memory_use true memory p2;
          trust_request_id = env_bool-Stays _ o.trust_request_id false trusted p3;
          live_stream = env_bool-Stays _ o.live_stream true stream p4;
          capture_logs = env_bool-Stays _ o.capture_logs true logs p5;
          ring_buffer_size = env_int-Stays _ o.ring_buffer_size (pos 200) ring p6;
          top_requests = env_int-Stays _ o.top_requests (pos 20) top p7;
          max_spans_per_trace = env_int-Stays _ o.max_spans_per_trace (pos 1000) spans p8;
          refresh_interval = env_int-Stays _ o.refresh_interval (pos 5) refresh p9;
          debug_span_min_duration =
              env_duration_field-Stays _ o.debug_span_min_duration (pos 1000) shortest p10;
          sample_rate = env_rate-Stays o.sample_rate rate p11;
          ignore_paths = ignores-Stays _ o.ignore_paths;
          allowed_networks = networks-Stays _ o.allowed_networks;
          storage = storage_from_env-Stays ring o.storage store p12;
          users = auth_from_env-Stays o.users us _ o.authorize_user p13;
          functions = (refl, refl, refl, refl, refl, refl);
        })
