-- ===== src/Internal/Environment/Unset.antt =====
-- An environment without the variables changes nothing.
use oida.Prelude.{
  ℤ, pos, Text, bytes, text_eq, Map, split, ℕ, ◌≡◌, refl, ap, ◌∙◌, ◌⊎◌, inr, Bool, true, false, not,
  Option, none, some, List, [],
}
use oida.Model.Options.{
  Numerals, OptionError, Options, default_path, default_ignores, is_set, int_eq_iff,
}
use oida.Internal.Environment.Variables.{
  ◌>>=◌, texts_eq, env_bool, env_int, env_duration_field, env_text, env_rate, keep_items,
  split_list, env_list,
}
use oida.Internal.Environment.Applying.{
  Driver, Surroundings, memory_from_env, storage_from_env, auth_from_env, options_from_env,
}

bind-step :
    {A B : Type 0} {x : OptionError ⊎ A} {a : A} (f : A → OptionError ⊎ B) {c : OptionError ⊎ B}
    → x ≡ inr a
    → f a ≡ c
    → (x >>= f) ≡ c
bind-step f e q = ap (◌>>= f) e ∙ q

module _ (p : Numerals) (env : Text → Text)
    (unset_all : (name : Text) → p.trim (env name) ≡ []) where
  env_bool-unset : (name : Text) (field unset : Bool) → env_bool p env name field unset ≡ inr field
  unfolding env_bool text_eq
  env_bool-unset name field unset = rw (unset_all name) refl

  env_int-unset : (name : Text) (field unset : ℤ) → env_int p env name field unset ≡ inr field
  unfolding env_int text_eq
  env_int-unset name field unset = rw (unset_all name) refl

  env_duration_field-unset :
      (name : Text) (field unset : ℤ) → env_duration_field p env name field unset ≡ inr field
  unfolding env_duration_field text_eq
  env_duration_field-unset name field unset = rw (unset_all name) refl

  env_text-unset : (name field unset : Text) → env_text p env name field unset ≡ field
  unfolding env_text text_eq
  env_text-unset name field unset = rw (unset_all name) refl

  env_rate-unset : (field : p.Float) → env_rate p env field ≡ inr field
  unfolding env_rate text_eq
  env_rate-unset field = rw (unset_all (bytes "OIDA_SAMPLE_RATE")) refl

  env_list-unset :
      (name : Text) (field : Option (List Text)) (at_default : Bool)
      → env_list p env name field at_default ≡ field
  unfolding env_list split_list keep_items split text_eq
  env_list-unset name field at_default = rw (unset_all name, p.trim-empty) refl

  storage_from_env-unset :
      (outside : Surroundings) (ring : ℤ) (field : Option Driver)
      → storage_from_env p env outside ring field ≡ inr field
  unfolding storage_from_env memory_from_env text_eq
  storage_from_env-unset outside ring (some s) = refl
  storage_from_env-unset outside ring none =
      rw
        (
          unset_all (bytes "OIDA_STORAGE_DRIVER"),
          unset_all (bytes "OIDA_STORAGE_DISK_PATH"),
          unset_all (bytes "OIDA_STORAGE_DISK_LIMIT"),
          unset_all (bytes "OIDA_STORAGE_DISK_LIST"),
          unset_all (bytes "OIDA_STORAGE_DISK_EXPIRE"),
        )
        (rw (env_int-unset (bytes "OIDA_STORAGE_MEMORY_SIZE") ring ring)
          (rw ((int_eq_iff ring ring).1 refl) refl))

  auth_from_env-unset :
      (outside : Surroundings) (field : Option (Map Text)) (file : Text) (authorize : Option ℕ)
      → auth_from_env p env outside field file authorize ≡ inr field
  unfolding auth_from_env text_eq
  auth_from_env-unset outside field file authorize = rw (unset_all (bytes "OIDA_AUTH")) refl

  -- An environment in which every variable trims to nothing changes no option and gives no error.
  options_from_env-unset :
      (outside : Surroundings) (o : Options p Driver) → options_from_env p env outside o ≡ inr o
  unfolding options_from_env
  options_from_env-unset outside o =
      bind-step _ (env_bool-unset (bytes "OIDA_ENABLED") o.enabled false) (
        bind-step _ (env_bool-unset (bytes "OIDA_TRACK_MEMORY_USE") o.track_memory_use true) (
          bind-step _ (env_bool-unset (bytes "OIDA_TRUST_REQUEST_ID") o.trust_request_id false) (
            bind-step _ (env_bool-unset (bytes "OIDA_LIVE_STREAM") o.live_stream true) (
              bind-step _ (env_bool-unset (bytes "OIDA_CAPTURE_LOGS") o.capture_logs true) (
                bind-step _
                  (env_int-unset (bytes "OIDA_RING_BUFFER_SIZE") o.ring_buffer_size (pos 200))
                  (bind-step _ (env_int-unset (bytes "OIDA_TOP_REQUESTS") o.top_requests (pos 20)) (
                    bind-step _
                      (env_int-unset (bytes "OIDA_MAX_SPANS_PER_TRACE") o.max_spans_per_trace
                        (pos 1000))
                      (bind-step _
                        (env_int-unset (bytes "OIDA_REFRESH_INTERVAL") o.refresh_interval (pos 5))
                        (bind-step _
                          (env_duration_field-unset (bytes "OIDA_DEBUG_SPAN_MIN_DURATION")
                            o.debug_span_min_duration (pos 1000))
                          (bind-step _ (env_rate-unset o.sample_rate) (
                            bind-step _
                              (storage_from_env-unset outside o.ring_buffer_size o.storage)
                              (bind-step _ (auth_from_env-unset outside o.users _ o.authorize_user)
                                (ap inr (λ i. record o {
                                  service_name =
                                      env_text-unset (bytes "OIDA_SERVICE_NAME") o.service_name []
                                        i;
                                  path = env_text-unset (bytes "OIDA_PATH") o.path default_path i;
                                  users_file =
                                      env_text-unset (bytes "OIDA_USERS_FILE") o.users_file [] i;
                                  signing_secret =
                                      env_text-unset (bytes "OIDA_SIGNING_SECRET") o.signing_secret
                                        [] i;
                                  ignore_paths =
                                      env_list-unset (bytes "OIDA_IGNORE_PATHS") o.ignore_paths
                                        (elim o.ignore_paths [
                                          | none ↦ false
                                          | some ps ↦ texts_eq ps default_ignores
                                        ])
                                        i;
                                  allowed_networks =
                                      env_list-unset (bytes "OIDA_ALLOWED_NETWORKS")
                                        o.allowed_networks (not (is_set o.allowed_networks)) i;
                                }))))))))))))))
