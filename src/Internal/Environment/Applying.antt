-- ===== src/Internal/Environment/Applying.antt =====
-- The drivers, the users and the options that the environment sets, internal/options_from_env.go.
-- On an error the options are of no use, so only the error is left.
use oida.Prelude.{
  if◌then◌else◌, ℤ, pos, pos_part, ltb_ℤ, Text, bytes, text_eq, Map, cut, ℕ, ◌⊎◌, inl, inr, Bool,
  true, false, not, ◌||◌, Option, none, some, List, [], ◌∷◌,
}
use oida.Model.Data.{GoError, Trace}
use oida.Model.Options.{
  Numerals, OptionError, invalid_option, other, default_path, default_ignores, int_eq, is_set,
  Options,
}
use oida.Storage.Results.{Failure, Result, ok, fail}
use oida.Storage.Memory.{Memory, new_memory_storage}
use oida.Storage.Disk.{Document, Disk, System, new_disk_storage, prune, restore}
use oida.Internal.Environment.Variables.{
  ◌>>=◌, texts_eq, env_value, env_bool, env_int, env_duration_field, env_duration, env_text,
  env_rate, env_list,
}

-- The retention driver of the options: a kind of its own, or one of the package's.
pub data Driver : Type 0 where
  own_driver : ℕ → Driver
  memory_driver : Memory → Driver
  disk_driver : Disk → Driver

-- What lies outside of the package: bcrypt, the folders that NewDiskStorage opens (the default one
-- for `none`), and what the disk storage takes.
pub record Surroundings : Type 0 where
  pub generate_hash : Text → GoError ⊎ Text
  pub open_folder : Option Text → GoError ⊎ Map Document
  pub os : System
  pub answers : ℕ → ℕ → ℕ
  pub sorted : List Text → List Text
  pub decode : Text → GoError ⊎ Trace
  pub error_of : Failure → GoError

-- Building the drivers and the users.
module _ (p : Numerals) (env : Text → Text) (outside : Surroundings) where
  abbrev driver_result : Result (Unit {0}) × Disk → OptionError ⊎ Disk
  driver_result (ok u, d) = inr d
  driver_result (fail e, d) = inl (other (outside.error_of e))

  open_disk : ℤ → Text → OptionError ⊎ Disk
  unfolding text_eq new_disk_storage
  open_disk limit path = elim (outside.open_folder (if text_eq path [] then none else some path)) [
    | inl e ↦ inl (other e)
    | inr folder ↦ inr (new_disk_storage limit folder)
  ]

  disk_from_env : ℤ → OptionError ⊎ Option Driver
  unfolding env_int env_bool env_duration open_disk prune restore
  disk_from_env ring = do
    limit ← env_int p env (bytes "OIDA_STORAGE_DISK_LIMIT") ring ring
    list ← env_bool p env (bytes "OIDA_STORAGE_DISK_LIST") false false
    expire ← env_duration p env (bytes "OIDA_STORAGE_DISK_EXPIRE")
    store ← open_disk limit (env_value p env (bytes "OIDA_STORAGE_DISK_PATH"))
    pruned ←
        (if ltb_ℤ (pos 0) expire
          then driver_result (prune none outside.os (pos_part expire) store)
          else inr store)
    read_back ←
        (if list
          then driver_result
              (restore outside.sorted outside.decode outside.os outside.answers pruned)
          else inr pruned)
    inr (some (disk_driver read_back))

  unfoldable pub memory_from_env : ℤ → OptionError ⊎ Option Driver
  unfolding env_int new_memory_storage
  memory_from_env ring = do
    size ← env_int p env (bytes "OIDA_STORAGE_MEMORY_SIZE") ring ring
    if int_eq size ring then inr none else inr (some (memory_driver (new_memory_storage size)))

  -- One of the settings of the disk driver is given.
  abbrev disk_set : Bool
  disk_set =
      not (text_eq (env_value p env (bytes "OIDA_STORAGE_DISK_PATH")) [])
      || not (text_eq (env_value p env (bytes "OIDA_STORAGE_DISK_LIMIT")) [])
      || not (text_eq (env_value p env (bytes "OIDA_STORAGE_DISK_LIST")) [])
      || not (text_eq (env_value p env (bytes "OIDA_STORAGE_DISK_EXPIRE")) [])

  unfoldable pub storage_from_env : ℤ → Option Driver → OptionError ⊎ Option Driver
  unfolding text_eq memory_from_env disk_from_env
  storage_from_env ring (some s) = inr (some s)
  storage_from_env ring none =
      let name = bytes "OIDA_STORAGE_DRIVER" in
      let driver = env_value p env name in
      if text_eq driver []
      then (if disk_set then disk_from_env ring else memory_from_env ring)
      else if text_eq driver (bytes "memory")
      then (if disk_set
          then inl
              (invalid_option name (bytes "the memory driver has no OIDA_STORAGE_DISK_ settings"))
          else memory_from_env ring)
      else if text_eq driver (bytes "disk")
      then disk_from_env ring
      else inl (invalid_option name (bytes "must be memory or disk"))

  unfoldable pub auth_from_env :
      Option (Map Text) → Text → Option ℕ → OptionError ⊎ Option (Map Text)
  unfolding text_eq cut
  auth_from_env users users_file authorize_user =
      let name = bytes "OIDA_AUTH" in
      let credentials = env_value p env name in
      let wrong = invalid_option name (bytes "must be username:password") in
      if text_eq credentials []
        || is_set users
        || not (text_eq users_file [])
        || is_set authorize_user
      then inr users
      else elim (cut b':' credentials) [
        | none ↦ inl wrong
        | some (username, password) ↦
            if text_eq username [] || text_eq password []
            then inl wrong
            else elim (outside.generate_hash password) [
              | inl e ↦ inl (other e)
              | inr hash ↦ inr (some ((username, hash) ∷ []))
            ]
      ]

  unfoldable pub options_from_env : Options p Driver → OptionError ⊎ Options p Driver
  unfolding env_text env_bool env_int env_duration_field env_rate env_list texts_eq storage_from_env
      auth_from_env
  options_from_env o =
      let users_file = env_text p env (bytes "OIDA_USERS_FILE") o.users_file [] in
      do
        enabled ← env_bool p env (bytes "OIDA_ENABLED") o.enabled false
        track_memory_use ← env_bool p env (bytes "OIDA_TRACK_MEMORY_USE") o.track_memory_use true
        trust_request_id ← env_bool p env (bytes "OIDA_TRUST_REQUEST_ID") o.trust_request_id false
        live_stream ← env_bool p env (bytes "OIDA_LIVE_STREAM") o.live_stream true
        capture_logs ← env_bool p env (bytes "OIDA_CAPTURE_LOGS") o.capture_logs true
        ring ← env_int p env (bytes "OIDA_RING_BUFFER_SIZE") o.ring_buffer_size (pos 200)
        top ← env_int p env (bytes "OIDA_TOP_REQUESTS") o.top_requests (pos 20)
        spans ← env_int p env (bytes "OIDA_MAX_SPANS_PER_TRACE") o.max_spans_per_trace (pos 1000)
        refresh ← env_int p env (bytes "OIDA_REFRESH_INTERVAL") o.refresh_interval (pos 5)
        shortest ←
            env_duration_field p env (bytes "OIDA_DEBUG_SPAN_MIN_DURATION")
              o.debug_span_min_duration (pos 1000)
        rate ← env_rate p env o.sample_rate
        storage ← storage_from_env ring o.storage
        users ← auth_from_env o.users users_file o.authorize_user
        inr (record o {
          service_name = env_text p env (bytes "OIDA_SERVICE_NAME") o.service_name [];
          path = env_text p env (bytes "OIDA_PATH") o.path default_path;
          users_file = users_file;
          signing_secret = env_text p env (bytes "OIDA_SIGNING_SECRET") o.signing_secret [];
          enabled = enabled;
          track_memory_use = track_memory_use;
          trust_request_id = trust_request_id;
          live_stream = live_stream;
          capture_logs = capture_logs;
          ring_buffer_size = ring;
          top_requests = top;
          max_spans_per_trace = spans;
          refresh_interval = refresh;
          debug_span_min_duration = shortest;
          sample_rate = rate;
          ignore_paths =
              env_list p env (bytes "OIDA_IGNORE_PATHS") o.ignore_paths
                (elim o.ignore_paths [ none ↦ false | some ps ↦ texts_eq ps default_ignores ]);
          allowed_networks =
              env_list p env (bytes "OIDA_ALLOWED_NETWORKS") o.allowed_networks
                (not (is_set o.allowed_networks));
          storage = storage;
          users = users;
        })
