-- ===== src/AppConfig/Loaded.antt =====
-- src/model/app_config.cpp, AppConfigStore: what load leaves in the store and in the file.
use factory_test.Common.{
  true, false, Bool-cases, Option-cases, inl, inr, ℕ, is_empty, Option, some, ◌≡◌, refl, arith,
}
use factory_test.Json.{Json, null, bool, number, string, array, object}
use factory_test.Serialization.{ParseResult, success}
use factory_test.Files.Rules.{Result-cases}
use factory_test.AppConfig.Types.{ConfigHost, defaults, k_schema_version}
use factory_test.AppConfig.Atomic.{State, write_atomic}
use factory_test.AppConfig.Reading.{
  is_member, is_supported_in, object_member, integer_value, read_config,
}
use factory_test.AppConfig.Store.{
  AppConfigStore, no_notes, config_text, save, saved_or_noted, load_value, load_document,
  load_parsed, load_from, load,
}
use factory_test.AppConfig.Validity.{
  IsConfig, DoubleLaws, integer_value-in_range, read_config-IsConfig,
}

pub defaults-IsConfig : IsConfig defaults
unfolding is_member is_supported_in
defaults-IsConfig = record {
  ui = record { language = refl; volume = omega arith };
  network = record { host = refl; port_low = omega arith; port_high = omega arith };
  rate = refl;
  logging = record {
    level = refl;
    segment = omega arith;
    order = omega arith;
    directory = omega arith;
  };
  station = refl;
  version = refl;
}

module _ (h : ConfigHost) where
  save-config : (store : AppConfigStore) (s : State h) → (save h store s).1.config ≡ store.config
  unfolding save
  save-config store s = elim (Bool-cases (is_empty store.path)) [
    | inl e ↦ rw (e, save) refl
    | inr e ↦ elim (Result-cases (write_atomic h store.path (config_text h store.config) s).0) [
      | inl (a, f) ↦ rw (e, f, save) refl
      | inr (message, f) ↦ rw (e, f, save) refl
    ]
  ]

  pub saved_or_noted-config :
      (store : AppConfigStore) (s : State h) → (saved_or_noted h store s).1.config ≡ store.config
  unfolding saved_or_noted
  saved_or_noted-config store s = elim (Bool-cases (save h store s).0) [
    | inl e ↦ rw (e, saved_or_noted) (save-config store s)
    | inr e ↦ rw (e, saved_or_noted) (save-config store s)
  ]

  module _ (laws : DoubleLaws h) where
    pub version-is :
        (o : Option (Json h.Double)) (version : ℕ)
        → integer_value h o k_schema_version k_schema_version ≡ some version
        → version ≡ k_schema_version
    version-is o version e =
        let (low, high) =
          integer_value-in_range h laws o k_schema_version k_schema_version version (omega arith)
            e in
        omega (arith, low, high)

    load_document-IsConfig :
        (store : AppConfigStore) (document : Json h.Double) (s : State h)
        → IsConfig store.config
        → IsConfig (load_document h store document s).1.config
    unfolding load_document
    load_document-IsConfig store document s valid =
        elim (Option-cases (
          integer_value h (object_member h (some document) "schema_version") k_schema_version
            k_schema_version)) [
              | inl e ↦ rw (e, load_document) valid
              | inr (version, e) ↦
                  let right = version-is _ version e in
                  let read = read_config-IsConfig h laws document version no_notes right in
                  elim (Bool-cases (read_config h document version no_notes).1.corrected) [
                    | inr same ↦ rw (e, same, load_document) read
                    | inl changed ↦ rw (e, changed, load_document, saved_or_noted-config _ s) read
                  ]
            ]

    load_value-IsConfig :
        (store : AppConfigStore) (value : Json h.Double) (s : State h)
        → IsConfig store.config
        → IsConfig (load_value h store value s).1.config
    unfolding load_value
    load_value-IsConfig store (object fields) s valid =
        load_document-IsConfig store (object fields) s valid
    load_value-IsConfig store null s valid = valid
    load_value-IsConfig store (bool _) s valid = valid
    load_value-IsConfig store (number _) s valid = valid
    load_value-IsConfig store (string _) s valid = valid
    load_value-IsConfig store (array _) s valid = valid

    load_parsed-IsConfig :
        (store : AppConfigStore) (parsed : ParseResult h.Double) (s : State h)
        → IsConfig store.config
        → IsConfig (load_parsed h store parsed s).1.config
    unfolding load_parsed
    load_parsed-IsConfig store parsed s valid = elim (Bool-cases (success parsed)) [
      | inr e ↦ rw (e, load_parsed) valid
      | inl e ↦ rw (e, load_parsed) (load_value-IsConfig store parsed.value s valid)
    ]

    -- With DoubleLaws: whatever load is given and answers, the configuration is a valid one after it.
    pub load-IsConfig : (store : AppConfigStore) (s : State h) → IsConfig (load h store s).1.config
    unfolding load_from
    load-IsConfig store s = elim (Bool-cases (is_empty store.path)) [
      | inl e ↦ rw (e, load_from) defaults-IsConfig
      | inr e ↦ elim (Result-cases (h.exists s.1 store.path)) [
        | inr (message, f) ↦ rw (e, f, load_from) defaults-IsConfig
        | inl (true, f) ↦ rw (e, f, load_from) (load_parsed-IsConfig _ _ s defaults-IsConfig)
        | inl (false, f) ↦ rw (e, f, load_from, saved_or_noted-config _ s) defaults-IsConfig
      ]
    ]
