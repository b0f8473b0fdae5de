-- ===== src/AppConfig/Saved.antt =====
-- src/model/app_config.cpp, AppConfigStore: what is saved is what the next load finds.
use factory_test.Common.{
  true, false, Bool-cases, inl, inr, ℕ, String, is_empty, List, [], Option, some, ◌≡◌, refl, ap,
  ◌∙◌,
}
use factory_test.Serialization.{parse_json_output, parse_json_file}
use factory_test.Files.{Result, ok}
use factory_test.Files.Rules.{Result-cases}
use factory_test.AppConfig.Types.{AppConfig, ConfigHost, defaults}
use factory_test.AppConfig.Atomic.{State, write_atomic}
use factory_test.AppConfig.Store.{
  AppConfigStore, no_notes, config_to_output, config_text, save, load_value, load_document,
  load_parsed, load_from, load,
}
use factory_test.AppConfig.Validity.{IsConfig, DoubleLaws}
use factory_test.AppConfig.Kept.{
  config_to_output-from_json, schema_version-kept, read_config-config_to_output,
}
use factory_test.AppConfig.Replaced.{
  ConfigLaws, Replaced, written, kept, not_synced, write_atomic-Replaced,
}

-- cJSON reads the document back from its text.
abbrev pub Parses : (h : ConfigHost) → AppConfig → Type 0
Parses h config = h.parse (config_text h config) ≡ some (config_to_output h config)

abbrev pub clean : String → AppConfig → AppConfigStore
clean path config = record { path = path; config = config; last_error = ""; diagnostics = [] }

module _ (h : ConfigHost) where
  written-contents :
      (path : String) (old : Option (List ℕ)) (text : List ℕ) (r : Result (Unit {0}) × State h)
      {a : Unit {0}}
      → Replaced h path old text r
      → r.0 ≡ ok a
      → h.contents r.1.1 path ≡ some text
  written-contents path old text r (written e) f = e
  written-contents path old text r (kept e) f = absurd (cc)
  written-contents path old text r (not_synced e) f = absurd (cc)

  -- A save that answers true has a path, and has written the whole text.
  save-contents :
      (laws : ConfigLaws h) (store : AppConfigStore) (s : State h)
      → (save h store s).0 ≡ true
      → (is_empty store.path ≡ false)
        × (h.contents (save h store s).2.1 store.path ≡ some (config_text h store.config))
  unfolding save
  save-contents laws store s e = elim (Bool-cases (is_empty store.path)) [
    | inl f ↦ absurd (let bad : false ≡ true = rw (f, save) at e in cc)
    | inr f ↦ elim (Result-cases (write_atomic h store.path (config_text h store.config) s).0) [
      | inl (a, g) ↦ (
        f,
        rw (f, g, save)
            (written-contents store.path _ _ _ (write_atomic-Replaced h laws store.path _ s) g),
      )
      | inr (message, g) ↦ absurd (let bad : false ≡ true = rw (f, g, save) at e in cc)
    ]
  ]

  module _ (doubles : DoubleLaws h) (laws : ConfigLaws h) where
    load_document-kept :
        (path : String) (config : AppConfig) (s : State h)
        → IsConfig config
        → load_document h (clean path defaults) (config_to_output h config) s
          ≡ (true, clean path config, s)
    unfolding load_document
    load_document-kept path config s valid =
        rw
          (
            schema_version-kept h doubles config valid,
            read_config-config_to_output h doubles config no_notes valid,
            load_document,
          )
          refl

    parsed-text :
        (path : String) (config : AppConfig) (w : h.World)
        → Parses h config
        → h.contents w path ≡ some (config_text h config)
        → parse_json_file h.parse h.parse_error (h.contents w) path
          ≡ record { value = config_to_output h config; error_message = "" }
    unfolding parse_json_file parse_json_output
    parsed-text path config w parses e =
        rw
          (
            e,
            parse_json_file,
            parses,
            parse_json_output,
            config_to_output-from_json h doubles config,
          )
          refl

    -- The file of a valid configuration is loaded without a correction.
    load-text :
        (store : AppConfigStore) (config : AppConfig) (s : State h)
        → is_empty store.path ≡ false
        → IsConfig config
        → Parses h config
        → h.contents s.1 store.path ≡ some (config_text h config)
        → load h store s ≡ (true, clean store.path config, s)
    unfolding load_from load_parsed load_value
    load-text store config s filled valid parses e =
        rw
          (
            filled,
            laws.exists_contents s.1 store.path e,
            parsed-text store.path config s.1 parses e,
          )
          (load_document-kept store.path config s valid)

    -- With ConfigLaws and DoubleLaws: after a save of a valid configuration that answered true, a load
    -- of any store with the same path finds that configuration, notes nothing and changes nothing,
    -- when cJSON reads the document back from its text.
    pub load-save :
        (store other : AppConfigStore) (s : State h)
        → IsConfig store.config
        → Parses h store.config
        → other.path ≡ store.path
        → (save h store s).0 ≡ true
        → load h other (save h store s).2
          ≡ (true, clean other.path store.config, (save h store s).2)
    load-save store other s valid parses same saved =
        let (filled, text) = save-contents laws store s saved in
        load-text other store.config (save h store s).2 (ap (λ p. is_empty p) same ∙ filled) valid
          parses (ap (λ p. h.contents (save h store s).2.1 p) same ∙ text)
