-- ===== src/AppConfig/Again.antt =====
-- src/model/app_config.cpp, AppConfigStore::load: a file that is not understood, and a second load.
use factory_test.Common.{
  Bool, true, false, not, Bool-cases, Option-cases, inl, inr, ℕ, String, is_empty, List, Option,
  none, some, if◌then◌else◌, ◌≡◌, refl, sym, ap, subst, ◌∙◌,
}
use factory_test.Json.{Json, null, bool, number, string, array, object}
use factory_test.Serialization.{success, parse_json_output, parse_json_file, output_value_from_json}
use factory_test.Files.{ok}
use factory_test.Files.Rules.{Result-cases}
use factory_test.AppConfig.Types.{ConfigHost, defaults, k_schema_version}
use factory_test.AppConfig.Atomic.{State}
use factory_test.AppConfig.Reading.{object_member, integer_value, read_config}
use factory_test.AppConfig.Store.{
  AppConfigStore, no_notes, save, saved_or_noted, load_value, load_document, load_parsed, load_from,
  load, refused, Outcome,
}
use factory_test.AppConfig.Validity.{IsConfig, DoubleLaws, read_config-IsConfig}
use factory_test.AppConfig.Replaced.{ConfigLaws}
use factory_test.AppConfig.Loaded.{saved_or_noted-config, version-is, defaults-IsConfig}
use factory_test.AppConfig.Saved.{Parses, clean, load-save}

-- How a load ends: without a change of anything else, or with the save of a valid configuration.
data Ending (h : ConfigHost) (path : String) (s : State h) : Outcome h → Type 0 where
  unchanged : {b : Bool} {store : AppConfigStore} → Ending h path s (b, store, s)
  saved :
      (store : AppConfigStore)
      → store.path ≡ path
      → IsConfig store.config
      → Ending h path s (saved_or_noted h store s)

module _ (h : ConfigHost) (doubles : DoubleLaws h) where
  load_document-Ending :
      (store : AppConfigStore) (document : Json h.Double) (s : State h)
      → Ending h store.path s (load_document h store document s)
  unfolding load_document
  load_document-Ending store document s =
      elim (Option-cases (
        integer_value h (object_member h (some document) "schema_version") k_schema_version
          k_schema_version)) [
            | inl e ↦ rw (e, load_document) unchanged
            | inr (version, e) ↦
                let right = version-is h doubles _ version e in
                let read = read_config-IsConfig h doubles document version no_notes right in
                elim (Bool-cases (read_config h document version no_notes).1.corrected) [
                  | inr same ↦ rw (e, same, load_document) unchanged
                  | inl changed ↦ rw (e, changed, load_document) (saved _ refl read)
                ]
          ]

  load_value-Ending :
      (store : AppConfigStore) (value : Json h.Double) (s : State h)
      → Ending h store.path s (load_value h store value s)
  unfolding load_value
  load_value-Ending store (object fields) s = load_document-Ending store (object fields) s
  load_value-Ending store null s = unchanged
  load_value-Ending store (bool _) s = unchanged
  load_value-Ending store (number _) s = unchanged
  load_value-Ending store (string _) s = unchanged
  load_value-Ending store (array _) s = unchanged

  load-Ending : (store : AppConfigStore) (s : State h) → Ending h store.path s (load h store s)
  unfolding load_from load_parsed
  load-Ending store s = elim (Bool-cases (is_empty store.path)) [
    | inl e ↦ rw (e, load_from) unchanged
    | inr e ↦ elim (Result-cases (h.exists s.1 store.path)) [
      | inr (message, f) ↦ rw (e, f, load_from) unchanged
      | inl (false, f) ↦ rw (e, f, load_from) (saved _ refl defaults-IsConfig)
      | inl (true, f) ↦
          let parsed = parse_json_file h.parse h.parse_error (h.contents s.1) store.path in
          elim (Bool-cases (success parsed)) [
            | inr g ↦ rw (e, f, load_from, g, load_parsed) unchanged
            | inl g ↦ rw (e, f, load_from, g, load_parsed) (load_value-Ending _ parsed.value s)
          ]
    ]
  ]

  saved_or_noted-true :
      (store : AppConfigStore) (s : State h)
      → (saved_or_noted h store s).0 ≡ true
      → ((save h store s).0 ≡ true) × ((saved_or_noted h store s).2 ≡ (save h store s).2)
  unfolding saved_or_noted
  saved_or_noted-true store s e = elim (Bool-cases (save h store s).0) [
    | inl f ↦ (f, rw (f, saved_or_noted) refl)
    | inr f ↦ absurd (let bad : false ≡ true = rw (f, saved_or_noted) at e in cc)
  ]

  Again : String → Outcome h → Type 0
  Again path outcome =
      (load_from h (clean path defaults) outcome.2).1.config ≡ outcome.1.config
      × (load_from h (clean path defaults) outcome.2).2 ≡ outcome.2

  module _ (laws : ConfigLaws h) where
    save-Again :
        (path : String) (store : AppConfigStore) (s : State h)
        → store.path ≡ path
        → IsConfig store.config
        → Parses h store.config
        → (save h store s).0 ≡ true
        → load_from h (clean path defaults) (save h store s).2
          ≡ (true, clean path store.config, (save h store s).2)
    save-Again path store s same valid parses good =
        load-save h doubles laws store (clean path defaults) s valid parses (sym same) good

    Ending-Again :
        (path : String) (s : State h) (o : Outcome h)
        → Ending h path s o
        → load_from h (clean path defaults) s ≡ o
        → o.0 ≡ true
        → Parses h o.1.config
        → Again path o
    unfolding Again
    Ending-Again path s _ unchanged e good parses = (ap (λ o. o.1.config) e, ap (λ o. o.2) e)
    Ending-Again path s _ (saved store same valid) e good parses =
        let config = saved_or_noted-config h store s in
        let (success, state) = saved_or_noted-true store s good in
        let again =
          save-Again path store s same valid (subst (λ c. Parses h c) config parses) success in
        rw state (ap (λ o. o.1.config) again ∙ sym config, ap (λ o. o.2) again)

    -- With ConfigLaws and DoubleLaws: after a load that answered true, loading a store with the same
    -- path again gives the same configuration and changes nothing, when cJSON reads the document of
    -- that configuration back from its text.
    pub load-settled :
        (store other : AppConfigStore) (s : State h)
        → other.path ≡ store.path
        → (load h store s).0 ≡ true
        → Parses h (load h store s).1.config
        → ((load h other (load h store s).2).1.config ≡ (load h store s).1.config)
          × ((load h other (load h store s).2).2 ≡ (load h store s).2)
    unfolding Again
    load-settled store other s same good parses =
        subst (λ p. Again p (load h store s)) (sym same)
          (Ending-Again store.path s (load h store s) (load-Ending store s) refl good parses)

module _ (h : ConfigHost) where
  -- The version that a text declares, if it is a document with a supported one.
  unfoldable pub declared_version : List ℕ → Option ℕ
  declared_version text = elim (h.parse text) [
    | none ↦ none
    | some root ↦
        integer_value h (object_member h (some (output_value_from_json root)) "schema_version")
          k_schema_version k_schema_version
  ]

  -- What is left alone: the answer is true, the defaults are used, and nothing else has changed.
  abbrev LeftAlone : State h → Outcome h → Type 0
  LeftAlone s o = (o.0 ≡ true) × (o.1.config ≡ defaults) × (o.2 ≡ s)

  load_value-LeftAlone :
      (store : AppConfigStore) (value : Json h.Double) (s : State h)
      → store.config ≡ defaults
      → integer_value h
          (object_member h (some value) "schema_version")
          k_schema_version
          k_schema_version
        ≡ none
      → LeftAlone s (load_value h store value s)
  unfolding load_value load_document
  load_value-LeftAlone store (object fields) s c e = rw (e, load_document) (refl, c, refl)
  load_value-LeftAlone store null s c e = (refl, c, refl)
  load_value-LeftAlone store (bool _) s c e = (refl, c, refl)
  load_value-LeftAlone store (number _) s c e = (refl, c, refl)
  load_value-LeftAlone store (string _) s c e = (refl, c, refl)
  load_value-LeftAlone store (array _) s c e = (refl, c, refl)

  parsed-LeftAlone :
      (store : AppConfigStore) (text : List ℕ) (s : State h)
      → store.config ≡ defaults
      → declared_version text ≡ none
      → LeftAlone s (load_parsed h store (parse_json_output h.parse h.parse_error text) s)
  unfolding load_parsed declared_version parse_json_output load_value
  parsed-LeftAlone store text s c e = elim (Option-cases (h.parse text)) [
    | inl f ↦ rw (f, parse_json_output) (unread (is_empty (h.parse_error text)))
    | inr (root, f) ↦
        rw (f, parse_json_output) (load_value-LeftAlone store _ s c (rw (f, declared_version) at e))
  ]
    where
      unread :
          (b : Bool)
          → LeftAlone s (
              if not b
              then (true, refused h store (h.parse_error text), s)
              else (true, refused h store "config root must be a JSON object", s))
      unread true = (refl, c, refl)
      unread false = (refl, c, refl)

  -- Of a file that can be inspected and read, and is no JSON object with the supported
  -- schema_version: load answers true with the default configuration, and neither the file nor
  -- anything else changes.
  pub load-left_alone :
      (store : AppConfigStore) (text : List ℕ) (s : State h)
      → is_empty store.path ≡ false
      → h.exists s.1 store.path ≡ ok true
      → h.contents s.1 store.path ≡ some text
      → declared_version text ≡ none
      → ((load h store s).0 ≡ true)
        × ((load h store s).1.config ≡ defaults)
        × ((load h store s).2 ≡ s)
  unfolding load_from parse_json_file
  load-left_alone store text s filled there e undeclared =
      rw (filled, there, load_from, e, parse_json_file) (parsed-LeftAlone _ text s refl undeclared)
