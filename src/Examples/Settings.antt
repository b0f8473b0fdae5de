-- ===== src/Examples/Settings.antt =====
-- The configuration saved on, and loaded from, a concrete system.
use factory_test.Common.{true, [], ◌∷◌, none, some, ◌≡◌, refl, subst}
use factory_test.Files.{check, require}
use factory_test.Serialization.{pretty_output_value, spaces, escape_string, output_value_to_string}
use factory_test.AppConfig.Types.{defaults}
use factory_test.AppConfig.Atomic.{
  State, write_atomic, write_temporary, fill, write_all, replace, sync_directory,
}
use factory_test.AppConfig.Store.{AppConfigStore, save, saved_or_noted, load_from, load}
use factory_test.AppConfig.Validity.{IsConfig}
use factory_test.AppConfig.Loaded.{defaults-IsConfig, load-IsConfig}
use factory_test.AppConfig.Replaced.{Replaced, write_atomic-Replaced}
use factory_test.AppConfig.Saved.{Parses, clean, load-save}
use factory_test.AppConfig.Again.{declared_version, load-settled, load-left_alone}
use factory_test.Examples.ConfigDisk.{host, host-parses, doubles, laws}

abbrev store : AppConfigStore
store = clean "config.json" defaults

abbrev empty : State host
empty = (0, [])

-- A file with the text "{}".
abbrev strange : State host
strange = (0, ("config.json", some (123 ∷ 125 ∷ [])) ∷ [])

saved : (save host store empty).0 ≡ true
unfolding save write_atomic check write_temporary fill write_all pretty_output_value spaces
    escape_string output_value_to_string replace require sync_directory
saved = refl

load-IsConfig_example : IsConfig (load host store strange).1.config
load-IsConfig_example = load-IsConfig host doubles store strange

write_atomic-Replaced_example :
    Replaced host "config.json"
      (some (123 ∷ 125 ∷ []))
      (65 ∷ [])
      (write_atomic host "config.json" (65 ∷ []) strange)
write_atomic-Replaced_example = write_atomic-Replaced host laws "config.json" (65 ∷ []) strange

load-save_example :
    load host store (save host store empty).2
    ≡ (true, clean "config.json" defaults, (save host store empty).2)
load-save_example =
    load-save host doubles laws store store empty defaults-IsConfig host-parses refl saved

created : (load host store empty).0 ≡ true
unfolding load_from saved_or_noted save write_atomic check write_temporary fill write_all
    pretty_output_value spaces escape_string output_value_to_string replace require sync_directory
created = refl

created_config : defaults ≡ (load host store empty).1.config
unfolding load_from saved_or_noted save write_atomic check write_temporary fill write_all
    pretty_output_value spaces escape_string output_value_to_string replace require sync_directory
created_config = refl

load-settled_example :
    ((load host store (load host store empty).2).1.config ≡ (load host store empty).1.config)
    × ((load host store (load host store empty).2).2 ≡ (load host store empty).2)
load-settled_example =
    load-settled host doubles laws store store empty refl created
      (subst (λ c. Parses host c) created_config host-parses)

undeclared : declared_version host (123 ∷ 125 ∷ []) ≡ none
unfolding declared_version pretty_output_value
undeclared = refl

load-left_alone_example :
    ((load host store strange).0 ≡ true)
    × ((load host store strange).1.config ≡ defaults)
    × ((load host store strange).2 ≡ strange)
load-left_alone_example =
    load-left_alone host store (123 ∷ 125 ∷ []) strange refl refl refl undeclared
