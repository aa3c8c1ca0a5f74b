-- ===== src/Configuration.antt =====
-- The configuration of a deployment: internal/deploy/configuration.go. The type of a value that the
-- source calls `any` is a parameter; sets of names are lists.
pub mod Names
pub mod Selection
pub mod Patch
pub mod Permission
use exasol_personal.Common.{
  ℕ, ◌≡◌, Bool, true, false, not, ◌&&◌, ◌||◌, Option, none, some, List, [], ◌∷◌, map, Bytes,
  bytes_eq, bytes_key, trim_space, lookup, put, contains, insert_text, keep, ◌==◌, if◌then◌else◌,
}

-- `ConfigVariableType`; `untyped` is its zero value
pub data VariableType : Type 0 where
  untyped string_type bool_type number_type : VariableType

pub record ConfigValue (Any : Type 0) : Type 0 where
  pub name : Bytes
  pub type : VariableType
  pub value : Any
  pub default : Any
  pub raw_value : Bytes
  pub raw_default : Bytes

pub record PresetIdentityInfo : Type 0 where
  pub selector : Bytes
  pub kind : Bytes
  pub name : Bytes
  pub path : Bytes
  pub display_name : Bytes
  pub description : Bytes

pub record ConfigurationSection (Any : Type 0) : Type 0 where
  pub identity : PresetIdentityInfo
  pub options : List (ConfigValue Any)

-- `DeploymentConfiguration`; the command that applies it is set when all is done
pub record Configuration (Any : Type 0) : Type 0 where
  pub infrastructure : ConfigurationSection Any
  pub installation : ConfigurationSection Any

pub data ConfigurationError : Type 0 where
  unknown_option : Bytes → ConfigurationError
  no_selection all_and_names : ConfigurationError

pub data Outcome (A : Type 0) : Type 0 where
  refused : ConfigurationError → Outcome A
  configured : A → Outcome A

-- `strings.ReplaceAll`, of one character by another
unfoldable pub replace_all : ℕ → ℕ → Bytes → Bytes
replace_all a b [] = []
replace_all a b (c ∷ s) = (if c == a then b else c) ∷ replace_all a b s

-- `normalizeConfigOptionName`
unfoldable pub normalize_option_name : Bytes → Bytes
unfolding trim_space replace_all
normalize_option_name name = replace_all b'-' b'_' (trim_space name)

unfoldable pub validate_reset_selection : List Bytes → Bool → Option ConfigurationError
validate_reset_selection [] true = none
validate_reset_selection [] false = some no_selection
validate_reset_selection (n ∷ ns) true = some all_and_names
validate_reset_selection (n ∷ ns) false = none

module _ {Any : Type 0} where
  -- `DisplayName`
  unfoldable pub display_name : ConfigValue Any → Bytes
  unfolding replace_all
  display_name v = replace_all b'_' b'-' v.name

  unfoldable pub filter_values : List Bytes → List (ConfigValue Any) → List (ConfigValue Any)
  unfolding normalize_option_name contains
  filter_values selected values =
      keep (λ v. contains selected (normalize_option_name v.name)) values

  -- `configurationValuesContainOption`
  unfoldable pub values_contain : List (ConfigValue Any) → Bytes → Bool
  unfolding normalize_option_name
  values_contain [] n = false
  values_contain (v ∷ vs) n = bytes_eq (normalize_option_name v.name) n || values_contain vs n

  -- `configurationContainsOption`
  unfoldable pub contains_option : Configuration Any → Bytes → Bool
  unfolding values_contain normalize_option_name
  contains_option c name =
      values_contain c.infrastructure.options (normalize_option_name name)
      || values_contain c.installation.options (normalize_option_name name)

  -- the first name that the configuration does not contain
  unfoldable pub first_unknown : Configuration Any → List Bytes → Option Bytes
  unfolding contains_option
  first_unknown c [] = none
  first_unknown c (n ∷ ns) =
      let rest = first_unknown c ns in if contains_option c n then rest else some n

  abbrev pub or_unknown : Option Bytes → Configuration Any → Outcome (Configuration Any)
  or_unknown none c = configured c
  or_unknown (some n) c = refused (unknown_option n)

  abbrev pub with_options :
      (List (ConfigValue Any) → List (ConfigValue Any)) → Configuration Any → Configuration Any
  with_options f c = record {
    infrastructure = record c.infrastructure { options = f c.infrastructure.options };
    installation = record c.installation { options = f c.installation.options };
  }

  -- `filterDeploymentConfiguration`
  unfoldable pub filter_configuration : Configuration Any → List Bytes → Outcome (Configuration Any)
  unfolding filter_values first_unknown normalize_option_name
  filter_configuration c [] = configured c
  filter_configuration c (n ∷ ns) =
      let filtered = with_options (filter_values (map normalize_option_name (n ∷ ns))) c in
      or_unknown (first_unknown filtered (n ∷ ns)) filtered

  abbrev pub reset_value : ConfigValue Any → ConfigValue Any
  reset_value v = record v { raw_value = v.raw_default; value = v.default }

  -- `resetSelectedConfigurationValues`: the values, and the names found so far
  unfoldable pub reset_selected_values :
      List Bytes → List (ConfigValue Any) → List Bytes → List (ConfigValue Any) × List Bytes
  unfolding normalize_option_name contains
  reset_selected_values selected [] found = ([], found)
  reset_selected_values selected (v ∷ vs) found =
      let n = normalize_option_name v.name in
      let skip = reset_selected_values selected vs found in
      let reset = reset_selected_values selected vs (n ∷ found) in
      if contains selected n then (reset_value v ∷ reset.0, reset.1) else (v ∷ skip.0, skip.1)

  -- `resetAllConfigurationValues`
  unfoldable pub reset_all_values : List (ConfigValue Any) → List (ConfigValue Any)
  reset_all_values vs = map reset_value vs

-- the selected names that were not found, sorted
unfoldable pub missing_names : List Bytes → List Bytes → List Bytes
unfolding contains insert_text
missing_names found [] = []
missing_names found (n ∷ ns) =
    let rest = missing_names found ns in if contains found n then rest else insert_text n rest

abbrev pub or_missing : {A : Type 0} → List Bytes → A → Outcome A
or_missing [] c = configured c
or_missing (n ∷ ns) c = refused (unknown_option n)

module _ {Any : Type 0} where
  -- `resetSelectedDeploymentConfiguration`
  unfoldable pub reset_selected : Configuration Any → List Bytes → Outcome (Configuration Any)
  unfolding reset_selected_values missing_names normalize_option_name
  reset_selected c names =
      let selected = map normalize_option_name names in
      let (infra, found) = reset_selected_values selected c.infrastructure.options [] in
      let (install, found') = reset_selected_values selected c.installation.options found in
      or_missing (missing_names found' selected) (record {
        infrastructure = record c.infrastructure { options = infra };
        installation = record c.installation { options = install };
      })

  -- `applyConfigurationReset`
  unfoldable pub apply_reset : Configuration Any → List Bytes → Bool → Outcome (Configuration Any)
  unfolding reset_all_values reset_selected
  apply_reset c names true = configured (with_options reset_all_values c)
  apply_reset c names false = reset_selected c names

  -- the loop over the values of `patchConfigurationValues`; `no_value` is nil
  unfoldable pub patch_value : Any → Bytes → Bytes → List (ConfigValue Any) → List (ConfigValue Any)
  patch_value no_value name raw [] =
      record {
        name = name;
        type = untyped;
        value = no_value;
        default = no_value;
        raw_value = raw;
        raw_default = [];
      }
      ∷ []
  patch_value no_value name raw (v ∷ vs) =
      let rest = patch_value no_value name raw vs in
      if bytes_eq v.name name then record v { raw_value = raw } ∷ vs else v ∷ rest

  -- `patchConfigurationValues`, with the overrides in the order in which the map gives them
  unfoldable pub patch_values :
      Any → List (Bytes × Bytes) → List (ConfigValue Any) → List (ConfigValue Any)
  unfolding patch_value
  patch_values no_value [] vs = vs
  patch_values no_value ((name, raw) ∷ overrides) vs =
      patch_values no_value overrides (patch_value no_value name raw vs)

  -- the loop of `configValuesRawMap`
  unfoldable pub raw_map_from : List (Bytes × Bytes) → List (ConfigValue Any) → List (Bytes × Bytes)
  unfolding trim_space put
  raw_map_from m [] = m
  raw_map_from m (v ∷ vs) =
      let name = trim_space v.name in
      raw_map_from (if bytes_eq name [] then m else put name v.raw_value m) vs

  unfoldable pub config_values_raw_map : List (ConfigValue Any) → List (Bytes × Bytes)
  unfolding raw_map_from
  config_values_raw_map vs = raw_map_from [] vs
