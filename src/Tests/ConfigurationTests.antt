-- ===== src/Tests/ConfigurationTests.antt =====
-- Runs of the configuration of internal/deploy/configuration.go, and the theorems on it at concrete
-- inputs.
use exasol_personal.Common.{
  ◌≡◌, ◌↔◌, refl, false, some, [], ◌∷◌, Bytes, codes, bytes_key, lookup, is_space, trim_left,
  trim_right, trim_space, contains, insert_text, text_leb,
}
use exasol_personal.Configuration.{
  ConfigValue, string_type, PresetIdentityInfo, Configuration, refused, unknown_option,
  no_selection, replace_all, normalize_option_name, validate_reset_selection, display_name,
  filter_configuration, reset_selected_values, missing_names, reset_selected, patch_values,
  config_values_raw_map,
}
use exasol_personal.Configuration.Names.{normalize-display_name}
use exasol_personal.Configuration.Selection.{IsConfigured, AreKnown, filter-reset_selected}
use exasol_personal.Configuration.Patch.{or_else, lookup-patch_values}

abbrev identity : PresetIdentityInfo
identity = record {
  selector = codes "name:aws";
  kind = codes "name";
  name = codes "aws";
  path = [];
  display_name = [];
  description = [];
}

abbrev region : ConfigValue Bytes
region = record {
  name = codes "aws_region";
  type = string_type;
  value = codes "eu";
  default = codes "us";
  raw_value = codes "eu";
  raw_default = codes "us";
}

abbrev size : ConfigValue Bytes
size = record region { name = codes "size" }

abbrev configuration : Configuration Bytes
configuration = record {
  infrastructure = record { identity = identity; options = region ∷ [] };
  installation = record { identity = identity; options = size ∷ [] };
}

no_names : validate_reset_selection [] false ≡ some no_selection
unfolding validate_reset_selection
no_names = refl

unknown_names :
    reset_selected configuration (codes "zone" ∷ codes "size" ∷ codes "host-name" ∷ [])
    ≡ refused (unknown_option (codes "host_name"))
unfolding reset_selected reset_selected_values missing_names normalize_option_name replace_all
    trim_space trim_left trim_right is_space contains insert_text text_leb
unknown_names = refl

normalize-display_name_example :
    normalize_option_name (display_name region) ≡ normalize_option_name region.name
normalize-display_name_example = normalize-display_name region

filter-reset_selected_example :
    (IsConfigured (reset_selected configuration (codes "aws-region" ∷ []))
      ↔ AreKnown configuration (codes "aws-region" ∷ []))
    × (IsConfigured (filter_configuration configuration (codes "aws-region" ∷ []))
        ↔ AreKnown configuration (codes "aws-region" ∷ []))
filter-reset_selected_example = filter-reset_selected configuration (codes "aws-region" ∷ [])

lookup-patch_values_example :
    lookup (codes "aws_region") (
      config_values_raw_map
        (patch_values [] ((codes "aws_region", codes "ap") ∷ []) (region ∷ size ∷ [])))
    ≡ or_else
        (lookup (codes "aws_region") ((codes "aws_region", codes "ap") ∷ []))
        (lookup (codes "aws_region") (config_values_raw_map (region ∷ size ∷ [])))
unfolding trim_space trim_left trim_right is_space contains
lookup-patch_values_example =
    lookup-patch_values [] ((codes "aws_region", codes "ap") ∷ []) (region ∷ size ∷ [])
      (codes "aws_region") ((refl, refl), tt) (refl, tt)
      (record { named = ((refl, refl), ((refl, refl), tt)); distinct = (refl, (refl, tt)) })
