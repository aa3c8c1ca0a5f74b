-- ===== src/Compatibility.antt =====
-- The check that a launcher may work on a deployment: internal/compatibility (compatibility.go,
-- enforce.go, errors.go) with the version marker of internal/config/deployment_version_marker.go.
-- Versions are those of the package semver, as an interface. Texts are lists of code points.
pub mod Versions
pub mod Admissible
pub mod Upgrade
use exasol_personal.Common.{
  ℕ, ◌≡◌, Bool, true, false, Option, none, some, List, [], ◌∷◌, Bytes, codes, if◌then◌else◌,
  trim_space,
}
use exasol_personal.Errors.{OsError, not_exist}

-- `semver.Version` with `Parse`, `GT` and `LT`. `release` is the version with `Pre` and `Build` set
-- to nil.
pub record Semver {ℓ} (V : Type ℓ) : Type ℓ where
  pub parse : Bytes → Option V
  pub release : V → V
  pub gt : V → V → Bool
  pub lt : V → V → Bool

-- what the documentation says of the order of versions
pub record IsOrdered {ℓ} {V : Type ℓ} (semver : Semver V) : Type ℓ where
  pub irreflexive : (v : V) → semver.gt v v ≡ false
  pub transitive :
      (u v w : V) → semver.gt u v ≡ false → semver.gt v w ≡ false → semver.gt u w ≡ false

pub data Label : Type 0 where
  deployment_version_label launcher_version_label minimum_version_label : Label

pub data Reason : Type 0 where
  deployment_newer_than_launcher deployment_too_old_for_command : Reason

pub data Action : Type 0 where
  upgrade_launcher use_compatible_launcher : Action

-- the errors, with the texts that are built for the user as the values that they are built from
pub data CheckError {ℓ} (V : Type ℓ) : Type ℓ where
  missing_version : Label → CheckError V
  invalid_version : Label → Bytes → CheckError V
  incompatible : V → V → V → Bytes → Reason → Action → CheckError V
  file_error : OsError → CheckError V
  legacy_layout not_initialized marker_missing marker_empty : CheckError V

pub record Requirement : Type 0 where
  pub command_name : Bytes
  pub min_supported_deployment_version : Bytes

pub data Parsed {ℓ} (V : Type ℓ) : Type ℓ where
  parsed : V → Parsed V
  failed : CheckError V → Parsed V

-- what `os.Stat` says of a path
pub data Stat : Type 0 where
  is_file is_directory : Stat
  stat_error : OsError → Stat

-- what `os.ReadFile` says of the version marker
pub data MarkerFile : Type 0 where
  content : Bytes → MarkerFile
  read_error : OsError → MarkerFile

-- the files of the deployment's directory that are looked at
pub record DeploymentDir : Type 0 where
  pub state_file : Stat
  pub legacy_workflow_state : Stat
  pub version_marker : MarkerFile

pub data InitializationRequirement : Type 0 where
  may_be_uninitialized must_be_initialized : InitializationRequirement

-- `WriteDeploymentVersionMarker`, where the write succeeds
unfoldable pub write_deployment_version_marker : Bytes → DeploymentDir → DeploymentDir
write_deployment_version_marker version d = record d {
  version_marker = content (trim_space version);
}

module _ {ℓ} {V : Type ℓ} (semver : Semver V) where
  abbrev parsed_or_invalid : Label → Bytes → Option V → Parsed V
  parsed_or_invalid label raw none = failed (invalid_version label raw)
  parsed_or_invalid label raw (some v) = parsed (semver.release v)

  -- `parseRequiredVersion`
  unfoldable pub parse_required_version : Bytes → Label → Parsed V
  parse_required_version [] label = failed (missing_version label)
  parse_required_version (c ∷ raw) label =
      parsed_or_invalid label (c ∷ raw) (semver.parse (c ∷ raw))

  unfoldable pub check_versions : V → V → V → Bytes → Option (CheckError V)
  check_versions deployment launcher minimum command =
      if semver.gt deployment launcher
      then some (
          incompatible deployment launcher minimum command deployment_newer_than_launcher
            upgrade_launcher)
      else if semver.lt deployment minimum
      then some (
          incompatible deployment launcher minimum command deployment_too_old_for_command
            use_compatible_launcher)
      else none

  -- `Check`: no error means that the command is allowed.
  unfoldable pub check : Bytes → Bytes → Requirement → Option (CheckError V)
  unfolding parse_required_version check_versions
  check deployment launcher req =
      elim (parse_required_version deployment deployment_version_label) [
        | failed e ↦ some e
        | parsed dep ↦ elim (parse_required_version launcher launcher_version_label) [
          | failed e ↦ some e
          | parsed launch ↦
              elim (parse_required_version req.min_supported_deployment_version
                minimum_version_label) [
                  | failed e ↦ some e
                  | parsed minimum ↦ check_versions dep launch minimum req.command_name
                ]
        ]
      ]

  -- `handleUninitializedDeploymentDir`, by what `legacyWorkflowStateExists` finds
  unfoldable pub handle_uninitialized : Stat → InitializationRequirement → Option (CheckError V)
  handle_uninitialized (stat_error not_exist) may_be_uninitialized = none
  handle_uninitialized (stat_error not_exist) must_be_initialized = some not_initialized
  handle_uninitialized (stat_error e) init = some (file_error e)
  handle_uninitialized s init = some legacy_layout

  abbrev check_marker : Bytes → Bytes → Requirement → Option (CheckError V)
  check_marker [] launcher req = some marker_empty
  check_marker (c ∷ marker) launcher req = check (c ∷ marker) launcher req

  -- `readDeploymentVersionMarker` and the check
  unfoldable pub check_initialized : MarkerFile → Bytes → Requirement → Option (CheckError V)
  unfolding check
  check_initialized (read_error not_exist) launcher req = some marker_missing
  check_initialized (read_error e) launcher req = some (file_error e)
  check_initialized (content marker) launcher req = check_marker (trim_space marker) launcher req

  -- `EnforceDeploymentDirectoryCompatibility` with `HasExasolPersonalStateFile`
  unfoldable pub enforce :
      DeploymentDir → Bytes → Requirement → InitializationRequirement → Option (CheckError V)
  unfolding handle_uninitialized check_initialized
  enforce d launcher req init = elim d.state_file [
    | is_file ↦ check_initialized d.version_marker launcher req
    | is_directory ↦ handle_uninitialized d.legacy_workflow_state init
    | stat_error not_exist ↦ handle_uninitialized d.legacy_workflow_state init
    | stat_error e ↦ some (file_error e)
  ]
