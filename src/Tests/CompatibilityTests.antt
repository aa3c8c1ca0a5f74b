-- ===== src/Tests/CompatibilityTests.antt =====
-- Runs of the compatibility check (internal/compatibility), and its theorems at concrete inputs,
-- with versions of one digit.
use exasol_personal.Common.{
  ℕ, ◌-◌, ◌≡◌, ◌↔◌, refl, Option, none, some, [], ◌∷◌, Bytes, codes, ltb, arith, trim_space,
  is_space, trim_left, trim_right,
}
use exasol_personal.Errors.{not_exist}
use exasol_personal.Compatibility.{
  Semver, IsOrdered, incompatible, deployment_newer_than_launcher, upgrade_launcher, Requirement,
  is_file, stat_error, content, DeploymentDir, must_be_initialized, parse_required_version,
  check_versions, check, check_initialized, enforce,
}
use exasol_personal.Compatibility.Versions.{IsVersion, is_version}
use exasol_personal.Compatibility.Admissible.{Admits, enforce-Admits}
use exasol_personal.Compatibility.Upgrade.{enforce_upgrade}

abbrev digit : Bytes → Option ℕ
digit (c ∷ []) = some (c - 48)
digit _ = none

abbrev digits : Semver ℕ
digits = record { parse = digit; release = λ v. v; gt = λ v w. ltb w v; lt = ltb }

digits-IsOrdered : IsOrdered digits
digits-IsOrdered = record {
  irreflexive = λ v. ground arith;
  transitive = λ u v w a b. ground (arith, a, b);
}

abbrev deployment : DeploymentDir
deployment = record {
  state_file = is_file;
  legacy_workflow_state = stat_error not_exist;
  version_marker = content (codes " 3");
}

abbrev needs_two : Requirement
needs_two = record { command_name = codes "start"; min_supported_deployment_version = codes "2" }

digit-IsVersion : (c : ℕ) → IsVersion digits (c ∷ []) (c - 48)
digit-IsVersion c = is_version (c - 48) (λ e. cc) refl refl

too_new :
    enforce digits deployment (codes "2") needs_two must_be_initialized
    ≡ some (incompatible 3 2 2 (codes "start") deployment_newer_than_launcher upgrade_launcher)
unfolding enforce check_initialized check check_versions parse_required_version trim_space trim_left
    trim_right is_space
too_new = refl

same_version : enforce digits deployment (codes "3") needs_two must_be_initialized ≡ none
unfolding enforce check_initialized check check_versions parse_required_version trim_space trim_left
    trim_right is_space
same_version = refl

enforce-Admits_example :
    (enforce digits deployment (codes "3") needs_two must_be_initialized ≡ none)
    ↔ Admits digits (codes "3") needs_two must_be_initialized deployment
enforce-Admits_example = enforce-Admits digits deployment (codes "3") needs_two must_be_initialized

enforce_upgrade_example : enforce digits deployment (codes "5") needs_two must_be_initialized ≡ none
enforce_upgrade_example =
    enforce_upgrade digits digits-IsOrdered deployment (codes "3") (codes "5") needs_two
      must_be_initialized 3 5 (digit-IsVersion 51) (digit-IsVersion 53) refl same_version

trimmed_four : trim_space (codes "4") ≡ codes "4"
unfolding trim_space trim_left trim_right is_space
trimmed_four = refl
