-- ===== src/Compatibility/Admissible.antt =====
-- Which deployments `EnforceDeploymentDirectoryCompatibility` (internal/compatibility/enforce.go)
-- lets a command work on.
use exasol_personal.Common.{
  ◌≡◌, ◌↔◌, refl, sym, subst, false, none, [], ◌∷◌, Bytes, trim_space, arith,
}
use exasol_personal.Errors.{not_exist, exist, permission}
use exasol_personal.Compatibility.{
  Semver, Requirement, Stat, is_file, is_directory, stat_error, MarkerFile, content, read_error,
  DeploymentDir, InitializationRequirement, may_be_uninitialized, must_be_initialized, check,
  handle_uninitialized, check_initialized, enforce,
}
use exasol_personal.Compatibility.Versions.{IsVersion, is_version, Versions, check_ok, check_admits}

module _ {ℓ} {V : Type ℓ} (semver : Semver V) where
  -- a directory without a state file
  pub data IsUninitialized : Stat → Type 0 where
    state_is_directory : IsUninitialized is_directory
    state_is_missing : IsUninitialized (stat_error not_exist)

  -- The deployments that a command of a launcher may work on.
  pub data Admits (launcher : Bytes) (req : Requirement) (init : InitializationRequirement)
      (d : DeploymentDir) : Type ℓ where
    admits_empty :
        IsUninitialized d.state_file
        → d.legacy_workflow_state ≡ stat_error not_exist
        → init ≡ may_be_uninitialized
        → Admits launcher req init d
    admits_deployment :
        (marker : Bytes) (deployment_v launcher_v minimum_v : V)
        → d.state_file ≡ is_file
        → d.version_marker ≡ content marker
        → IsVersion semver (trim_space marker) deployment_v
        → IsVersion semver launcher launcher_v
        → IsVersion semver req.min_supported_deployment_version minimum_v
        → semver.gt deployment_v launcher_v ≡ false
        → semver.lt deployment_v minimum_v ≡ false
        → Admits launcher req init d

  initialized_ok :
      (m : MarkerFile) (launcher : Bytes) (req : Requirement)
      → check_initialized semver m launcher req ≡ none
      → (marker : Bytes) × (m ≡ content marker)
        × Versions semver (trim_space marker) launcher req.min_supported_deployment_version
  unfolding check_initialized
  initialized_ok (read_error not_exist) launcher req h = absurd (ground arith)
  initialized_ok (read_error e) launcher req h = absurd (ground arith)
  initialized_ok (content marker) launcher req h = (marker, refl, go (trim_space marker) refl)
    where
      go :
          (t : Bytes)
          → trim_space marker ≡ t
          → Versions semver t launcher req.min_supported_deployment_version
      go [] e = absurd (ground (arith, h, e))
      go (c ∷ t) e = check_ok semver (c ∷ t) launcher req (ground (arith, h, e))

  uninitialized_ok :
      (s : Stat) (init : InitializationRequirement)
      → handle_uninitialized semver s init ≡ none
      → (s ≡ stat_error not_exist) × (init ≡ may_be_uninitialized)
  unfolding handle_uninitialized
  uninitialized_ok is_file init h = absurd (ground arith)
  uninitialized_ok is_directory init h = absurd (ground arith)
  uninitialized_ok (stat_error not_exist) may_be_uninitialized h = (refl, refl)
  uninitialized_ok (stat_error not_exist) must_be_initialized h = absurd (ground arith)
  uninitialized_ok (stat_error exist) init h = absurd (ground arith)
  uninitialized_ok (stat_error permission) init h = absurd (ground arith)

  module _ (launcher : Bytes) (req : Requirement) (init : InitializationRequirement)
      (d : DeploymentDir) where
    empty_ok :
        IsUninitialized d.state_file
        → handle_uninitialized semver d.legacy_workflow_state init ≡ none
        → Admits launcher req init d
    empty_ok u h =
        let (legacy, may) = uninitialized_ok d.legacy_workflow_state init h in
        admits_empty u legacy may

    enforce_ok : enforce semver d launcher req init ≡ none → Admits launcher req init d
    unfolding enforce Versions
    enforce_ok h = go d.state_file refl
      where
        go : (s : Stat) → d.state_file ≡ s → Admits launcher req init d
        go is_file e =
            let (marker, at, (dep, launch, low, a, b, c, newer, older)) =
              initialized_ok d.version_marker launcher req (ground (arith, h, e)) in
            admits_deployment marker dep launch low e at a b c newer older
        go is_directory e =
            empty_ok (subst IsUninitialized (sym e) state_is_directory) (ground (arith, h, e))
        go (stat_error not_exist) e =
            empty_ok (subst IsUninitialized (sym e) state_is_missing) (ground (arith, h, e))
        go (stat_error exist) e = absurd (ground (arith, h, e))
        go (stat_error permission) e = absurd (ground (arith, h, e))

    empty_enforce :
        (s : Stat)
        → IsUninitialized s
        → d.state_file ≡ s
        → d.legacy_workflow_state ≡ stat_error not_exist
        → init ≡ may_be_uninitialized
        → enforce semver d launcher req init ≡ none
    unfolding enforce handle_uninitialized
    empty_enforce is_file u e legacy may = elim u [ ]
    empty_enforce (stat_error exist) u e legacy may = elim u [ ]
    empty_enforce (stat_error permission) u e legacy may = elim u [ ]
    empty_enforce is_directory state_is_directory e legacy may = rw (e, legacy, may) refl
    empty_enforce (stat_error not_exist) state_is_missing e legacy may = rw (e, legacy, may) refl

    marker_admits :
        (marker : Bytes) (dep : V)
        → IsVersion semver (trim_space marker) dep
        → check semver (trim_space marker) launcher req ≡ none
        → check_initialized semver (content marker) launcher req ≡ none
    unfolding check_initialized
    marker_admits marker dep (is_version u some_text p r) h = go (trim_space marker) refl
      where
        go :
            (t : Bytes)
            → trim_space marker ≡ t
            → check_initialized semver (content marker) launcher req ≡ none
        go [] e = absurd (some_text e)
        go (c ∷ t) e = ground (arith, e, h)

    Admits-enforce : Admits launcher req init d → enforce semver d launcher req init ≡ none
    unfolding enforce
    Admits-enforce (admits_empty u legacy may) = empty_enforce d.state_file u refl legacy may
    Admits-enforce (admits_deployment marker dep launch low e at a b c newer older) =
        rw (e, at)
          (marker_admits marker dep a
            (check_admits semver launcher req (trim_space marker) dep launch low a b c newer older))

  -- A command may work on a deployment directory if and only if the directory has no state file, no
  -- legacy one either, and the command does not need one; or its version marker, the launcher's
  -- version and the command's minimum are versions, of which the marker's is neither newer than the
  -- launcher's nor older than the minimum.
  pub enforce-Admits :
      (d : DeploymentDir) (launcher : Bytes) (req : Requirement) (init : InitializationRequirement)
      → (enforce semver d launcher req init ≡ none) ↔ Admits launcher req init d
  enforce-Admits d launcher req init =
      (enforce_ok launcher req init d, Admits-enforce launcher req init d)
