-- ===== src/Compatibility/Upgrade.antt =====
-- What `EnforceDeploymentDirectoryCompatibility` (internal/compatibility/enforce.go) means over time:
-- for a launcher that was upgraded, and for the launcher that made the deployment.
use exasol_personal.Common.{
  ◌≡◌, refl, ap, sym, subst, ◌∙◌, false, none, some, Bytes, arith, trim_space,
  trim_space-trim_space,
}
use exasol_personal.Compatibility.{
  Semver, IsOrdered, Requirement, is_file, DeploymentDir, InitializationRequirement,
  write_deployment_version_marker, enforce,
}
use exasol_personal.Compatibility.Versions.{IsVersion, is_version}
use exasol_personal.Compatibility.Admissible.{
  Admits, admits_empty, admits_deployment, enforce-Admits,
}

module _ {ℓ} {V : Type ℓ} (semver : Semver V) where
  IsVersion-unique :
      (raw : Bytes) (v w : V) → IsVersion semver raw v → IsVersion semver raw w → v ≡ w
  IsVersion-unique raw v w (is_version a x p r) (is_version b y q s) =
      sym r ∙ (ap semver.release (same (sym p ∙ q)) ∙ s)
    where
      same : some a ≡ some b → a ≡ b
      same e = ground arith

  -- A deployment that a launcher may work on stays open to a launcher that is not older.
  pub enforce_upgrade :
      IsOrdered semver
      → (d : DeploymentDir) (old new : Bytes) (req : Requirement) (init : InitializationRequirement)
      → (v w : V) → IsVersion semver old v
      → IsVersion semver new w
      → semver.gt v w ≡ false
      → enforce semver d old req init ≡ none
      → enforce semver d new req init ≡ none
  enforce_upgrade order d old new req init v w is_old is_new upgrade allowed =
      (enforce-Admits semver d new req init).1
        (go ((enforce-Admits semver d old req init).0 allowed))
    where
      go : Admits semver old req init d → Admits semver new req init d
      go (admits_empty u legacy may) = admits_empty u legacy may
      go (admits_deployment marker dep launch low e at a b c newer older) =
          let same = IsVersion-unique old launch v b is_old in
          admits_deployment marker dep w low e at a is_new c
            (order.transitive dep v w (subst (λ u. semver.gt dep u ≡ false) same newer) upgrade)
            older

  -- The launcher that wrote the version marker may work on the deployment, for every command whose
  -- minimum is not newer than that launcher.
  pub enforce_own :
      IsOrdered semver
      → (d : DeploymentDir) (version : Bytes) (req : Requirement) (init : InitializationRequirement)
      → (v low : V) → d.state_file ≡ is_file
      → trim_space version ≡ version
      → IsVersion semver version v
      → IsVersion semver req.min_supported_deployment_version low
      → semver.lt v low ≡ false
      → enforce semver (write_deployment_version_marker version d) version req init ≡ none
  unfolding write_deployment_version_marker
  enforce_own order d version req init v low made trimmed is_v is_low old_enough =
      (enforce-Admits semver (write_deployment_version_marker version d) version req init).1 (
        admits_deployment (trim_space version) v v low made refl
          (subst (λ t. IsVersion semver t v) (sym (trim_space-trim_space version ∙ trimmed)) is_v)
          is_v is_low (order.irreflexive v) old_enough)
