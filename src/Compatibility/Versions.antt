-- ===== src/Compatibility/Versions.antt =====
-- Which texts are versions, and when `Check` (internal/compatibility/compatibility.go) reports no
-- error.
use exasol_personal.Common.{◌≡◌, ◌≢◌, refl, ap, false, Option, none, some, [], ◌∷◌, Bytes, arith}
use exasol_personal.Compatibility.{
  Semver, Label, deployment_version_label, launcher_version_label, minimum_version_label,
  Requirement, Parsed, parsed, failed, parse_required_version, check_versions, check,
}

module _ {ℓ} {V : Type ℓ} (semver : Semver V) where
  -- a text that is a version, without its prerelease and build
  pub data IsVersion (raw : Bytes) (v : V) : Type ℓ where
    is_version :
        (u : V) → raw ≢ [] → semver.parse raw ≡ some u → semver.release u ≡ v → IsVersion raw v

  pub parse_IsVersion :
      (raw : Bytes) (l : Label) (v : V)
      → parse_required_version semver raw l ≡ parsed v
      → IsVersion raw v
  unfolding parse_required_version
  parse_IsVersion [] l v h = absurd (ground arith)
  parse_IsVersion (c ∷ raw) l v h = go (semver.parse (c ∷ raw)) refl
    where
      same : {a b : V} → parsed a ≡ parsed b → a ≡ b
      same e = ground arith

      go : (o : Option V) → semver.parse (c ∷ raw) ≡ o → IsVersion (c ∷ raw) v
      go none e = absurd (ground (arith, h, e))
      go (some u) e = is_version u (λ x. cc) e (same (ground (arith, h, e)))

  pub IsVersion-parse :
      (raw : Bytes) (l : Label) (v : V)
      → IsVersion raw v
      → parse_required_version semver raw l ≡ parsed v
  unfolding parse_required_version
  IsVersion-parse [] l v (is_version u some_text p r) = absurd (some_text refl)
  IsVersion-parse (c ∷ raw) l v (is_version u some_text p r) = rw p (ap parsed r)

  check_versions_ok :
      (dep launch minimum : V) (command : Bytes)
      → check_versions semver dep launch minimum command ≡ none
      → (semver.gt dep launch ≡ false) × (semver.lt dep minimum ≡ false)
  unfolding check_versions
  check_versions_ok dep launch minimum command h = (ground (arith, h), ground (arith, h))

  unfoldable pub Versions : Bytes → Bytes → Bytes → Type ℓ
  Versions marker launcher minimum =
      (dep launch low : V) × IsVersion marker dep
      × IsVersion launcher launch
      × IsVersion minimum low
      × (semver.gt dep launch ≡ false)
      × (semver.lt dep low ≡ false)

  pub check_ok :
      (marker launcher : Bytes) (req : Requirement)
      → check semver marker launcher req ≡ none
      → Versions marker launcher req.min_supported_deployment_version
  unfolding check Versions
  check_ok marker launcher req h =
      go1 (parse_required_version semver marker deployment_version_label) refl
    where
      go3 :
          (dep launch : V)
          → parse_required_version semver marker deployment_version_label ≡ parsed dep
          → parse_required_version semver launcher launcher_version_label ≡ parsed launch
          → (r : Parsed V)
          → parse_required_version semver req.min_supported_deployment_version minimum_version_label
            ≡ r
          → Versions marker launcher req.min_supported_deployment_version
      go3 dep launch a b (failed e) c = absurd (ground (arith, h, a, b, c))
      go3 dep launch a b (parsed low) c =
          let (not_newer, not_older) =
            check_versions_ok dep launch low req.command_name (ground (arith, h, a, b, c)) in
          (
            dep,
            launch,
            low,
            parse_IsVersion marker _ dep a,
            parse_IsVersion launcher _ launch b,
            parse_IsVersion _ _ low c,
            not_newer,
            not_older,
          )

      go2 :
          (dep : V)
          → parse_required_version semver marker deployment_version_label ≡ parsed dep
          → (r : Parsed V) → parse_required_version semver launcher launcher_version_label ≡ r
          → Versions marker launcher req.min_supported_deployment_version
      go2 dep a (failed e) b = absurd (ground (arith, h, a, b))
      go2 dep a (parsed launch) b =
          go3 dep launch a b
            (parse_required_version semver req.min_supported_deployment_version
              minimum_version_label)
            refl

      go1 :
          (r : Parsed V)
          → parse_required_version semver marker deployment_version_label ≡ r
          → Versions marker launcher req.min_supported_deployment_version
      go1 (failed e) a = absurd (ground (arith, h, a))
      go1 (parsed dep) a =
          go2 dep a (parse_required_version semver launcher launcher_version_label) refl

  pub check_admits :
      (launcher : Bytes) (req : Requirement) (marker : Bytes) (dep launch low : V)
      → IsVersion marker dep
      → IsVersion launcher launch
      → IsVersion req.min_supported_deployment_version low
      → semver.gt dep launch ≡ false
      → semver.lt dep low ≡ false
      → check semver marker launcher req ≡ none
  unfolding check check_versions
  check_admits launcher req marker dep launch low a b c newer older =
      rw
        (
          check,
          IsVersion-parse marker deployment_version_label dep a,
          IsVersion-parse launcher launcher_version_label launch b,
          IsVersion-parse _ minimum_version_label low c,
          newer,
          older,
        )
        refl
