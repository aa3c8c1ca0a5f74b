-- ===== src/Sidecar/Ready.antt =====
-- What `Resolve` of internal/sidecar/resolve.go promises to those who run a container: when it gives
-- one, and that this one passes `Validate` again.
use exasol_personal.Common.{
  ℕ, suc, ◌≡◌, ◌↔◌, sym, refl, subst, inl, inr, false, not, ◌||◌, Option, none, some, List, [], ◌∷◌,
  Bytes, codes, bytes_eq, All, contains, Bool-cases, arith, ltb, length,
}
use exasol_personal.Sidecar.Document.{
  Container, Parsers, Invalid, refuse_nul, is_dns_label, container_name, image, working_dir,
  first_nul, validate_entrypoint, validate_probe, validate_ports, validate_env, validate_container,
  command_nul, args_nul, pull_policy, restart_policy, has_byte,
}
use exasol_personal.Sidecar.Accepted.{refuse_if-none, then_check-none}
use exasol_personal.Sidecar.Definitions.{validate_env_sound}
use exasol_personal.Sidecar.Defaults.{or_text, default_pull_policy, with_defaults, IsNetip}
use exasol_personal.Sidecar.DefaultsValid.{default_ports-valid, default_probe-valid}
use exasol_personal.Sidecar.Clean.{IsClean, map-expand-AreClean}
use exasol_personal.Sidecar.Resolve.{
  Secrets, Environment, Result, refused, resolved, continue, resolve_all, Resolved,
  with_environment, no_environment, resolve_valid, resolve_container,
}
use exasol_personal.Sidecar.Variables.{
  IsLiteral, Holds, Extends, resolve_all-Extends, Extends-validate_env,
}
use exasol_personal.Sidecar.Provided.{
  IsResolved, IsProvided, validate_env-IsWhole, resolve_all-IsResolved,
}

first_nul-none : (i : ℕ) (ss : List Bytes) → All IsClean ss → first_nul i ss ≡ none
unfolding first_nul
first_nul-none i [] h = refl
first_nul-none i (s ∷ ss) h = rw h.0 (first_nul-none (suc i) ss h.1)

first_nul-AreClean :
    (e : ℕ → Invalid) (i : ℕ) (ss : List Bytes)
    → refuse_nul e (first_nul i ss) ≡ none
    → All IsClean ss
unfolding first_nul
first_nul-AreClean e i [] h = tt
first_nul-AreClean e i (s ∷ ss) h = elim (Bool-cases (has_byte 0 s)) [
  | inl bad ↦ cc (rw bad at h)
  | inr good ↦ (good, first_nul-AreClean e (suc i) ss (rw good at h))
]

abbrev pull_policies : List Bytes
pull_policies = [] ∷ codes "Always" ∷ codes "IfNotPresent" ∷ codes "Never" ∷ []

abbrev restart_policies : List Bytes
restart_policies = [] ∷ codes "Always" ∷ codes "OnFailure" ∷ codes "Never" ∷ []

pull_policy-valid :
    (source s : Bytes)
    → not (contains pull_policies s) ≡ false
    → not (contains pull_policies (or_text (default_pull_policy source) s)) ≡ false
unfolding contains default_pull_policy
pull_policy-valid source [] h = ground arith
pull_policy-valid source (c ∷ s) h = h

restart_policy-valid :
    (s : Bytes)
    → not (contains restart_policies s) ≡ false
    → not (contains restart_policies (or_text (codes "Always") s)) ≡ false
unfolding contains
restart_policy-valid [] h = refl
restart_policy-valid (c ∷ s) h = h

-- the parts of `Validate`
record IsValid (parsers : Parsers) (c : Container) : Type 0 where
  name :
      (ltb 63 (length c.name) || not (is_dns_label c.name) || bytes_eq c.name (codes "database"))
      ≡ false
  is_image : not (parsers.is_image c.image) ≡ false
  pull : not (contains pull_policies c.image_pull_policy) ≡ false
  restart : not (contains restart_policies c.restart_policy) ≡ false
  dir : has_byte 0 c.working_dir ≡ false
  command : All IsClean c.command
  args : All IsClean c.args
  env : validate_env [] 0 c.env ≡ none
  ports : validate_ports parsers [] 0 c.ports ≡ none
  probe : validate_probe c.ports c.readiness_probe ≡ none

validate_container-IsValid :
    (parsers : Parsers) (c : Container) → validate_container parsers c ≡ none → IsValid parsers c
unfolding validate_container validate_entrypoint
validate_container-IsValid parsers c h =
    let (h8, probe_ok) = then_check-none _ _ h in
    let (h7, ports_ok) = then_check-none _ _ h8 in
    let (h6, env_ok) = then_check-none _ _ h7 in
    let (h5, entry_ok) = then_check-none _ _ h6 in
    let (h4, dir_ok) = then_check-none _ _ h5 in
    let (h3, restart_ok) = then_check-none _ _ h4 in
    let (h2, pull_ok) = then_check-none _ _ h3 in
    let (name_ok, image_ok) = then_check-none _ _ h2 in
    let (command_ok, args_ok) =
      then_check-none (refuse_nul command_nul (first_nul 0 c.command))
        (refuse_nul args_nul (first_nul 0 c.args)) entry_ok in
    record {
      name = refuse_if-none _ container_name name_ok;
      is_image = refuse_if-none _ image image_ok;
      pull = refuse_if-none _ pull_policy pull_ok;
      restart = refuse_if-none _ restart_policy restart_ok;
      dir = refuse_if-none _ working_dir dir_ok;
      command = first_nul-AreClean command_nul 0 c.command command_ok;
      args = first_nul-AreClean args_nul 0 c.args args_ok;
      env = env_ok;
      ports = ports_ok;
      probe = probe_ok;
    }

IsValid-validate_container :
    (parsers : Parsers) (c : Container) → IsValid parsers c → validate_container parsers c ≡ none
unfolding validate_container validate_entrypoint
IsValid-validate_container parsers c h =
    rw
      (
        h.name,
        h.is_image,
        h.pull,
        h.restart,
        h.dir,
        first_nul-none 0 c.command h.command,
        first_nul-none 0 c.args h.args,
        h.env,
        h.ports,
      )
      h.probe

with_environment-IsValid :
    (parsers : Parsers) (netip : IsNetip parsers) (c : Container) (e : Environment)
    → IsValid parsers c
    → Extends [] no_environment e
    → IsValid parsers (with_environment parsers c e).container
unfolding with_defaults
with_environment-IsValid parsers netip c e h x = record {
  name = h.name;
  is_image = h.is_image;
  pull = pull_policy-valid c.image c.image_pull_policy h.pull;
  restart = restart_policy-valid c.restart_policy h.restart;
  dir = h.dir;
  command = map-expand-AreClean e.values c.command x.clean h.command;
  args = map-expand-AreClean e.values c.args x.clean h.args;
  env = Extends-validate_env no_environment e refl x;
  ports = default_ports-valid parsers netip c.ports h.ports;
  probe = default_probe-valid parsers netip c.ports c.readiness_probe h.probe;
}

-- fit for a process: valid, and with a value for each variable
abbrev pub IsReady : Parsers → Container → Type 0
IsReady parsers c = (validate_container parsers c ≡ none) × All IsLiteral c.env

with_environment-IsReady :
    (parsers : Parsers) (netip : IsNetip parsers) (c : Container) (e : Environment)
    → IsValid parsers c
    → Extends [] no_environment e
    → IsReady parsers (with_environment parsers c e).container
with_environment-IsReady parsers netip c e h x = (
  IsValid-validate_container parsers (with_environment parsers c e).container
      (with_environment-IsValid parsers netip c e h x),
  subst (All IsLiteral) (sym x.env) x.literal,
)

-- A container that `Resolve` gives passes `Validate` itself, and each variable of its environment has
-- a value without NUL and no source.
pub resolve_container-validate :
    (parsers : Parsers) (netip : IsNetip parsers) (c : Container) (secrets : Secrets) (r : Resolved)
    → resolve_container parsers c secrets ≡ resolved r
    → IsReady parsers r.container
unfolding resolve_container
resolve_container-validate parsers netip c secrets r h =
    subst (Holds (λ x. IsReady parsers x.container)) h (go (validate_container parsers c) refl)
  where
    add :
        (result : Result Environment)
        → IsValid parsers c
        → Holds (Extends [] no_environment) result
        → Holds
            (λ (x : Resolved). IsReady parsers x.container)
            (continue (λ e. resolved (with_environment parsers c e)) result)
    add (refused f) v x = tt
    add (resolved e) v x = with_environment-IsReady parsers netip c e v x

    go :
        (o : Option Invalid)
        → validate_container parsers c ≡ o
        → Holds (λ (x : Resolved). IsReady parsers x.container) (resolve_valid parsers c secrets o)
    go (some i) e = tt
    go none e =
        let valid = validate_container-IsValid parsers c e in
        let (names, fresh) = validate_env_sound [] 0 c.env valid.env in
        add (resolve_all secrets c.env no_environment) valid
          (resolve_all-Extends secrets [] c.env no_environment names fresh tt)

continue-IsResolved {ℓ κ} :
    {A : Type ℓ} {B : Type κ} (f : A → B) (r : Result A)
    → IsResolved r ↔ IsResolved (continue (λ a. resolved (f a)) r)
continue-IsResolved f (refused e) = (λ h. h, λ h. h)
continue-IsResolved f (resolved a) = (λ h. h, λ h. h)

-- `Resolve` gives a container if and only if the container is valid and each secret that its
-- environment refers to is there, with no NUL in its value, or is optional and not there.
pub resolve_container_iff :
    (parsers : Parsers) (c : Container) (secrets : Secrets)
    → IsResolved (resolve_container parsers c secrets)
      ↔ ((validate_container parsers c ≡ none) × All (IsProvided secrets) c.env)
unfolding resolve_container
resolve_container_iff parsers c secrets = go (validate_container parsers c) refl
  where
    go :
        (o : Option Invalid)
        → validate_container parsers c ≡ o
        → IsResolved (resolve_valid parsers c secrets o)
          ↔ ((validate_container parsers c ≡ none) × All (IsProvided secrets) c.env)
    go (some i) e = (λ h. absurd h, λ h. cc (e, h.0))
    go none e =
        let valid = validate_container-IsValid parsers c e in
        let both =
          resolve_all-IsResolved secrets c.env no_environment
            (validate_env-IsWhole [] 0 c.env valid.env) tt in
        let end =
          continue-IsResolved (with_environment parsers c)
            (resolve_all secrets c.env no_environment) in
        (λ h. (e, both.1 (end.1 h)), λ h. end.0 (both.0 h.1))
