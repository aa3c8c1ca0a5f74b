-- ===== src/Configuration/Permission.antt =====
-- When the configuration may be changed, and which command applies it: `WorkflowStatePermitsConfigure`
-- of internal/deploy/configure.go and `configurationApplyCommand` of internal/deploy/configuration.go.
use exasol_personal.Common.{◌≡◌, refl, Bool, true, false, Option, none, some}
use exasol_personal.Errors.{Operation, start, deploy, ok}
use exasol_personal.Workflow.State.{
  State, initialized, running, stopped, operation_in_progress, interrupted, deployment_failed,
}
use exasol_personal.Workflow.World.{StateFile, Environment}
use exasol_personal.Workflow.Permits.{
  run_lifecycle_action, permits_start, permits_deploy, deploy_refusal,
}

-- the hint of the error
pub data ConfigureRefusal : Type 0 where
  local_configure_not_allowed configure_not_allowed : ConfigureRefusal

unfoldable pub configure_refusal : Bool → State → Option ConfigureRefusal
configure_refusal is_local initialized = none
configure_refusal true stopped = none
configure_refusal true running = some local_configure_not_allowed
configure_refusal true (operation_in_progress o) = some local_configure_not_allowed
configure_refusal true (interrupted e o) = some configure_not_allowed
configure_refusal true (deployment_failed e) = some configure_not_allowed
configure_refusal false stopped = some configure_not_allowed
configure_refusal false running = some configure_not_allowed
configure_refusal false (operation_in_progress o) = some configure_not_allowed
configure_refusal false (interrupted e o) = some configure_not_allowed
configure_refusal false (deployment_failed e) = some configure_not_allowed

unfoldable pub apply_command : State → Operation
apply_command stopped = start
apply_command _ = deploy

-- The command is `start` or `deploy`, and the state permits it.
abbrev pub IsPermitted : Operation → State → StateFile → Environment → Type 0
IsPermitted start s file env = permits_start s file env ≡ ok run_lifecycle_action
IsPermitted deploy s file env = permits_deploy s file env ≡ none
IsPermitted _ s file env = ⊥

-- A state that permits to change the configuration permits the command that is said to apply it.
pub configure_applies :
    (is_local : Bool) (s : State) (file : StateFile) (env : Environment)
    → configure_refusal is_local s ≡ none
    → IsPermitted (apply_command s) s file env
unfolding configure_refusal apply_command permits_start permits_deploy deploy_refusal
configure_applies is_local initialized file env h = refl
configure_applies true stopped file env h = refl
configure_applies false stopped file env h = cc
configure_applies true running file env h = cc
configure_applies false running file env h = cc
configure_applies true (operation_in_progress o) file env h = cc
configure_applies false (operation_in_progress o) file env h = cc
configure_applies true (interrupted e o) file env h = cc
configure_applies false (interrupted e o) file env h = cc
configure_applies true (deployment_failed e) file env h = cc
configure_applies false (deployment_failed e) file env h = cc
