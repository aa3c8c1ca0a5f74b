-- ===== src/Workflow/Permits.antt =====
-- Which states permit which command: `workflowStatePermitsStart` and `workflowStatePermitsStop` of
-- internal/deploy/deploymentControl.go and `WorkflowStatePermitsDeploy` of internal/deploy/deploy.go.
-- Guidance is a constructor that names its text.
use exasol_personal.Common.{Bool, true, false, Option, none, some, if◌then◌else◌}
use exasol_personal.Errors.{
  Error, Operation, deploy, destroy, start, stop, Result, ok, err, unsupported_operation,
  unexpected_deployment_status,
}
use exasol_personal.Workflow.State.{
  State, initialized, running, stopped, operation_in_progress, interrupted, deployment_failed,
}
use exasol_personal.Workflow.World.{StateFile, Environment}
use exasol_personal.Workflow.Status.{
  StatusName, status_database_ready, StatusOutput, get_status, new_blocked_state_error,
}

pub data Guidance : Type 0 where
  no_guidance not_deployed_yet nothing_to_stop already_ready not_ready failed_state : Guidance
  already_stopped : Guidance
  operation_in_progress_guidance interrupted_operation_guidance : Operation → Operation → Guidance

-- `lifecycleActionDecision`
pub record Decision : Type 0 where
  pub should_run : Bool
  pub guidance : Guidance
  pub show_connection_instructions : Bool

abbrev pub run_lifecycle_action : Decision
run_lifecycle_action = record {
  should_run = true;
  guidance = no_guidance;
  show_connection_instructions = false;
}

abbrev pub skip_lifecycle_action : Guidance → Decision
skip_lifecycle_action g = record {
  should_run = false;
  guidance = g;
  show_connection_instructions = false;
}

abbrev pub skip_with_connection_instructions : Guidance → Decision
skip_with_connection_instructions g = record {
  should_run = false;
  guidance = g;
  show_connection_instructions = true;
}

abbrev pub is_ready : StatusName → Bool
is_ready status_database_ready = true
is_ready _ = false

running_decision : Result StatusOutput → Result Decision
running_decision (err e) = err e
running_decision (ok s) =
    if is_ready s.status
    then ok (skip_with_connection_instructions already_ready)
    else ok (skip_lifecycle_action not_ready)

-- The `switch` of `workflowStatePermitsStart`. A running deployment's status is read again from
-- the state file.
unfoldable pub permits_start : State → StateFile → Environment → Result Decision
unfolding running_decision
permits_start initialized file env = ok (skip_lifecycle_action not_deployed_yet)
permits_start stopped file env = ok run_lifecycle_action
permits_start running file env = running_decision (get_status file true env)
permits_start (deployment_failed e) file env = ok (skip_lifecycle_action failed_state)
permits_start (operation_in_progress start) file env = ok run_lifecycle_action
permits_start (operation_in_progress o) file env =
    ok (skip_lifecycle_action (operation_in_progress_guidance o start))
permits_start (interrupted e start) file env = ok run_lifecycle_action
permits_start (interrupted e stop) file env = ok run_lifecycle_action
permits_start (interrupted e o) file env =
    ok (skip_lifecycle_action (interrupted_operation_guidance o start))

unfoldable pub permits_stop : State → Decision
permits_stop initialized = skip_lifecycle_action nothing_to_stop
permits_stop running = run_lifecycle_action
permits_stop stopped = skip_lifecycle_action already_stopped
permits_stop (deployment_failed e) = skip_lifecycle_action failed_state
permits_stop (operation_in_progress stop) = run_lifecycle_action
permits_stop (operation_in_progress o) =
    skip_lifecycle_action (operation_in_progress_guidance o stop)
permits_stop (interrupted e start) = run_lifecycle_action
permits_stop (interrupted e stop) = run_lifecycle_action
permits_stop (interrupted e destroy) = run_lifecycle_action
permits_stop (interrupted e o) = skip_lifecycle_action (interrupted_operation_guidance o stop)

-- The sentinel of the refusal, if there is one.
unfoldable pub deploy_refusal : State → Option Error
deploy_refusal initialized = none
deploy_refusal (deployment_failed e) = none
deploy_refusal running = none
deploy_refusal (operation_in_progress deploy) = none
deploy_refusal (operation_in_progress o) = some unsupported_operation
deploy_refusal (interrupted e deploy) = none
deploy_refusal _ = some unexpected_deployment_status

unfoldable pub permits_deploy : State → StateFile → Environment → Option Error
unfolding deploy_refusal
permits_deploy s file env = elim (deploy_refusal s) [
  | none ↦ none
  | some e ↦ some (new_blocked_state_error file env e)
]
