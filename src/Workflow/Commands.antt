-- ===== src/Workflow/Commands.antt =====
-- The lifecycle commands, each under the exclusive lock of the deployment directory: `startLocked`
-- and `stopLocked` with their backends (internal/deploy/deploymentControl.go), `deployLocked`
-- (internal/deploy/deploy.go) and `destroyLocked` (internal/deploy/destroy.go). No signal arrives
-- while they run. Left out are `reconcileCustomSLCsAfterStart` and, at the end of destroy, the removal
-- of the file with the connection instructions: their errors are logged only.
pub mod Rules
pub mod Success
pub mod Held
pub mod Moves
pub mod Retry
pub mod Completes
use exasol_personal.Common.{Bool, true, false, Option, none, some, if◌then◌else◌}
use exasol_personal.Errors.{
  Error, Operation, deploy, destroy, start, stop, Result, ok, err, join_errors,
  lifecycle_action_skipped,
}
use exasol_personal.Workflow.State.{
  State, initialized, running, stopped, operation_in_progress, WorkflowState, get_workflow_state,
}
use exasol_personal.Workflow.World.{World, StateFile, read_state, set_and_write, Environment}
use exasol_personal.Workflow.Permits.{Decision, permits_start, permits_stop, permits_deploy}
use exasol_personal.Workflow.Failure.{
  Run, as_unavailable, mark_operation_interrupted, restore_after_unavailable_port,
  record_lifecycle_failure, record_deploy_failure, reconcile_local_vm_state,
}

-- `if err != nil { return err }`
pub unless_error : Option Error → Run → Run
unless_error (some e) next w = (some e, w)
unless_error none next w = next w

pub after : Option Error × World → Run → Option Error × World
after (e, w) next = unless_error e next w

pub with_state : Result State → (State → Run) → Run
with_state (err e) next w = (some e, w)
with_state (ok s) next w = next s w

pub read_file : Result WorkflowState → Run → Run
read_file (err e) next w = (some e, w)
read_file (ok m) next w = next (record w { memory = m })

-- `config.ReadExasolPersonalState`: what is on disk becomes the state in memory.
pub with_read : Run → Run
with_read next w = read_file (read_state w.disk) next w

-- A write of which an error is logged only.
abbrev pub set_state : State → World → World
set_state s w = (set_and_write s w).1

abbrev is_running : State → Bool
is_running running = true
is_running _ = false

abbrev is_stopped : Result State → Bool
is_stopped (ok stopped) = true
is_stopped _ = false

module _ (env : Environment) where
  local_only : Option Error → Option Error
  local_only e = if env.is_local then e else none

  -- `runStartBackend`
  run_start_backend : Run
  run_start_backend w = elim env.database [
    | some e ↦ record_lifecycle_failure env start stopped e w
    | none ↦
        unless_error env.instructions (λ w. (join_errors env.write_instructions env.sidecars, w))
          (set_state running w)
  ]

  -- a command that the state does not permit
  start_skipped : State → Decision → Run
  start_skipped s decision =
      unless_error (if is_running s then local_only env.running_sidecars else none) λ w.
        (if decision.show_connection_instructions then none else some lifecycle_action_skipped, w)

  start_run : Run
  start_run = unless_error env.manifest (
      unless_error env.new_backend (
        unless_error env.prepare
          λ w. run_start_backend (set_state (operation_in_progress start) w)))

  start_decided : State → Result Decision → Run
  start_decided s (err e) w = (some e, w)
  start_decided s (ok decision) w =
      if decision.should_run then start_run w else start_skipped s decision w

  start_permitted : State → Run
  start_permitted s w = start_decided s (permits_start s w.disk env) w

  start_reconciled : Run
  start_reconciled w = with_state (get_workflow_state w.memory) start_permitted w

  pub start_locked : Run
  start_locked = with_read λ w. after (reconcile_local_vm_state env w) start_reconciled

  -- `runStopBackend`
  run_stop_backend : Run
  run_stop_backend = unless_error env.manifest (
      unless_error env.new_backend λ w. elim env.database [
        | some e ↦ record_lifecycle_failure env stop stopped e w
        | none ↦ (env.sidecars, set_state stopped w)
      ])

  abbrev stopped_on_disk : Result WorkflowState → Option Error
  stopped_on_disk (err e) = some e
  stopped_on_disk (ok m) = elim (get_workflow_state m) [
    | err e ↦ some e
    | ok s ↦ if is_stopped (ok s) then env.stopped_sidecars else none
  ]

  -- `cleanupStoppedSidecars`, which reads the state file again
  cleanup_stopped_sidecars : Run
  cleanup_stopped_sidecars w =
      (if env.is_local then stopped_on_disk (read_state w.disk) else none, w)

  stop_permitted : State → Run
  stop_permitted s w =
      if (permits_stop s).should_run
      then run_stop_backend (set_state (operation_in_progress stop) w)
      else cleanup_stopped_sidecars w

  stop_reconciled : Run
  stop_reconciled w = with_state (get_workflow_state w.memory) stop_permitted w

  pub stop_locked : Run
  stop_locked = with_read λ w. after (reconcile_local_vm_state env w) stop_reconciled

  -- `finalizeSuccessfulDeploy`
  finalize_successful_deploy : Run
  finalize_successful_deploy w =
      after (set_and_write running w)
        (unless_error env.instructions λ w. (env.write_instructions, w))

  deploy_database_failed : Error → Run
  deploy_database_failed e w = elim (as_unavailable e) [
    | some u ↦ restore_after_unavailable_port initialized e w
    | none ↦ record_deploy_failure e w
  ]

  -- `runDeployBackend`
  run_deploy_backend : Run
  run_deploy_backend = unless_error env.install_manifest λ w. elim env.database [
    | some e ↦ deploy_database_failed e w
    | none ↦ elim env.install_steps [
      | some e ↦ record_deploy_failure e w
      | none ↦ finalize_successful_deploy w
    ]
  ]

  deploy_permitted : Run
  deploy_permitted = unless_error env.manifest (
      unless_error env.options_valid (
        unless_error env.new_backend (
          unless_error env.prepare
            λ w. run_deploy_backend (set_state (operation_in_progress deploy) w))))

  deploy_from : State → Run
  deploy_from s w = unless_error (permits_deploy s w.disk env) deploy_permitted w

  pub deploy_locked : Run
  deploy_locked = with_read λ w. with_state (get_workflow_state w.memory) deploy_from w

  -- `runDestroyBackend`
  run_destroy_backend : Run
  run_destroy_backend w = elim env.manifest [
    | some e ↦ mark_operation_interrupted destroy e w
    | none ↦ elim env.new_backend [
      | some e ↦ mark_operation_interrupted destroy e w
      | none ↦ elim env.database [
        | some e ↦ mark_operation_interrupted destroy e w
        | none ↦ unless_error env.sidecar_state (set_and_write initialized) w
      ]
    ]
  ]

  pub destroy_locked : Run
  destroy_locked = with_read λ w. run_destroy_backend (set_state (operation_in_progress destroy) w)
