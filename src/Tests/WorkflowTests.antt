-- ===== src/Tests/WorkflowTests.antt =====
-- Runs of the lifecycle commands (internal/deploy, internal/config), and their theorems at concrete
-- inputs.
use exasol_personal.Common.{◌≡◌, refl, true, false, none, some, [], ◌⊎◌, codes}
use exasol_personal.Errors.{ok, start, stop, deploy, unavailable_port, active_operation}
use exasol_personal.Mutex.Context.{background}
use exasol_personal.Configuration.Permission.{
  configure_refusal, apply_command, IsPermitted, configure_applies,
}
use exasol_personal.Workflow.State.{
  State, initialized, running, stopped, operation_in_progress, set_workflow_state,
  get-set_workflow_state,
}
use exasol_personal.Workflow.World.{World, StateFile, holds, read_state, saved, Environment}
use exasol_personal.Workflow.Status.{output, status_operation_in_progress, lock_message}
use exasol_personal.Workflow.Status.Locked.{directory, get_status_with_lock, status_while_locked}
use exasol_personal.Workflow.Diagram.{Moves, counted_as}
use exasol_personal.Workflow.Permits.{run_lifecycle_action, permits_start, permits_deploy}
use exasol_personal.Workflow.Commands.{start_locked, stop_locked, deploy_locked, destroy_locked}
use exasol_personal.Workflow.Commands.Moves.{runtime_down}
use exasol_personal.Workflow.Commands.Moves.Start.{start-Moves}
use exasol_personal.Workflow.Commands.Moves.Stop.{stop-Moves}
use exasol_personal.Workflow.Commands.Moves.Deploy.{deploy-Moves}
use exasol_personal.Workflow.Commands.Moves.Destroy.{
  destroy_result, destroy_steps, destroy_state, destroy_ends,
}
use exasol_personal.Workflow.Commands.Retry.{start_retry}
use exasol_personal.Workflow.Commands.Completes.{IsSmooth, deploy_completes}
use exasol_personal.Workflow.Commands.Success.{deploy_success}
use exasol_personal.Tests.MutexTests.{quiet, exclusive_dir, exclusive_is_held}

-- nothing fails, on a remote deployment
abbrev good : Environment
good = record {
  is_local = false;
  select_runtime = none;
  running_before = ok true;
  running_after = ok true;
  connection = none;
  manifest = none;
  install_manifest = none;
  options_valid = none;
  new_backend = none;
  prepare = none;
  database = none;
  sidecars = none;
  install_steps = none;
  stop_runtime = none;
  running_sidecars = none;
  stopped_sidecars = none;
  instructions = none;
  write_instructions = none;
  sidecar_state = none;
}

-- a local deployment of which the backend fails, as a port is taken
abbrev port_taken : Environment
port_taken = record good { is_local = true; database = some (unavailable_port (codes "sql") 8563) }

abbrev at_state : State → World
at_state s = record {
  memory = set_workflow_state initialized;
  disk = holds (set_workflow_state s);
  writes = [];
}

saved-at_state : (s : State) → saved (at_state s) ≡ ok s
unfolding saved read_state
saved-at_state s = (get-set_workflow_state s).0

good-IsSmooth : IsSmooth good
good-IsSmooth = record {
  remote = refl;
  manifest = refl;
  install_manifest = refl;
  options_valid = refl;
  new_backend = refl;
  prepare = refl;
  database = refl;
  sidecars = refl;
  install_steps = refl;
  instructions = refl;
  write_instructions = refl;
  sidecar_state = refl;
}

start-Moves_example :
    (t : State) × (saved (start_locked port_taken (at_state stopped)).1 ≡ ok t)
    × Moves start (counted_as (runtime_down port_taken) stopped) t
start-Moves_example =
    start-Moves port_taken (at_state stopped) stopped refl (saved-at_state stopped)

-- a local deployment that is recorded as running, of which the runtime is down
abbrev down : Environment
down = record port_taken { running_before = ok false }

stop-Moves_example :
    (t : State) × (saved (stop_locked down (at_state running)).1 ≡ ok t)
    × Moves stop (counted_as (runtime_down down) running) t
stop-Moves_example = stop-Moves down (at_state running) running refl (saved-at_state running)

deploy-Moves_example :
    (t : State) × (saved (deploy_locked port_taken (at_state initialized)).1 ≡ ok t)
    × Moves deploy initialized t
deploy-Moves_example =
    deploy-Moves port_taken (at_state initialized) initialized refl (saved-at_state initialized)

destroy_ends_example :
    let (result, v) = destroy_locked port_taken (at_state running) in
    (result ≡ destroy_result (destroy_steps port_taken) none)
    × (saved v ≡ ok (destroy_state (destroy_steps port_taken) none))
destroy_ends_example =
    destroy_ends port_taken (at_state running) running refl (saved-at_state running)

start_retry_example :
    (t : State) × (saved (start_locked port_taken (at_state stopped)).1 ≡ ok t)
    × ((t ≡ running)
        ⊎ ((file : StateFile) (env : Environment)
            → permits_start t file env ≡ ok run_lifecycle_action))
start_retry_example =
    start_retry port_taken (at_state stopped) stopped refl (saved-at_state stopped)
      (unfold permits_start in refl)

deploy_success_example : saved (deploy_locked good (at_state initialized)).1 ≡ ok running
deploy_success_example =
    deploy_success good (at_state initialized)
      (deploy_completes good (at_state initialized) initialized good-IsSmooth refl
        (saved-at_state initialized) (unfold permits_deploy in refl)).0

status_while_locked_example :
    get_status_with_lock quiet directory
      (holds (set_workflow_state (operation_in_progress stop)))
      (holds (set_workflow_state (operation_in_progress stop)))
      true
      good
      (some background)
      0
      exclusive_dir
    ≡ some (ok (output status_operation_in_progress (lock_message (active_operation stop))))
status_while_locked_example =
    status_while_locked quiet (holds (set_workflow_state (operation_in_progress stop)))
      (holds (set_workflow_state (operation_in_progress stop))) true good background 0 exclusive_dir
      (set_workflow_state (operation_in_progress stop)) stop exclusive_is_held (λ t d r. r) refl
      (unfold read_state in refl) (get-set_workflow_state (operation_in_progress stop)).0 (λ h. cc)

configure_applies_example :
    IsPermitted (apply_command stopped) stopped (holds (set_workflow_state stopped)) port_taken
unfolding configure_refusal
configure_applies_example =
    configure_applies true stopped (holds (set_workflow_state stopped)) port_taken refl
