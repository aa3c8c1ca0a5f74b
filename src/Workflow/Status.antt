-- ===== src/Workflow/Status.antt =====
-- `GetStatus`, `GetStatusWithLock` and what they call, of internal/deploy/status.go and
-- internal/deploy/locking.go. A message is a constructor that names its text.
pub mod Locked
use exasol_personal.Common.{Bool, true, false, Option, none, some, [], if◌then◌else◌}
use exasol_personal.Errors.{
  Error, Operation, deploy, destroy, unknown, LockMessage, lock_unavailable, active_operation,
  Result, ok, err, errors_is, is_acquire_timeout, is_canceled, is_locked, is_not_exist,
  is_missing_config_file, is_host_unreachable, join, deployment_directory_locked, blocked,
  local_port_recovery, local_retryable_failure, restore_failed, deploy_failed,
}
use exasol_personal.Workflow.State.{
  State, initialized, running, stopped, operation_in_progress, interrupted, deployment_failed,
  WorkflowState, get_workflow_state,
}
use exasol_personal.Workflow.World.{StateFile, read_state, Environment}

pub data StatusName : Type 0 where
  status_not_initialized status_initialized status_operation_in_progress : StatusName
  status_interrupted status_stopped status_running status_deployment_failed : StatusName
  status_database_connection_failed status_database_ready : StatusName

pub data Message : Type 0 where
  not_initialized_message database_unreachable_message container_host_unreachable_message : Message
  ready_for_deployment deployment_failed_message deployment_stopped_message : Message
  database_ready_message database_started_message : Message
  lock_message : LockMessage → Message
  interrupted_run_deploy interrupted_run_destroy : Message
  interrupted_run_start_or_stop : Operation → Message
  stale_destroy stale_deploy : Message
  stale_operation : Operation → Message

pub record StatusOutput : Type 0 where
  pub status : StatusName
  pub message : Message
  pub error : Option Error

abbrev pub output : StatusName → Message → StatusOutput
output s m = record { status = s; message = m; error = none }

unfoldable pub stale_operation_in_progress_message : Operation → Message
stale_operation_in_progress_message destroy = stale_destroy
stale_operation_in_progress_message deploy = stale_deploy
stale_operation_in_progress_message o = stale_operation o

unfoldable pub build_interrupt_message : Operation → Message
build_interrupt_message deploy = interrupted_run_deploy
build_interrupt_message destroy = interrupted_run_destroy
build_interrupt_message o = interrupted_run_start_or_stop o

abbrev pub not_initialized_status : StatusOutput
not_initialized_status = output status_not_initialized not_initialized_message

stopped_status : Result Bool → Option StatusOutput
stopped_status (err e) =
    if errors_is e is_host_unreachable
    then some (record {
      status = status_database_connection_failed;
      message = container_host_unreachable_message;
      error = some e;
    })
    else none
stopped_status (ok true) = none
stopped_status (ok false) = some (output status_stopped deployment_stopped_message)

abbrev selected_status : Option Error → Result Bool → Option StatusOutput
selected_status (some e) r = none
selected_status none r = stopped_status r

-- `localVMStoppedStatus`
unfoldable pub local_vm_stopped_status : Environment → Option StatusOutput
unfolding stopped_status
local_vm_stopped_status env =
    if env.is_local then selected_status env.select_runtime env.running_before else none

connection_status : Option Error → StatusOutput
connection_status (some e) = record {
  status = status_database_connection_failed;
  message = database_unreachable_message;
  error = some e;
}
connection_status none = output status_database_ready database_ready_message

checked_status : Option StatusOutput → Option Error → StatusOutput
unfolding connection_status
checked_status (some s) connection = s
checked_status none connection = connection_status connection

-- the `switch` of `GetStatus`
unfoldable pub status_of_state : State → Bool → Environment → StatusOutput
unfolding checked_status local_vm_stopped_status stale_operation_in_progress_message
    build_interrupt_message
status_of_state initialized check env = output status_initialized ready_for_deployment
status_of_state (interrupted e o) check env = record {
  status = status_interrupted;
  message = build_interrupt_message o;
  error = some e;
}
status_of_state (operation_in_progress o) check env =
    output status_operation_in_progress (stale_operation_in_progress_message o)
status_of_state (deployment_failed e) check env = record {
  status = status_deployment_failed;
  message = deployment_failed_message;
  error = some e;
}
status_of_state stopped check env = output status_stopped deployment_stopped_message
status_of_state running true env = checked_status (local_vm_stopped_status env) env.connection
status_of_state running false env = output status_running database_started_message

-- a missing state file is the status of a directory that is not initialized
abbrev not_initialized_or : Error → Result StatusOutput
not_initialized_or e =
    if errors_is e is_missing_config_file then ok not_initialized_status else err e

state_status : Result State → Bool → Environment → Result StatusOutput
unfolding status_of_state
state_status (err e) check env = not_initialized_or e
state_status (ok s) check env = ok (status_of_state s check env)

unfoldable pub get_status : StateFile → Bool → Environment → Result StatusOutput
unfolding read_state state_status get_workflow_state
get_status file check env = elim (read_state file) [
  | err e ↦ not_initialized_or e
  | ok w ↦ state_status (get_workflow_state w) check env
]

-- `newBlockedStateError`: the command's error, with the guidance of the status where there is one
unfoldable pub new_blocked_state_error : StateFile → Environment → Error → Error
unfolding get_status
new_blocked_state_error file env sentinel = elim (get_status file false env) [
  | err e ↦ sentinel
  | ok s ↦ blocked sentinel
]

-- An operation of which the name is empty counts as none.
operation_of : Result State → Option Operation
operation_of (ok (operation_in_progress (unknown []))) = none
operation_of (ok (operation_in_progress o)) = some o
operation_of _ = none

-- `lockedOperationName`
unfoldable pub locked_operation_name : StateFile → Option Operation
unfolding operation_of read_state get_workflow_state
locked_operation_name file = elim (read_state file) [
  | err e ↦ none
  | ok w ↦ operation_of (get_workflow_state w)
]

abbrev locked_error : Option Operation → Error
locked_error (some o) = deployment_directory_locked (active_operation o)
locked_error none = deployment_directory_locked lock_unavailable

unfoldable pub map_deployment_lock_error : StateFile → Error → Error
unfolding locked_operation_name
map_deployment_lock_error file e =
    if errors_is e is_canceled
    then e
    else if errors_is e is_acquire_timeout
    then locked_error (locked_operation_name file)
    else e

abbrev message_of : Option LockMessage → LockMessage
message_of none = lock_unavailable
message_of (some m) = m

-- `deploymentLockMessage`: the first locked error in the chain
unfoldable pub deployment_lock_message : Error → Option LockMessage
deployment_lock_message (deployment_directory_locked m) = some m
deployment_lock_message (join e f) = elim (deployment_lock_message e) [
  | some m ↦ some m
  | none ↦ deployment_lock_message f
]
deployment_lock_message (local_port_recovery s p e) = deployment_lock_message e
deployment_lock_message (local_retryable_failure o e) = deployment_lock_message e
deployment_lock_message (restore_failed e) = deployment_lock_message e
deployment_lock_message (deploy_failed e) = deployment_lock_message e
deployment_lock_message (blocked e) = deployment_lock_message e
deployment_lock_message _ = none

unfoldable pub status_from_lock_error : Error → Result StatusOutput
unfolding deployment_lock_message
status_from_lock_error e =
    if errors_is e is_not_exist
    then ok not_initialized_status
    else if errors_is e is_locked
    then ok (
        output status_operation_in_progress (lock_message (message_of (deployment_lock_message e))))
    else err e
