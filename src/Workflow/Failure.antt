-- ===== src/Workflow/Failure.antt =====
-- What a failed operation records: `markOperationInterrupted`, `recordLifecycleFailure`,
-- `restoreLocalStateAfterFailure` and `restoreStateAfterUnavailableLocalPort` of
-- internal/deploy/deploymentControl.go, `recordDeployFailure` of internal/deploy/deploy.go, and
-- `reconcileLocalVMState` of internal/deploy/local_runtime.go.
use exasol_personal.Common.{ℕ, Bool, true, false, Option, none, some, Bytes, if◌then◌else◌}
use exasol_personal.Errors.{
  Error, Operation, Result, ok, errors_is, is_host_unreachable, join, unavailable_port,
  local_port_recovery, local_retryable_failure, restore_failed, deploy_failed, blocked,
}
use exasol_personal.Workflow.State.{
  State, running, stopped, interrupted, deployment_failed, get_workflow_state,
}
use exasol_personal.Workflow.World.{
  World, set_and_write, Environment, Liveness, runtime_stopped, runtime_running, probe_liveness,
}

-- A step of a command: Go's `error` result, `none` for nil, and the world that it leaves.
abbrev pub Run : Type 0
Run = World → Option Error × World

-- `localports.AsUnavailable`: the first unavailable port in the error's chain
unfoldable pub as_unavailable : Error → Option (Bytes × ℕ)
as_unavailable (unavailable_port service port) = some (service, port)
as_unavailable (join e f) = elim (as_unavailable e) [ some u ↦ some u | none ↦ as_unavailable f ]
as_unavailable (local_port_recovery s p e) = as_unavailable e
as_unavailable (local_retryable_failure o e) = as_unavailable e
as_unavailable (restore_failed e) = as_unavailable e
as_unavailable (deploy_failed e) = as_unavailable e
as_unavailable (blocked e) = as_unavailable e
as_unavailable _ = none

-- A write that fails here is logged.
unfoldable pub mark_operation_interrupted : Operation → Error → Run
mark_operation_interrupted operation e w = (some e, (set_and_write (interrupted e operation) w).1)

-- the result of restoring a state, by whether it could be written
abbrev pub restored : Error → Error → Option Error → Option Error
restored e success none = some success
restored e success (some f) = some (join e (restore_failed f))

unfoldable pub port_restored : Option (Bytes × ℕ) → State → Error → Run
port_restored none prior e w = (some e, w)
port_restored (some (service, port)) prior e w =
    let (f, w') = set_and_write prior w in (restored e (local_port_recovery service port e) f, w')

unfoldable pub restore_after_unavailable_port : State → Error → Run
restore_after_unavailable_port prior e w = port_restored (as_unavailable e) prior e w

unfoldable pub prior_restored : Operation → State → Error → Run
prior_restored operation prior e w =
    let (f, w') = set_and_write prior w in (restored e (local_retryable_failure operation e) f, w')

-- A runtime that runs is stopped first.
unfoldable pub stop_and_restore : Environment → Liveness → Operation → State → Error → Run
stop_and_restore env runtime_running operation prior e w = elim env.stop_runtime [
  | some f ↦ mark_operation_interrupted operation e w
  | none ↦ prior_restored operation prior e w
]
stop_and_restore env l operation prior e w = prior_restored operation prior e w

abbrev pub is_unreachable : Option Error → Bool
is_unreachable none = false
is_unreachable (some e) = errors_is e is_host_unreachable

unfoldable pub restore_local_state_after_failure : Environment → Operation → State → Error → Run
restore_local_state_after_failure env operation prior e w =
    let (liveness, cause) = probe_liveness env env.running_after in
    if is_unreachable cause
    then mark_operation_interrupted operation e w
    else stop_and_restore env liveness operation prior e w

unfoldable pub record_lifecycle_failure : Environment → Operation → State → Error → Run
record_lifecycle_failure env operation prior e w = elim (as_unavailable e) [
  | some u ↦ restore_after_unavailable_port prior e w
  | none ↦
      if env.is_local
      then restore_local_state_after_failure env operation prior e w
      else mark_operation_interrupted operation e w
]

unfoldable pub record_deploy_failure : Error → Run
record_deploy_failure e w =
    (some (deploy_failed e), (set_and_write (deployment_failed (deploy_failed e)) w).1)

abbrev pub is_running : Result State → Bool
is_running (ok running) = true
is_running _ = false

abbrev pub is_stopped_runtime : Liveness → Bool
is_stopped_runtime runtime_stopped = true
is_stopped_runtime _ = false

unfoldable pub reconciled : Liveness × Option Error → Run
reconciled (liveness, cause) w =
    if is_unreachable cause
    then (cause, w)
    else if is_stopped_runtime liveness
    then set_and_write stopped w
    else (none, w)

-- `reconcileLocalVMState`: only a deployment that is recorded as running is corrected.
unfoldable pub reconcile_local_vm_state : Environment → Run
reconcile_local_vm_state env w =
    if env.is_local
    then (if is_running (get_workflow_state w.memory)
        then reconciled (probe_liveness env env.running_before) w
        else (none, w))
    else (none, w)
