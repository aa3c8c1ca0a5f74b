-- ===== src/Workflow/Diagram.antt =====
-- The states of a deployment as a diagram: which of start, stop and deploy may run in a state, and
-- which state each can leave. It is stated apart from the code in internal/deploy.
use exasol_personal.Common.{Bool, true, false, Option, none, if◌then◌else◌}
use exasol_personal.Errors.{Result, ok, Error, Operation, deploy, destroy, start, stop}
use exasol_personal.Workflow.State.{
  State, initialized, running, stopped, operation_in_progress, interrupted, deployment_failed,
}

-- the states in which a command does its work
pub data CanRun : Operation → State → Type 0 where
  start_stopped : CanRun start stopped
  start_retried : CanRun start (operation_in_progress start)
  start_interrupted : (e : Error) → CanRun start (interrupted e start)
  start_after_stop : (e : Error) → CanRun start (interrupted e stop)
  stop_running : CanRun stop running
  stop_retried : CanRun stop (operation_in_progress stop)
  stop_interrupted : (e : Error) → CanRun stop (interrupted e stop)
  stop_after_start : (e : Error) → CanRun stop (interrupted e start)
  stop_after_destroy : (e : Error) → CanRun stop (interrupted e destroy)
  deploy_initialized : CanRun deploy initialized
  deploy_failed_before : (e : Error) → CanRun deploy (deployment_failed e)
  deploy_running : CanRun deploy running
  deploy_retried : CanRun deploy (operation_in_progress deploy)
  deploy_interrupted : (e : Error) → CanRun deploy (interrupted e deploy)

-- the states that a command which did its work leaves
pub data Leaves : Operation → State → Type 0 where
  start_done : Leaves start running
  start_undone : Leaves start stopped
  start_cut : (e : Error) → Leaves start (interrupted e start)
  stop_done : Leaves stop stopped
  stop_cut : (e : Error) → Leaves stop (interrupted e stop)
  stop_stuck : Leaves stop (operation_in_progress stop)
  deploy_done : Leaves deploy running
  deploy_undone : Leaves deploy initialized
  deploy_broken : (e : Error) → Leaves deploy (deployment_failed e)
  deploy_stuck : Leaves deploy (operation_in_progress deploy)

-- Whether the runtime of a local deployment can be asked and says that it does not run.
abbrev pub is_down : Bool → Option Error → Result Bool → Bool
is_down true none (ok false) = true
is_down _ _ _ = false

-- What a recorded state counts as, for a command that asks the runtime first.
abbrev pub counted_as : Bool → State → State
counted_as down running = if down then stopped else running
counted_as down initialized = initialized
counted_as down stopped = stopped
counted_as down (operation_in_progress o) = operation_in_progress o
counted_as down (interrupted e o) = interrupted e o
counted_as down (deployment_failed e) = deployment_failed e

-- The way of one command: it stays or does its work.
pub data Moves (o : Operation) : State → State → Type 0 where
  stays : (s : State) → Moves o s s
  works : {s t : State} → CanRun o s → Leaves o t → Moves o s t
