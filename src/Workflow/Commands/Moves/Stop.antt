-- ===== src/Workflow/Commands/Moves/Stop.antt =====
-- `stop` (internal/deploy/deploymentControl.go) moves along the diagram.
use exasol_personal.Common.{
  ◌≡◌, refl, Bool, true, false, Option, none, some, [], arith, if◌then◌else◌,
}
use exasol_personal.Errors.{Error, ok, start, stop, destroy}
use exasol_personal.Workflow.State.{
  State, initialized, running, stopped, operation_in_progress, interrupted, deployment_failed,
}
use exasol_personal.Workflow.World.{World, saved, Environment}
use exasol_personal.Workflow.Failure.{Run, record_lifecycle_failure}
use exasol_personal.Workflow.Commands.Rules.{unless_error_rule}
use exasol_personal.Workflow.Commands.Held.{Holds, Left, Holds-set_and_write, failure_Left}
use exasol_personal.Workflow.Commands.Moves.{
  read-Moves, stays_Left, works_Left, with_state-Left, reconcile_Left, runtime_down,
}
use exasol_personal.Workflow.Permits.{permits_stop}
use exasol_personal.Workflow.Diagram.{
  CanRun, stop_running, stop_retried, stop_interrupted, stop_after_start, stop_after_destroy,
  Leaves, stop_done, stop_cut, stop_stuck, Moves, counted_as,
}
use exasol_personal.Workflow.Commands.{
  unless_error, set_state, run_stop_backend, cleanup_stopped_sidecars, stop_permitted,
  stop_reconciled, stop_locked,
}

pub permits_stop-CanRun : (s : State) → (permits_stop s).should_run ≡ true → CanRun stop s
unfolding permits_stop
permits_stop-CanRun initialized h = absurd (ground arith)
permits_stop-CanRun running h = stop_running
permits_stop-CanRun stopped h = absurd (ground arith)
permits_stop-CanRun (deployment_failed e) h = absurd (ground arith)
permits_stop-CanRun (operation_in_progress stop) h = stop_retried
permits_stop-CanRun (operation_in_progress o) h = absurd (ground arith)
permits_stop-CanRun (interrupted e start) h = stop_after_start e
permits_stop-CanRun (interrupted e stop) h = stop_interrupted e
permits_stop-CanRun (interrupted e destroy) h = stop_after_destroy e
permits_stop-CanRun (interrupted e o) h = absurd (ground arith)

module _ (env : Environment) where
  backend_Left :
      (w : World)
      → Holds (operation_in_progress stop) w
      → Left (Leaves stop) (run_stop_backend env w)
  unfolding run_stop_backend
  backend_Left w h = guarded env.manifest _ (guarded env.new_backend _ (go env.database))
    where
      guarded :
          (e : Option Error) (next : Run)
          → Left (Leaves stop) (next w)
          → Left (Leaves stop) (unless_error e next w)
      guarded e next going =
          unless_error_rule (Left (Leaves stop)) e next w
            (λ x _. record { state = operation_in_progress stop; held = h; allowed = stop_stuck })
            (λ _. going)

      go :
          (d : Option Error)
          → Left (Leaves stop) (elim d [
            | some e ↦ record_lifecycle_failure env stop stopped e w
            | none ↦ (env.sidecars, set_state stopped w)
          ])
      go (some e) =
          failure_Left env stop stopped (Leaves stop) stop_done stop_cut e w h.synced.no_faults
      go none = record {
        state = stopped;
        held = Holds-set_and_write stopped w h.synced.no_faults;
        allowed = stop_done;
      }

  permitted_Left :
      (s : State) (w : World) → Holds s w → Left (Moves stop s) (stop_permitted env s w)
  unfolding stop_permitted cleanup_stopped_sidecars
  permitted_Left s w h = go (permits_stop s).should_run (permits_stop-CanRun s)
    where
      go :
          (b : Bool)
          → (b ≡ true → CanRun stop s)
          → Left (Moves stop s) (
              if b
              then run_stop_backend env (set_state (operation_in_progress stop) w)
              else cleanup_stopped_sidecars env w)
      go true can =
          works_Left stop s _ (can refl)
            (backend_Left _ (Holds-set_and_write (operation_in_progress stop) w h.synced.no_faults))
      go false can = stays_Left stop s _ w h

  reconciled_stop_Left :
      (s : State) (w : World) → Holds s w → Left (Moves stop s) (stop_reconciled env w)
  unfolding stop_reconciled
  reconciled_stop_Left s w h =
      with_state-Left stop s (stop_permitted env) w h (permitted_Left s w h)

-- Where the state file holds a state and every write succeeds, `stop` leaves a state that the diagram
-- allows it from the state that this one counts as, which is stopped for a running local deployment
-- of which the runtime can be asked and is down, and the state itself otherwise: it stays there, or
-- it may run there and ends stopped, interrupted or still in progress.
pub stop-Moves :
    (env : Environment) (w : World) (s : State)
    → w.writes ≡ []
    → saved w ≡ ok s
    → (t : State) × (saved (stop_locked env w).1 ≡ ok t)
      × Moves stop (counted_as (runtime_down env) s) t
unfolding stop_locked
stop-Moves env w s h p =
    read-Moves (Moves stop (counted_as (runtime_down env) s)) _ w s
      (reconcile_Left env stop (stop_reconciled env) (reconciled_stop_Left env) s) h p
