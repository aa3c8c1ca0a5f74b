-- ===== src/Workflow/Commands/Moves/Start.antt =====
-- `start` (internal/deploy/deploymentControl.go) moves along the diagram.
use exasol_personal.Common.{
  ◌≡◌, refl, Bool, true, false, Option, none, some, [], arith, if◌then◌else◌,
}
use exasol_personal.Errors.{Error, Result, ok, err, start, stop, join_errors}
use exasol_personal.Workflow.State.{
  State, initialized, running, stopped, operation_in_progress, interrupted, deployment_failed,
}
use exasol_personal.Workflow.World.{World, StateFile, saved, Environment}
use exasol_personal.Workflow.Diagram.{
  CanRun, start_stopped, start_retried, start_interrupted, start_after_stop, Leaves, start_done,
  start_undone, start_cut, Moves, counted_as,
}
use exasol_personal.Workflow.Permits.{Decision, permits_start}
use exasol_personal.Workflow.Failure.{record_lifecycle_failure}
use exasol_personal.Workflow.Commands.Rules.{unless_error_rule}
use exasol_personal.Workflow.Commands.{
  unless_error, set_state, run_start_backend, start_run, start_skipped, start_decided,
  start_permitted, start_reconciled, start_locked,
}
use exasol_personal.Workflow.Commands.Held.{Holds, Left, Holds-set_and_write, failure_Left}
use exasol_personal.Workflow.Commands.Moves.{
  read-Moves, stays_Left, works_Left, guard_Left, with_state-Left, reconcile_Left, runtime_down,
}

-- A decision to run is taken in a state of the diagram only.
pub permits_start-CanRun :
    (s : State) (file : StateFile) (env : Environment) (d : Decision)
    → permits_start s file env ≡ ok d
    → d.should_run ≡ true
    → CanRun start s
unfolding permits_start
permits_start-CanRun initialized file env d p h = absurd (ground arith)
permits_start-CanRun stopped file env d p h = start_stopped
permits_start-CanRun running file env d p h = absurd (ground arith)
permits_start-CanRun (deployment_failed e) file env d p h = absurd (ground arith)
permits_start-CanRun (operation_in_progress start) file env d p h = start_retried
permits_start-CanRun (operation_in_progress o) file env d p h = absurd (ground arith)
permits_start-CanRun (interrupted e start) file env d p h = start_interrupted e
permits_start-CanRun (interrupted e stop) file env d p h = start_after_stop e
permits_start-CanRun (interrupted e o) file env d p h = absurd (ground arith)

module _ (env : Environment) where
  backend_Left : (w : World) → w.writes ≡ [] → Left (Leaves start) (run_start_backend env w)
  unfolding run_start_backend
  backend_Left w h = go env.database
    where
      running_Left : (e : Option Error) → Left (Leaves start) (e, set_state running w)
      running_Left e = record {
        state = running;
        held = Holds-set_and_write running w h;
        allowed = start_done;
      }

      go :
          (d : Option Error)
          → Left (Leaves start) (elim d [
            | some e ↦ record_lifecycle_failure env start stopped e w
            | none ↦
                unless_error env.instructions
                  (λ w. (join_errors env.write_instructions env.sidecars, w))
                  (set_state running w)
          ])
      go (some e) = failure_Left env start stopped (Leaves start) start_undone start_cut e w h
      go none =
          unless_error_rule (Left (Leaves start)) env.instructions _ _
            (λ x _. running_Left (some x)) (λ _. running_Left _)

  run_Left :
      (s : State) (w : World) → Holds s w → CanRun start s → Left (Moves start s) (start_run env w)
  unfolding start_run
  run_Left s w h can = guard_Left start s env.manifest _ w h (
      guard_Left start s env.new_backend _ w h (
        guard_Left start s env.prepare _ w h (
          works_Left start s _ can (
            backend_Left _
              (Holds-set_and_write (operation_in_progress start) w
                h.synced.no_faults).synced.no_faults))))

  skipped_Left :
      (s : State) (d : Decision) (w : World)
      → Holds s w
      → Left (Moves start s) (start_skipped env s d w)
  unfolding start_skipped
  skipped_Left s d w h = guard_Left start s _ _ w h (stays_Left start s _ w h)

  decided_Left :
      (s : State) (r : Result Decision) (w : World)
      → Holds s w
      → ((d : Decision) → r ≡ ok d → d.should_run ≡ true → CanRun start s)
      → Left (Moves start s) (start_decided env s r w)
  unfolding start_decided
  decided_Left s (err e) w h can = stays_Left start s (some e) w h
  decided_Left s (ok d) w h can = go d.should_run (can d refl)
    where
      go :
          (b : Bool)
          → (b ≡ true → CanRun start s)
          → Left (Moves start s) (if b then start_run env w else start_skipped env s d w)
      go true can = run_Left s w h (can refl)
      go false can = skipped_Left s d w h

  reconciled_start-Left :
      (s : State) (w : World) → Holds s w → Left (Moves start s) (start_reconciled env w)
  unfolding start_reconciled start_permitted
  reconciled_start-Left s w h =
      with_state-Left start s (start_permitted env) w h
        (decided_Left s (permits_start s w.disk env) w h (permits_start-CanRun s w.disk env))

-- Where the state file holds a state and every write succeeds, `start` leaves a state that the
-- diagram allows it from the state that this one counts as, which is stopped for a running local
-- deployment of which the runtime can be asked and is down, and the state itself otherwise: it stays
-- there, or it may run there and ends running, stopped or interrupted.
pub start-Moves :
    (env : Environment) (w : World) (s : State)
    → w.writes ≡ []
    → saved w ≡ ok s
    → (t : State) × (saved (start_locked env w).1 ≡ ok t)
      × Moves start (counted_as (runtime_down env) s) t
unfolding start_locked
start-Moves env w s h p =
    read-Moves (Moves start (counted_as (runtime_down env) s)) _ w s
      (reconcile_Left env start (start_reconciled env) (reconciled_start-Left env) s) h p
