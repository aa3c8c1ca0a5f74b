-- ===== src/Workflow/Commands/Moves/Deploy.antt =====
-- `deploy` (internal/deploy/deploy.go) moves along the diagram.
use exasol_personal.Common.{◌≡◌, refl, Option, none, some, [], arith, Bytes, ℕ}
use exasol_personal.Errors.{Error, ok, deploy, deploy_failed}
use exasol_personal.Workflow.State.{
  State, initialized, running, stopped, operation_in_progress, interrupted, deployment_failed,
}
use exasol_personal.Workflow.World.{World, StateFile, saved, Environment}
use exasol_personal.Workflow.Failure.{
  record_deploy_failure, as_unavailable, restore_after_unavailable_port,
}
use exasol_personal.Workflow.Commands.Rules.{unless_error_rule}
use exasol_personal.Workflow.Commands.Held.{
  Holds, Left, Holds-set_and_write, restore_port_Left, written_to, world_of, Holds-world_of,
}
use exasol_personal.Workflow.Commands.Moves.{
  read-Moves, stays_Left, works_Left, guard_Left, with_state-Left,
}
use exasol_personal.Workflow.Permits.{permits_deploy, deploy_refusal}
use exasol_personal.Workflow.Diagram.{
  CanRun, deploy_initialized, deploy_failed_before, deploy_running, deploy_retried,
  deploy_interrupted, Leaves, deploy_done, deploy_undone, deploy_broken, deploy_stuck, Moves,
}
use exasol_personal.Workflow.Commands.{
  unless_error, after, finalize_successful_deploy, deploy_database_failed, run_deploy_backend,
  deploy_permitted, deploy_from, deploy_locked,
}

pub permits_deploy-CanRun :
    (s : State) (file : StateFile) (env : Environment)
    → permits_deploy s file env ≡ none
    → CanRun deploy s
unfolding permits_deploy deploy_refusal
permits_deploy-CanRun initialized file env h = deploy_initialized
permits_deploy-CanRun running file env h = deploy_running
permits_deploy-CanRun stopped file env h = absurd (ground arith)
permits_deploy-CanRun (deployment_failed e) file env h = deploy_failed_before e
permits_deploy-CanRun (operation_in_progress deploy) file env h = deploy_retried
permits_deploy-CanRun (operation_in_progress o) file env h = absurd (ground arith)
permits_deploy-CanRun (interrupted e deploy) file env h = deploy_interrupted e
permits_deploy-CanRun (interrupted e o) file env h = absurd (ground arith)

module _ (env : Environment) where
  finalize_Left :
      (w : World) → w.writes ≡ [] → Left (Leaves deploy) (finalize_successful_deploy env w)
  unfolding finalize_successful_deploy after unless_error
  finalize_Left w h = rw (written_to running w h) (
      unless_error_rule (Left (Leaves deploy)) env.instructions _ _ (λ x _. ran (some x))
        (λ _. ran _))
    where
      ran : (e : Option Error) → Left (Leaves deploy) (e, world_of running)
      ran e = record { state = running; held = Holds-world_of running; allowed = deploy_done }

  record_Left :
      (e : Error) (w : World) → w.writes ≡ [] → Left (Leaves deploy) (record_deploy_failure e w)
  unfolding record_deploy_failure
  record_Left e w h = record {
    state = deployment_failed (deploy_failed e);
    held = Holds-set_and_write (deployment_failed (deploy_failed e)) w h;
    allowed = deploy_broken (deploy_failed e);
  }

  database_Left :
      (e : Error) (w : World)
      → w.writes ≡ []
      → Left (Leaves deploy) (deploy_database_failed env e w)
  unfolding deploy_database_failed
  database_Left e w h = go (as_unavailable e) refl
    where
      go :
          (u : Option (Bytes × ℕ))
          → as_unavailable e ≡ u
          → Left (Leaves deploy) (elim u [
            | some u ↦ restore_after_unavailable_port initialized e w
            | none ↦ record_deploy_failure e w
          ])
      go (some u) p = restore_port_Left initialized (Leaves deploy) deploy_undone e w u p h
      go none p = record_Left e w h

  backend_Left :
      (w : World)
      → Holds (operation_in_progress deploy) w
      → Left (Leaves deploy) (run_deploy_backend env w)
  unfolding run_deploy_backend
  backend_Left w h =
      unless_error_rule (Left (Leaves deploy)) env.install_manifest _ w
        (λ x _. record { state = operation_in_progress deploy; held = h; allowed = deploy_stuck })
        (λ _. go env.database)
    where
      installed :
          (i : Option Error)
          → Left (Leaves deploy) (elim i [
            | some e ↦ record_deploy_failure e w
            | none ↦ finalize_successful_deploy env w
          ])
      installed (some e) = record_Left e w h.synced.no_faults
      installed none = finalize_Left w h.synced.no_faults

      go :
          (d : Option Error)
          → Left (Leaves deploy) (elim d [
            | some e ↦ deploy_database_failed env e w
            | none ↦ elim env.install_steps [
              | some e ↦ record_deploy_failure e w
              | none ↦ finalize_successful_deploy env w
            ]
          ])
      go (some e) = database_Left e w h.synced.no_faults
      go none = installed env.install_steps

  permitted_Left :
      (s : State) (w : World)
      → Holds s w
      → CanRun deploy s
      → Left (Moves deploy s) (deploy_permitted env w)
  unfolding deploy_permitted
  permitted_Left s w h can = guard_Left deploy s env.manifest _ w h (
      guard_Left deploy s env.options_valid _ w h (
        guard_Left deploy s env.new_backend _ w h (
          guard_Left deploy s env.prepare _ w h (
            works_Left deploy s _ can (
              backend_Left _
                (Holds-set_and_write (operation_in_progress deploy) w h.synced.no_faults))))))

  from_Left : (s : State) (w : World) → Holds s w → Left (Moves deploy s) (deploy_from env s w)
  unfolding deploy_from
  from_Left s w h =
      unless_error_rule (Left (Moves deploy s)) (permits_deploy s w.disk env) _ w
        (λ x _. stays_Left deploy s (some x) w h)
        (λ p. permitted_Left s w h (permits_deploy-CanRun s w.disk env p))

-- Where the state file holds the state `s` and every write succeeds, `deploy` leaves a state that
-- the diagram allows it: it stays in `s`, or it may run there and ends running, initialized again,
-- failed or still in progress.
pub deploy-Moves :
    (env : Environment) (w : World) (s : State)
    → w.writes ≡ []
    → saved w ≡ ok s
    → (t : State) × (saved (deploy_locked env w).1 ≡ ok t) × Moves deploy s t
unfolding deploy_locked
deploy-Moves env w s h p =
    read-Moves (Moves deploy s) _ w s
      (λ v held. with_state-Left deploy s (deploy_from env) v held (from_Left env s v held)) h p
