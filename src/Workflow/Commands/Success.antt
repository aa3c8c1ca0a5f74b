-- ===== src/Workflow/Commands/Success.antt =====
-- What a command that reports success has saved.
use exasol_personal.Common.{◌≡◌, ◌≢◌, Option, none, some, arith}
use exasol_personal.Errors.{Error, ok}
use exasol_personal.Workflow.State.{State, initialized, running, get_workflow_state}
use exasol_personal.Workflow.World.{World, saved, Environment, saved-set_and_write}
use exasol_personal.Workflow.Failure.{
  mark_operation_interrupted, port_restored, restore_after_unavailable_port, record_deploy_failure,
}
use exasol_personal.Workflow.Commands.Rules.{past_error, past_state, past_read}
use exasol_personal.Workflow.Commands.{
  unless_error, after, deploy_from, deploy_permitted, deploy_database_failed, run_destroy_backend,
  destroy_locked, run_deploy_backend, finalize_successful_deploy, deploy_locked,
}

-- with no error, the state `s` is saved
record Saves (s : State) (r : Option Error × World) : Type 0 where
  saves : r.0 ≡ none → saved r.1 ≡ ok s

failed : (s : State) (x : Error) (w : World) → Saves s (some x, w)
failed s x w = record { saves = λ h. cc }

run_destroy_done : (env : Environment) (w : World) → Saves initialized (run_destroy_backend env w)
unfolding run_destroy_backend unless_error mark_operation_interrupted
run_destroy_done env w = record { saves = λ h. ground (arith, saved-set_and_write initialized w) }

-- If `destroy` reports no error, the deployment is saved as initialized, from which it can be
-- deployed again.
pub destroy_success :
    (env : Environment) (w : World)
    → (destroy_locked env w).0 ≡ none
    → saved (destroy_locked env w).1 ≡ ok initialized
unfolding destroy_locked
destroy_success env w =
    (past_read (Saves initialized) (failed initialized) _ w (λ m. run_destroy_done env _)).saves

finalize_done : (env : Environment) (w : World) → Saves running (finalize_successful_deploy env w)
unfolding finalize_successful_deploy after unless_error
finalize_done env w = record { saves = λ h. ground (arith, saved-set_and_write running w) }

restore_result :
    (s : State) (e : Error) (w : World) → (restore_after_unavailable_port s e w).0 ≢ none
unfolding restore_after_unavailable_port port_restored
restore_result s e w h = ground arith

deploy_failure_result : (e : Error) (w : World) → (record_deploy_failure e w).0 ≢ none
unfolding record_deploy_failure
deploy_failure_result e w h = cc

deploy_database_result :
    (env : Environment) (e : Error) (w : World) → (deploy_database_failed env e w).0 ≢ none
unfolding deploy_database_failed record_deploy_failure
deploy_database_result env e w h = ground (arith, restore_result initialized e w)

run_deploy_done : (env : Environment) (w : World) → Saves running (run_deploy_backend env w)
unfolding run_deploy_backend
run_deploy_done env w =
    past_error (Saves running) (failed running) env.install_manifest _ w
      (go env.database env.install_steps)
  where
    go :
        (d i : Option Error)
        → Saves running (elim d [
          | some e ↦ deploy_database_failed env e w
          | none ↦ elim i [
            | some e ↦ record_deploy_failure e w
            | none ↦ finalize_successful_deploy env w
          ]
        ])
    go (some e) i = record { saves = λ h. absurd (deploy_database_result env e w h) }
    go none (some e) = record { saves = λ h. absurd (deploy_failure_result e w h) }
    go none none = finalize_done env w

-- If `deploy` reports no error, the deployment is saved as running, whichever writes of the state file
-- fail or cut it.
pub deploy_success :
    (env : Environment) (w : World)
    → (deploy_locked env w).0 ≡ none
    → saved (deploy_locked env w).1 ≡ ok running
unfolding deploy_locked deploy_from deploy_permitted
deploy_success env w =
    let past = past_error (Saves running) (failed running) in
    (past_read (Saves running) (failed running) _ w λ m.
      past_state (Saves running) (failed running) (get_workflow_state m) _ _ λ s. past _ _ _ (
        past env.manifest _ _ (
          past env.options_valid _ _
            (past env.new_backend _ _ (past env.prepare _ _ (run_deploy_done env _)))))).saves
