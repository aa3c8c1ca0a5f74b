-- ===== src/Workflow/Commands/Completes.antt =====
-- Commands of which no step fails, on a remote deployment, reach their goal.
use exasol_personal.Common.{◌≡◌, refl, ◌∙◌, ap, false, Option, none, [], arith}
use exasol_personal.Errors.{Error, Result, ok, err, start, stop, deploy, destroy}
use exasol_personal.Workflow.State.{
  State, initialized, running, stopped, operation_in_progress, WorkflowState, get_workflow_state,
}
use exasol_personal.Workflow.World.{World, read_state, saved, Environment}
use exasol_personal.Workflow.Permits.{
  run_lifecycle_action, permits_start, permits_stop, permits_deploy,
}
use exasol_personal.Workflow.Failure.{Run, reconcile_local_vm_state}
use exasol_personal.Workflow.Commands.{
  unless_error, after, with_state, with_read, read_file, set_state, run_start_backend, start_run,
  start_decided, start_permitted, start_reconciled, start_locked, run_stop_backend, stop_permitted,
  stop_reconciled, stop_locked, finalize_successful_deploy, run_deploy_backend, deploy_permitted,
  deploy_from, deploy_locked, run_destroy_backend, destroy_locked,
}
use exasol_personal.Workflow.Commands.Held.{
  Holds, saved-Synced, written_to, Holds-world_of, Holds-set_and_write,
}

-- no step of a command on a remote deployment fails
pub record IsSmooth (env : Environment) : Type 0 where
  pub remote : env.is_local ≡ false
  pub manifest : env.manifest ≡ none
  pub install_manifest : env.install_manifest ≡ none
  pub options_valid : env.options_valid ≡ none
  pub new_backend : env.new_backend ≡ none
  pub prepare : env.prepare ≡ none
  pub database : env.database ≡ none
  pub sidecars : env.sidecars ≡ none
  pub install_steps : env.install_steps ≡ none
  pub instructions : env.instructions ≡ none
  pub write_instructions : env.write_instructions ≡ none
  pub sidecar_state : env.sidecar_state ≡ none

-- no error, and the state `t` is saved
record Reaches (t : State) (r : Option Error × World) : Type 0 where
  no_error : r.0 ≡ none
  held : Holds t r.1

Reaches-saved :
    (t : State) (r : Option Error × World) → Reaches t r → (r.0 ≡ none) × (saved r.1 ≡ ok t)
Reaches-saved t r x = (x.no_error, saved-Synced r.1 x.held.synced ∙ x.held.state)

-- From the state file to the world of a command.
read-Reaches :
    (t s : State) (next : Run) (w : World)
    → ((v : World) → v.disk ≡ w.disk → Holds s v → Reaches t (next v))
    → w.writes ≡ []
    → saved w ≡ ok s
    → Reaches t (with_read next w)
unfolding saved with_read read_file
read-Reaches t s next w going h p = go (read_state w.disk) refl p
  where
    go :
        (r : Result WorkflowState)
        → read_state w.disk ≡ r
        → (elim r as (λ _. Result State) [ err e ↦ err e | ok m ↦ get_workflow_state m ]) ≡ ok s
        → Reaches t (read_file r next w)
    go (err e) q p = absurd (ground arith)
    go (ok m) q p =
        going (record w { memory = m }) refl
          (record { synced = record { on_disk = q; no_faults = h }; state = p })

passed :
    (t : State) (e : Option Error) (next : Run) (w : World)
    → e ≡ none
    → Reaches t (next w)
    → Reaches t (unless_error e next w)
unfolding unless_error
passed t e next w h going = rw h going

module _ (env : Environment) (smooth : IsSmooth env) where
  stop_backend-Reaches : (w : World) → w.writes ≡ [] → Reaches stopped (run_stop_backend env w)
  unfolding run_stop_backend
  stop_backend-Reaches w h = passed stopped env.manifest _ w smooth.manifest (
      passed stopped env.new_backend _ w smooth.new_backend (
        rw smooth.database
          (record { no_error = smooth.sidecars; held = Holds-set_and_write stopped w h })))

  remote_after : (next : Run) (w : World) → after (reconcile_local_vm_state env w) next ≡ next w
  unfolding after reconcile_local_vm_state unless_error
  remote_after next w = rw smooth.remote refl

  from_state :
      (t s : State) (next : State → Run) (w : World)
      → Holds s w
      → Reaches t (next s w)
      → Reaches t (with_state (get_workflow_state w.memory) next w)
  unfolding with_state
  from_state t s next w h going = rw (h.state, with_state) going

  stop-Reaches :
      (s : State) (w : World)
      → Holds s w
      → permits_stop s ≡ run_lifecycle_action
      → Reaches stopped (stop_permitted env s w)
  unfolding stop_permitted
  stop-Reaches s w h p = rw p (
      stop_backend-Reaches _
        (Holds-set_and_write (operation_in_progress stop) w h.synced.no_faults).synced.no_faults)

  start-Reaches :
      (s : State) (w : World)
      → Holds s w
      → permits_start s w.disk env ≡ ok run_lifecycle_action
      → Reaches running (start_permitted env s w)
  unfolding start_permitted start_decided start_run run_start_backend
  start-Reaches s w h p =
      let v = set_state (operation_in_progress start) w in
      let kept = Holds-set_and_write (operation_in_progress start) w h.synced.no_faults in
      rw p (
        passed running env.manifest _ w smooth.manifest (
          passed running env.new_backend _ w smooth.new_backend (
            passed running env.prepare _ w smooth.prepare (
              rw smooth.database (
                passed running env.instructions _ _ smooth.instructions (record {
                  no_error = rw (smooth.write_instructions, smooth.sidecars) refl;
                  held = Holds-set_and_write running v kept.synced.no_faults;
                }))))))

  finalize-Reaches :
      (w : World) → w.writes ≡ [] → Reaches running (finalize_successful_deploy env w)
  unfolding finalize_successful_deploy after unless_error
  finalize-Reaches w h =
      rw (written_to running w h, smooth.instructions)
        (record { no_error = smooth.write_instructions; held = Holds-world_of running })

  deploy-Reaches :
      (s : State) (w : World)
      → Holds s w
      → permits_deploy s w.disk env ≡ none
      → Reaches running (deploy_from env s w)
  unfolding deploy_from deploy_permitted run_deploy_backend
  deploy-Reaches s w h p =
      let kept = Holds-set_and_write (operation_in_progress deploy) w h.synced.no_faults in
      passed running _ _ w p (
        passed running _ _ w smooth.manifest (
          passed running _ _ w smooth.options_valid (
            passed running _ _ w smooth.new_backend (
              passed running _ _ w smooth.prepare (
                passed running _ _ _ smooth.install_manifest (
                  rw (smooth.database, smooth.install_steps)
                    (finalize-Reaches _ kept.synced.no_faults)))))))

  destroy-Reaches : (w : World) → w.writes ≡ [] → Reaches initialized (run_destroy_backend env w)
  unfolding run_destroy_backend
  destroy-Reaches w h =
      rw (smooth.manifest, smooth.new_backend, smooth.database)
        (passed initialized env.sidecar_state _ w smooth.sidecar_state (record {
          no_error = ap (λ (p : Option Error × World). p.0) (written_to initialized w h);
          held = Holds-set_and_write initialized w h;
        }))

-- A permitted `start` of a remote deployment of which no step fails reports no error and leaves the
-- deployment saved as running.
pub start_completes :
    (env : Environment) (w : World) (s : State)
    → IsSmooth env
    → w.writes ≡ []
    → saved w ≡ ok s
    → permits_start s w.disk env ≡ ok run_lifecycle_action
    → ((start_locked env w).0 ≡ none) × (saved (start_locked env w).1 ≡ ok running)
unfolding start_locked start_reconciled
start_completes env w s smooth h p permitted = Reaches-saved running _ (
    read-Reaches running s _ w
      (λ v same held. rw (remote_after env smooth (start_reconciled env) v) (
        from_state env smooth running s (start_permitted env) v held
          (start-Reaches env smooth s v held (rw same permitted))))
      h p)

-- A permitted `stop` of a remote deployment of which no step fails reports no error and leaves the
-- deployment saved as stopped.
pub stop_completes :
    (env : Environment) (w : World) (s : State)
    → IsSmooth env
    → w.writes ≡ []
    → saved w ≡ ok s
    → permits_stop s ≡ run_lifecycle_action
    → ((stop_locked env w).0 ≡ none) × (saved (stop_locked env w).1 ≡ ok stopped)
unfolding stop_locked stop_reconciled
stop_completes env w s smooth h p permitted = Reaches-saved stopped _ (
    read-Reaches stopped s _ w
      (λ v same held. rw (remote_after env smooth (stop_reconciled env) v) (
        from_state env smooth stopped s (stop_permitted env) v held
          (stop-Reaches env smooth s v held permitted)))
      h p)

-- A permitted `deploy` of which no step fails reports no error and leaves the deployment saved as
-- running.
pub deploy_completes :
    (env : Environment) (w : World) (s : State)
    → IsSmooth env
    → w.writes ≡ []
    → saved w ≡ ok s
    → permits_deploy s w.disk env ≡ none
    → ((deploy_locked env w).0 ≡ none) × (saved (deploy_locked env w).1 ≡ ok running)
unfolding deploy_locked
deploy_completes env w s smooth h p permitted = Reaches-saved running _ (
    read-Reaches running s _ w
      (λ v same held.
        from_state env smooth running s (deploy_from env) v held
          (deploy-Reaches env smooth s v held (rw same permitted)))
      h p)

-- `destroy` of which no step fails reports no error and leaves the deployment saved as initialized,
-- whatever its state was.
pub destroy_completes :
    (env : Environment) (w : World) (s : State)
    → IsSmooth env
    → w.writes ≡ []
    → saved w ≡ ok s
    → ((destroy_locked env w).0 ≡ none) × (saved (destroy_locked env w).1 ≡ ok initialized)
unfolding destroy_locked
destroy_completes env w s smooth h p = Reaches-saved initialized _ (
    read-Reaches initialized s _ w
      (λ v same held.
        destroy-Reaches env smooth _
          (Holds-set_and_write (operation_in_progress destroy) v
            held.synced.no_faults).synced.no_faults)
      h p)
