-- ===== src/Workflow/Commands/Retry.antt =====
-- A command that did not reach its goal can be run again: what its `workflowStatePermits…` function
-- (internal/deploy) says of the state that the command has left.
use exasol_personal.Common.{◌≡◌, refl, ap, subst, Bool, true, false, none, [], ◌⊎◌, inl, inr}
use exasol_personal.Errors.{ok, start, stop, deploy}
use exasol_personal.Workflow.State.{State, running, stopped}
use exasol_personal.Workflow.World.{World, StateFile, saved, Environment}
use exasol_personal.Workflow.Diagram.{
  CanRun, start_stopped, start_retried, start_interrupted, start_after_stop, stop_running,
  stop_retried, stop_interrupted, stop_after_start, stop_after_destroy, deploy_initialized,
  deploy_failed_before, deploy_running, deploy_retried, deploy_interrupted, start_done,
  start_undone, start_cut, stop_done, stop_cut, stop_stuck, deploy_done, deploy_undone,
  deploy_broken, deploy_stuck, Moves, stays, works, counted_as,
}
use exasol_personal.Workflow.Permits.{
  run_lifecycle_action, permits_start, permits_stop, permits_deploy, deploy_refusal,
}
use exasol_personal.Workflow.Commands.{start_locked, stop_locked, deploy_locked}
use exasol_personal.Workflow.Commands.Moves.{runtime_down}
use exasol_personal.Workflow.Commands.Moves.Start.{permits_start-CanRun, start-Moves}
use exasol_personal.Workflow.Commands.Moves.Stop.{permits_stop-CanRun, stop-Moves}
use exasol_personal.Workflow.Commands.Moves.Deploy.{permits_deploy-CanRun, deploy-Moves}

CanRun-permits_start :
    {s : State} (file : StateFile) (env : Environment)
    → CanRun start s
    → permits_start s file env ≡ ok run_lifecycle_action
unfolding permits_start
CanRun-permits_start file env start_stopped = refl
CanRun-permits_start file env start_retried = refl
CanRun-permits_start file env (start_interrupted e) = refl
CanRun-permits_start file env (start_after_stop e) = refl

CanRun-permits_stop : {s : State} → CanRun stop s → permits_stop s ≡ run_lifecycle_action
unfolding permits_stop
CanRun-permits_stop stop_running = refl
CanRun-permits_stop stop_retried = refl
CanRun-permits_stop (stop_interrupted e) = refl
CanRun-permits_stop (stop_after_start e) = refl
CanRun-permits_stop (stop_after_destroy e) = refl

CanRun-permits_deploy :
    {s : State} (file : StateFile) (env : Environment)
    → CanRun deploy s
    → permits_deploy s file env ≡ none
unfolding permits_deploy deploy_refusal
CanRun-permits_deploy file env deploy_initialized = refl
CanRun-permits_deploy file env (deploy_failed_before e) = refl
CanRun-permits_deploy file env deploy_running = refl
CanRun-permits_deploy file env deploy_retried = refl
CanRun-permits_deploy file env (deploy_interrupted e) = refl

-- where a command may run, and is not a start of a running deployment
start_counted : (down : Bool) {s : State} → CanRun start s → counted_as down s ≡ s
start_counted down start_stopped = refl
start_counted down start_retried = refl
start_counted down (start_interrupted e) = refl
start_counted down (start_after_stop e) = refl

start_again : {s t : State} → Moves start s t → CanRun start s → (t ≡ running) ⊎ CanRun start t
start_again (stays s) can = inr can
start_again (works c start_done) can = inl refl
start_again (works c start_undone) can = inr start_stopped
start_again (works c (start_cut e)) can = inr (start_interrupted e)

stop_from_stopped : {t : State} → Moves stop stopped t → t ≡ stopped
stop_from_stopped (stays s) = refl
stop_from_stopped (works can l) = elim can [ ]

stop_from : {s t : State} → Moves stop s t → CanRun stop s → (t ≡ stopped) ⊎ CanRun stop t
stop_from (stays s) can = inr can
stop_from (works c stop_done) can = inl refl
stop_from (works c (stop_cut e)) can = inr (stop_interrupted e)
stop_from (works c stop_stuck) can = inr stop_retried

stop_again :
    (down : Bool) {s t : State}
    → Moves stop (counted_as down s) t
    → CanRun stop s
    → (t ≡ stopped) ⊎ CanRun stop t
stop_again true m stop_running = inl (stop_from_stopped m)
stop_again false m stop_running = stop_from m stop_running
stop_again down m stop_retried = stop_from m stop_retried
stop_again down m (stop_interrupted e) = stop_from m (stop_interrupted e)
stop_again down m (stop_after_start e) = stop_from m (stop_after_start e)
stop_again down m (stop_after_destroy e) = stop_from m (stop_after_destroy e)

deploy_again : {s t : State} → Moves deploy s t → CanRun deploy s → CanRun deploy t
deploy_again (stays s) can = can
deploy_again (works c deploy_done) can = deploy_running
deploy_again (works c deploy_undone) can = deploy_initialized
deploy_again (works c (deploy_broken e)) can = deploy_failed_before e
deploy_again (works c deploy_stuck) can = deploy_retried

-- the goal, or what follows from the state in which the command can run
goal_or {ℓ κ ν} : {A : Type ℓ} {B : Type κ} {C : Type ν} → (B → C) → A ⊎ B → A ⊎ C
goal_or f (inl a) = inl a
goal_or f (inr b) = inr (f b)

-- If `start` was permitted and every write succeeds, then afterwards the deployment is saved as
-- running, or in a state in which `start` is permitted again.
pub start_retry :
    (env : Environment) (w : World) (s : State)
    → w.writes ≡ []
    → saved w ≡ ok s
    → permits_start s w.disk env ≡ ok run_lifecycle_action
    → (t : State) × (saved (start_locked env w).1 ≡ ok t)
      × ((t ≡ running)
          ⊎ ((file : StateFile) (env : Environment)
              → permits_start t file env ≡ ok run_lifecycle_action))
start_retry env w s h p permitted =
    let (t, q, m) = start-Moves env w s h p in
    let can = permits_start-CanRun s w.disk env _ permitted refl in
    (
      t,
      q,
      goal_or (λ can file env'. CanRun-permits_start file env' can)
          (start_again (subst (λ u. Moves start u t) (start_counted (runtime_down env) can) m) can),
    )

-- If `stop` was permitted and every write succeeds, then afterwards the deployment is saved as
-- stopped, or in a state in which `stop` is permitted again.
pub stop_retry :
    (env : Environment) (w : World) (s : State)
    → w.writes ≡ []
    → saved w ≡ ok s
    → permits_stop s ≡ run_lifecycle_action
    → (t : State) × (saved (stop_locked env w).1 ≡ ok t)
      × ((t ≡ stopped) ⊎ (permits_stop t ≡ run_lifecycle_action))
stop_retry env w s h p permitted =
    let (t, q, m) = stop-Moves env w s h p in
    (
      t,
      q,
      goal_or CanRun-permits_stop (
          stop_again (runtime_down env) m
            (permits_stop-CanRun s (ap (λ d. d.should_run) permitted))),
    )

-- If `deploy` was permitted and every write succeeds, then afterwards the deployment is saved in a
-- state in which `deploy` is permitted again, however it went.
pub deploy_retry :
    (env : Environment) (w : World) (s : State)
    → w.writes ≡ []
    → saved w ≡ ok s
    → permits_deploy s w.disk env ≡ none
    → (t : State) × (saved (deploy_locked env w).1 ≡ ok t)
      × ((file : StateFile) (env : Environment) → permits_deploy t file env ≡ none)
deploy_retry env w s h p permitted =
    let (t, q, m) = deploy-Moves env w s h p in
    (
      t,
      q,
      λ file env'.
          CanRun-permits_deploy file env'
            (deploy_again m (permits_deploy-CanRun s w.disk env permitted)),
    )
