-- ===== src/Workflow/Commands/Moves.antt =====
-- Where every write of the state file succeeds: start, stop and deploy move the saved state along
-- the diagram of `Workflow.Diagram`; destroy is in `Destroy`.
pub mod Start
pub mod Stop
pub mod Deploy
pub mod Destroy
use exasol_personal.Common.{
  ◌≡◌, ◌≢◌, refl, sym, subst, ◌∙◌, ap, Bool, true, false, Option, none, some, List, [], ◌∷◌, arith,
  if◌then◌else◌, Bool-cases, Option-cases, inl, inr, Bytes, ℕ,
}
use exasol_personal.Errors.{Error, Result, ok, err, Operation, destroy, deploy, start, stop}
use exasol_personal.Workflow.State.{
  State, WorkflowState, initialized, running, stopped, operation_in_progress, interrupted,
  deployment_failed, get_workflow_state, set_workflow_state, get-set_workflow_state,
}
use exasol_personal.Workflow.World.{
  World, StateFile, holds, read_state, saved, set_and_write, Environment, probe_liveness, Liveness,
  selected_liveness, liveness_unknown, runtime_running, runtime_stopped,
}
use exasol_personal.Workflow.Diagram.{CanRun, Leaves, Moves, stays, works, is_down, counted_as}
use exasol_personal.Workflow.Permits.{Decision, permits_start}
use exasol_personal.Workflow.Failure.{
  Run, is_running, is_unreachable, is_stopped_runtime, reconcile_local_vm_state, reconciled,
  as_unavailable, prior_restored, stop_and_restore, port_restored, mark_operation_interrupted,
  restore_after_unavailable_port, restore_local_state_after_failure, record_lifecycle_failure,
}
use exasol_personal.Workflow.Commands.Rules.{unless_error_rule, with_read_rule}
use exasol_personal.Workflow.Commands.{
  unless_error, after, with_state, with_read, read_file, run_start_backend, start_run,
}
use exasol_personal.Workflow.Commands.Held.{
  Synced, Holds, Left, world_of, Holds-world_of, Holds-set_and_write, written_to, saved-Synced,
  failure_Left, if_Left, restore_port_Left, mark_Left,
}

module _ (o : Operation) (s : State) where
  pub stays_Left : (e : Option Error) (w : World) → Holds s w → Left (Moves o s) (e, w)
  stays_Left e w h = record { state = s; held = h; allowed = stays s }

  pub works_Left : (r : Option Error × World) → CanRun o s → Left (Leaves o) r → Left (Moves o s) r
  works_Left r can l = record { state = l.state; held = l.held; allowed = works can l.allowed }

  pub guard_Left :
      (e : Option Error) (next : Run) (w : World)
      → Holds s w
      → Left (Moves o s) (next w)
      → Left (Moves o s) (unless_error e next w)
  guard_Left e next w h going =
      unless_error_rule (Left (Moves o s)) e next w (λ x _. stays_Left (some x) w h) (λ _. going)

  pub with_state-Left :
      (next : State → Run) (w : World)
      → Holds s w
      → Left (Moves o s) (next s w)
      → Left (Moves o s) (with_state (get_workflow_state w.memory) next w)
  unfolding with_state
  with_state-Left next w h going = rw (h.state, with_state) going

after_start_Left :
    (e : Option Error) (next : Run) (w : World) (L : State → Type 0)
    → ((e : Option Error) → Left L (e, w))
    → Left L (next w)
    → Left L (unless_error e next w)
after_start_Left e next w L early going =
    unless_error_rule (Left L) e next w (λ x _. early (some x)) (λ _. going)

-- Whether the local runtime is found down when a command begins.
abbrev pub runtime_down : Environment → Bool
runtime_down env = is_down env.is_local env.select_runtime env.running_before

module _ (env : Environment) (o : Operation) (next : Run)
    (going : (s : State) (w : World) → Holds s w → Left (Moves o s) (next w)) where
  goes_on : (s : State) (w : World) → Holds s w → Left (Moves o s) (after (none, w) next)
  unfolding after unless_error
  goes_on s w h = going s w h

  -- a running local deployment, by what the runtime answers
  reconciled-Left :
      (c : Option Error) (r : Result Bool) (w : World)
      → Holds running w
      → Left
          (Moves o (counted_as (is_down true c r) running))
          (after (reconciled (selected_liveness c r) w) next)
  unfolding reconciled after unless_error
  reconciled-Left (some e) r w h = elim (Bool-cases (is_unreachable (some e))) [
    | inl lost ↦ rw lost (stays_Left o running (some e) w h)
    | inr fine ↦ rw fine (going running w h)
  ]
  reconciled-Left none (err e) w h = elim (Bool-cases (is_unreachable (some e))) [
    | inl lost ↦ rw lost (stays_Left o running (some e) w h)
    | inr fine ↦ rw fine (going running w h)
  ]
  reconciled-Left none (ok true) w h = going running w h
  reconciled-Left none (ok false) w h =
      rw (written_to stopped w h.synced.no_faults)
        (going stopped (world_of stopped) (Holds-world_of stopped))

  -- A running deployment whose local runtime is down is a stopped one from here on.
  pub reconcile_Left :
      (s : State) (w : World)
      → Holds s w
      → Left
          (Moves o (counted_as (runtime_down env) s))
          (after (reconcile_local_vm_state env w) next)
  unfolding reconcile_local_vm_state probe_liveness
  reconcile_Left s w h = rw h.state (go s env.is_local h)
    where
      liveness : Bool → Liveness × Option Error
      liveness b = elim b [
        | false ↦ (liveness_unknown, none)
        | true ↦ selected_liveness env.select_runtime env.running_before
      ]

      aside : (s : State) → Holds s w → Left (Moves o s) (after (none, w) next)
      aside s h = goes_on s w h

      go :
          (s : State) (b : Bool)
          → Holds s w
          → Left (Moves o (counted_as (is_down b env.select_runtime env.running_before) s)) (
              after
                (if b
                  then (if is_running (ok s) then reconciled (liveness b) w else (none, w))
                  else (none, w))
                next)
      go running false h = goes_on running w h
      go initialized false h = goes_on initialized w h
      go stopped false h = goes_on stopped w h
      go (operation_in_progress p) false h = goes_on (operation_in_progress p) w h
      go (interrupted e p) false h = goes_on (interrupted e p) w h
      go (deployment_failed e) false h = goes_on (deployment_failed e) w h
      go running true h = reconciled-Left env.select_runtime env.running_before w h
      go initialized true h = aside initialized h
      go stopped true h = aside stopped h
      go (operation_in_progress p) true h = aside (operation_in_progress p) h
      go (interrupted e p) true h = aside (interrupted e p) h
      go (deployment_failed e) true h = aside (deployment_failed e) h

-- From the state file to the world of a command: what is proved of a world that holds a state.
pub read_locked :
    (P : Option Error × World → Type 0) (next : Run) (w : World) (s : State)
    → ((v : World) → Holds s v → P (next v))
    → w.writes ≡ []
    → saved w ≡ ok s
    → P (with_read next w)
unfolding saved with_read read_file
read_locked P next w s going h p = go (read_state w.disk) refl p
  where
    go :
        (r : Result WorkflowState)
        → read_state w.disk ≡ r
        → (elim r as (λ _. Result State) [ err e ↦ err e | ok m ↦ get_workflow_state m ]) ≡ ok s
        → P (read_file r next w)
    go (err e) q p = absurd (ground arith)
    go (ok m) q p =
        going (record w { memory = m })
          (record { synced = record { on_disk = q; no_faults = h }; state = p })

-- what a command that leaves a state has saved
pub Left-saved :
    (L : State → Type 0) (r : Option Error × World)
    → Left L r
    → (t : State) × (saved r.1 ≡ ok t) × L t
Left-saved L r l = (l.state, saved-Synced _ l.held.synced ∙ l.held.state, l.allowed)

pub read-Moves :
    (L : State → Type 0) (next : Run) (w : World) (s : State)
    → ((v : World) → Holds s v → Left L (next v))
    → w.writes ≡ []
    → saved w ≡ ok s
    → (t : State) × (saved (with_read next w).1 ≡ ok t) × L t
read-Moves L next w s going h p =
    Left-saved L (with_read next w) (read_locked (Left L) next w s going h p)
