-- ===== src/Workflow/Commands/Moves/Destroy.antt =====
-- What `destroy` (internal/deploy/destroy.go) leaves.
use exasol_personal.Common.{◌∙◌, ◌≡◌, refl, ap, Option, none, some, List, [], ◌∷◌}
use exasol_personal.Errors.{Error, ok, destroy}
use exasol_personal.Workflow.State.{State, initialized, operation_in_progress, interrupted}
use exasol_personal.Workflow.World.{World, saved, set_and_write, Environment}
use exasol_personal.Workflow.Failure.{mark_operation_interrupted}
use exasol_personal.Workflow.Commands.Held.{saved-Synced, Holds, written_to, Holds-set_and_write}
use exasol_personal.Workflow.Commands.Moves.{read_locked}
use exasol_personal.Workflow.Commands.{unless_error, run_destroy_backend, destroy_locked}

abbrev pub first_error : List (Option Error) → Option Error
first_error [] = none
first_error (some e ∷ es) = some e
first_error (none ∷ es) = first_error es

-- the steps that destroy the deployment, and that of the sidecars' state behind them
abbrev pub destroy_steps : Environment → Option Error
destroy_steps env = first_error (env.manifest ∷ env.new_backend ∷ env.database ∷ [])

abbrev pub destroy_result : Option Error → Option Error → Option Error
destroy_result (some e) sidecars = some e
destroy_result none sidecars = sidecars

abbrev pub destroy_state : Option Error → Option Error → State
destroy_state (some e) sidecars = interrupted e destroy
destroy_state none (some e) = operation_in_progress destroy
destroy_state none none = initialized

-- a result and the state that is saved with it
pub record EndsAs (e : Option Error) (t : State) (r : Option Error × World) : Type 0 where
  pub result : r.0 ≡ e
  pub held : Holds t r.1

module _ (env : Environment) where
  backend-EndsAs :
      (w : World)
      → Holds (operation_in_progress destroy) w
      → EndsAs
          (destroy_result (destroy_steps env) env.sidecar_state)
          (destroy_state (destroy_steps env) env.sidecar_state)
          (run_destroy_backend env w)
  unfolding run_destroy_backend unless_error mark_operation_interrupted
  backend-EndsAs w h = go env.manifest env.new_backend env.database env.sidecar_state
    where
      cut :
          (e : Error)
          → EndsAs (some e) (interrupted e destroy) (mark_operation_interrupted destroy e w)
      cut e = record {
        result = refl;
        held = Holds-set_and_write (interrupted e destroy) w h.synced.no_faults;
      }

      done : EndsAs none initialized (set_and_write initialized w)
      done = record {
        result =
            ap (λ (r : Option Error × World). r.0) (written_to initialized w h.synced.no_faults);
        held = Holds-set_and_write initialized w h.synced.no_faults;
      }

      go :
          (manifest new_backend database sidecars : Option Error)
          → let steps = first_error (manifest ∷ new_backend ∷ database ∷ []) in
            EndsAs (destroy_result steps sidecars) (destroy_state steps sidecars) (elim manifest [
              | some e ↦ mark_operation_interrupted destroy e w
              | none ↦ elim new_backend [
                | some e ↦ mark_operation_interrupted destroy e w
                | none ↦ elim database [
                  | some e ↦ mark_operation_interrupted destroy e w
                  | none ↦ unless_error sidecars (set_and_write initialized) w
                ]
              ]
            ])
      go (some e) n d s = cut e
      go none (some e) d s = cut e
      go none none (some e) s = cut e
      go none none none (some e) = record { result = refl; held = h }
      go none none none none = done

-- Where the state file holds a state, whichever it is, and every write succeeds, `destroy` does its
-- work. It leaves the deployment initialized and reports no error if no step fails; interrupted, with
-- the error that is reported, if the manifest cannot be read, no backend can be made or the backend
-- cannot destroy, by the first of these; and still in progress, with the error, if only the state of
-- the sidecars cannot be removed.
pub destroy_ends :
    (env : Environment) (w : World) (s : State)
    → w.writes ≡ []
    → saved w ≡ ok s
    → let (result, v) = destroy_locked env w in
      (result ≡ destroy_result (destroy_steps env) env.sidecar_state)
      × (saved v ≡ ok (destroy_state (destroy_steps env) env.sidecar_state))
unfolding destroy_locked
destroy_ends env w s h p =
    let end =
      read_locked
        (EndsAs (destroy_result (destroy_steps env) env.sidecar_state)
          (destroy_state (destroy_steps env) env.sidecar_state))
        _ w s
        (λ v held.
          backend-EndsAs env _
            (Holds-set_and_write (operation_in_progress destroy) v held.synced.no_faults))
        h p in
    (end.result, saved-Synced _ end.held.synced ∙ end.held.state)
