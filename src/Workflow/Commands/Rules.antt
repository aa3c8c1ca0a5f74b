-- ===== src/Workflow/Commands/Rules.antt =====
-- Rules for the early returns of the commands: a property of what a command leaves holds if it
-- holds at the early return and on the way on.
use exasol_personal.Common.{◌≡◌, refl, Option, none, some}
use exasol_personal.Errors.{Error, Result, ok, err}
use exasol_personal.Workflow.State.{State, WorkflowState}
use exasol_personal.Workflow.World.{World, read_state}
use exasol_personal.Workflow.Failure.{Run}
use exasol_personal.Workflow.Commands.{unless_error, with_state, read_file, with_read}

module _ {ℓ} (P : Option Error × World → Type ℓ) where
  pub unless_error_rule :
      (e : Option Error) (next : Run) (w : World)
      → ((x : Error) → e ≡ some x → P (some x, w))
      → (e ≡ none → P (next w))
      → P (unless_error e next w)
  unfolding unless_error
  unless_error_rule none next w failed going = going refl
  unless_error_rule (some x) next w failed going = failed x refl

  pub with_state_rule :
      (r : Result State) (next : State → Run) (w : World)
      → ((x : Error) → r ≡ err x → P (some x, w))
      → ((s : State) → r ≡ ok s → P (next s w))
      → P (with_state r next w)
  unfolding with_state
  with_state_rule (ok s) next w failed going = going s refl
  with_state_rule (err x) next w failed going = failed x refl

  read_file_rule :
      (r : Result WorkflowState) (next : Run) (w : World)
      → ((x : Error) → r ≡ err x → P (some x, w))
      → ((m : WorkflowState) → r ≡ ok m → P (next (record w { memory = m })))
      → P (read_file r next w)
  unfolding read_file
  read_file_rule (ok s) next w failed going = going s refl
  read_file_rule (err x) next w failed going = failed x refl

  pub with_read_rule :
      (next : Run) (w : World)
      → ((x : Error) → read_state w.disk ≡ err x → P (some x, w))
      → ((m : WorkflowState) → read_state w.disk ≡ ok m → P (next (record w { memory = m })))
      → P (with_read next w)
  unfolding with_read
  with_read_rule next w failed going = read_file_rule (read_state w.disk) next w failed going

-- The same for a property of every early return.
module _ {ℓ} (P : Option Error × World → Type ℓ)
    (failed : (x : Error) (w : World) → P (some x, w)) where
  pub past_error :
      (e : Option Error) (next : Run) (w : World) → P (next w) → P (unless_error e next w)
  past_error e next w going = unless_error_rule P e next w (λ x _. failed x w) (λ _. going)

  pub past_state :
      (r : Result State) (next : State → Run) (w : World)
      → ((s : State) → P (next s w))
      → P (with_state r next w)
  past_state r next w going = with_state_rule P r next w (λ x _. failed x w) (λ s _. going s)

  pub past_read :
      (next : Run) (w : World)
      → ((m : WorkflowState) → P (next (record w { memory = m })))
      → P (with_read next w)
  past_read next w going = with_read_rule P next w (λ x _. failed x w) (λ m _. going m)
