-- ===== src/Workflow/State.antt =====
-- The workflow state of internal/config/exasol_launcher_state.go: the union `WorkflowState`, of
-- which one field is set, and the structs that it is set from and read into.
use exasol_personal.Common.{◌≡◌, refl, Option, none, some, arith, ℕ, ◌+◌}
use exasol_personal.Errors.{Error, Operation, Result, ok, err, no_workflow_state}

pub record Interruption : Type 0 where
  pub error : Error
  pub operation : Operation

-- the union as it is stored
pub record WorkflowState : Type 0 where
  pub initialized : Option (Unit {0})
  pub operation_in_progress : Option Operation
  pub interrupted : Option Interruption
  pub deployment_failed : Option Error
  pub running : Option (Unit {0})
  pub stopped : Option (Unit {0})

-- one of the `WorkflowState*` structs
pub data State : Type 0 where
  initialized running stopped : State
  operation_in_progress : Operation → State
  interrupted : Error → Operation → State
  deployment_failed : Error → State

abbrev pub no_state : WorkflowState
no_state = record {
  initialized = none;
  operation_in_progress = none;
  interrupted = none;
  deployment_failed = none;
  running = none;
  stopped = none;
}

unfoldable pub set_workflow_state : State → WorkflowState
set_workflow_state initialized = record no_state { initialized = some tt }
set_workflow_state running = record no_state { running = some tt }
set_workflow_state stopped = record no_state { stopped = some tt }
set_workflow_state (operation_in_progress o) = record no_state { operation_in_progress = some o }
set_workflow_state (interrupted e o) = record no_state {
  interrupted = some (record { error = e; operation = o });
}
set_workflow_state (deployment_failed e) = record no_state { deployment_failed = some e }

-- The fields are asked for in this order.
unfoldable pub get_workflow_state : WorkflowState → Result State
get_workflow_state w = elim w.initialized [
  | some _ ↦ ok initialized
  | none ↦ elim w.operation_in_progress [
    | some o ↦ ok (operation_in_progress o)
    | none ↦ elim w.running [
      | some _ ↦ ok running
      | none ↦ elim w.stopped [
        | some _ ↦ ok stopped
        | none ↦ elim w.interrupted [
          | some i ↦ ok (interrupted i.error i.operation)
          | none ↦ elim w.deployment_failed [
            | some e ↦ ok (deployment_failed e)
            | none ↦ err no_workflow_state
          ]
        ]
      ]
    ]
  ]
]

abbrev present {ℓ} : {A : Type ℓ} → Option A → ℕ
present none = 0
present (some a) = 1

-- how many fields of the union are set
abbrev pub fields_set : WorkflowState → ℕ
fields_set w =
    present w.initialized
    + present w.operation_in_progress
    + present w.interrupted
    + present w.deployment_failed
    + present w.running
    + present w.stopped

-- A state that was set is read back, and one field of the union is set for it.
pub get-set_workflow_state :
    (s : State)
    → (get_workflow_state (set_workflow_state s) ≡ ok s) × (fields_set (set_workflow_state s) ≡ 1)
unfolding get_workflow_state set_workflow_state
get-set_workflow_state initialized = (refl, refl)
get-set_workflow_state running = (refl, refl)
get-set_workflow_state stopped = (refl, refl)
get-set_workflow_state (operation_in_progress o) = (refl, refl)
get-set_workflow_state (interrupted e o) = (refl, refl)
get-set_workflow_state (deployment_failed e) = (refl, refl)

-- A union with one field set is the one that its own state sets.
pub set-get_workflow_state :
    (w : WorkflowState) (s : State)
    → fields_set w ≡ 1
    → get_workflow_state w ≡ ok s
    → set_workflow_state s ≡ w
unfolding get_workflow_state set_workflow_state
set-get_workflow_state w s one h = ground arith
