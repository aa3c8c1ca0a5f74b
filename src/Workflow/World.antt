-- ===== src/Workflow/World.antt =====
-- What a lifecycle command works on: the state in memory, the state file on disk
-- (`ReadExasolPersonalState`, `SetWorkflowStateAndWrite` and `writeConfig` of internal/config), and
-- what the backend, the local runtime and the database answer while it runs.
use exasol_personal.Common.{◌≡◌, refl, arith, Bool, true, false, Option, none, some, List, [], ◌∷◌}
use exasol_personal.Errors.{Error, Result, ok, err, os, permission, missing_config_file, external}
use exasol_personal.Workflow.State.{
  WorkflowState, State, set_workflow_state, get_workflow_state, get-set_workflow_state,
}

-- A file that was truncated and not written is `broken`: it cannot be decoded.
pub data StateFile : Type 0 where
  missing broken : StateFile
  holds : WorkflowState → StateFile

-- how a write of the state file goes
pub data WriteResult : Type 0 where
  written open_failed write_failed : WriteResult

-- The writes to come go as `writes` says, and well when it is used up.
pub record World : Type 0 where
  pub memory : WorkflowState
  pub disk : StateFile
  pub writes : List WriteResult

abbrev pub decode_error : Error
decode_error = external []

unfoldable pub read_state : StateFile → Result WorkflowState
read_state missing = err missing_config_file
read_state broken = err decode_error
read_state (holds w) = ok w

-- `writeConfig` opens with O_TRUNC: a write that fails leaves an empty file.
write_with : WriteResult → List WriteResult → State → World → Option Error × World
write_with written rest s w =
    let m = set_workflow_state s in (none, record { memory = m; disk = holds m; writes = rest })
write_with open_failed rest s w =
    (some (os permission), record { memory = set_workflow_state s; disk = w.disk; writes = rest })
write_with write_failed rest s w =
    (some decode_error, record { memory = set_workflow_state s; disk = broken; writes = rest })

next_write : List WriteResult → State → World → Option Error × World
unfolding write_with
next_write [] s w = write_with written [] s w
next_write (r ∷ rest) s w = write_with r rest s w

unfoldable pub set_and_write : State → World → Option Error × World
unfolding next_write set_workflow_state
set_and_write s w = next_write w.writes s w

-- What the code outside of the workflow answers during one command. `none` is no error; `database` is
-- what the backend answers to the work of the command, as to its Destroy.
-- `running_before` is the local runtime's status when the command begins, `running_after` when its
-- backend has failed.
pub record Environment : Type 0 where
  pub is_local : Bool
  pub select_runtime : Option Error
  pub running_before : Result Bool
  pub running_after : Result Bool
  pub connection : Option Error
  pub manifest : Option Error
  pub install_manifest : Option Error
  pub options_valid : Option Error
  pub new_backend : Option Error
  pub prepare : Option Error
  pub database : Option Error
  pub sidecars : Option Error
  pub install_steps : Option Error
  pub stop_runtime : Option Error
  pub running_sidecars : Option Error
  pub stopped_sidecars : Option Error
  pub instructions : Option Error
  pub write_instructions : Option Error
  pub sidecar_state : Option Error

pub data Liveness : Type 0 where
  liveness_unknown runtime_stopped runtime_running : Liveness

abbrev pub liveness_of : Result Bool → Liveness × Option Error
liveness_of (err e) = (liveness_unknown, some e)
liveness_of (ok true) = (runtime_running, none)
liveness_of (ok false) = (runtime_stopped, none)

abbrev pub selected_liveness : Option Error → Result Bool → Liveness × Option Error
selected_liveness (some e) status = (liveness_unknown, some e)
selected_liveness none status = liveness_of status

-- `probeLocalRuntimeLivenessWithCause`, with the runtime's status
unfoldable pub probe_liveness : Environment → Result Bool → Liveness × Option Error
probe_liveness env status = elim env.is_local [
  | false ↦ (liveness_unknown, none)
  | true ↦ selected_liveness env.select_runtime status
]

-- what a later command reads from the state file
unfoldable pub saved : World → Result State
unfolding read_state get_workflow_state
saved w = elim (read_state w.disk) [ err e ↦ err e | ok m ↦ get_workflow_state m ]

-- A write that reports no error has saved the state.
pub saved-set_and_write :
    (s : State) (w : World) → (set_and_write s w).0 ≡ none → saved (set_and_write s w).1 ≡ ok s
unfolding set_and_write saved
saved-set_and_write s w h = go w.writes refl (get-set_workflow_state s).0
  where
    go :
        (r : List WriteResult)
        → w.writes ≡ r
        → get_workflow_state (set_workflow_state s) ≡ ok s
        → saved (set_and_write s w).1 ≡ ok s
    go [] e g = ground (arith, e, g)
    go (written ∷ r) e g = ground (arith, e, g)
    go (open_failed ∷ r) e g = ground (arith, e, h)
    go (write_failed ∷ r) e g = ground (arith, e, h)
