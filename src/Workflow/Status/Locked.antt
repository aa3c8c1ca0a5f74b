-- ===== src/Workflow/Status/Locked.antt =====
-- `withDeploymentLock` (internal/deploy/locking.go) with `New` (internal/directorymutex), and
-- `GetStatusWithLock` (internal/deploy/status.go). The directory with its marker files and the
-- state file are told apart; the state file is read once under the lock and once after an error.
use exasol_personal.Common.{ℕ, ◌≡◌, ◌≢◌, refl, ap, ◌∙◌, Bool, Option, none, some, [], ◌∷◌, arith}
use exasol_personal.Errors.{
  Error, Operation, deploy, destroy, start, stop, unknown, active_operation, Result, ok, err, os,
  not_exist, path_not_directory, missing_context, errors_is, deadline_exceeded,
}
use exasol_personal.Mutex.Marker.{LockMode, shared}
use exasol_personal.Mutex.Directory.{Dir}
use exasol_personal.Mutex.Spec.{held_exclusive, Represents}
use exasol_personal.Mutex.Context.{Context, done_at, with_timeout_if_missing, wrap_acquire_error}
use exasol_personal.Mutex.Locking.{
  Others, Outcome, Call, returns, WithLock, returned, panicked, with_lock, acquire,
}
use exasol_personal.Mutex.Locking.Acquire.{acquire_blocked}
use exasol_personal.Mutex.Locking.Release.{with_lock_ends}
use exasol_personal.Workflow.State.{operation_in_progress, WorkflowState, get_workflow_state}
use exasol_personal.Workflow.World.{StateFile, read_state, Environment}
use exasol_personal.Workflow.Status.{
  StatusOutput, output, status_operation_in_progress, lock_message, get_status,
  locked_operation_name, map_deployment_lock_error, status_from_lock_error, deployment_lock_message,
}

-- what the deployment's path leads to
pub data Root : Type 0 where
  no_such_path plain_file directory : Root

-- `New`
unfoldable pub new_mutex : Root → Option Error
new_mutex no_such_path = some (os not_exist)
new_mutex plain_file = some path_not_directory
new_mutex directory = none

-- the result of the lock, with its error mapped
abbrev mapped : StateFile → WithLock → WithLock
mapped file (returned (ok u) d) = returned (ok u) d
mapped file (returned (err e) d) = returned (err (map_deployment_lock_error file e)) d
mapped file (panicked d) = panicked d

abbrev mapped_run : StateFile → Option WithLock → Option WithLock
mapped_run file none = none
mapped_run file (some r) = some (mapped file r)

abbrev pub only_error : Result StatusOutput → Result (Unit {0})
only_error (ok s) = ok tt
only_error (err e) = err e

-- The status is read while the directory's markers stay as they are. With a context that is not
-- nil the lock never panics before the call.
abbrev pub reads_status : Result StatusOutput → ℕ → Dir → Call
reads_status s now d = returns (only_error s) d now

abbrev status_of_run : Result StatusOutput → Option WithLock → Option (Result StatusOutput)
status_of_run s (some (returned (ok u) d)) = some s
status_of_run s (some (returned (err e) d)) = some (status_from_lock_error e)
status_of_run s (some (panicked d)) = none
status_of_run s none = none

module _ (others : Others) (root : Root) where
  -- `file` is the state file as it is after the lock was refused or given back.
  unfoldable pub with_deployment_lock :
      LockMode → StateFile → (ℕ → Dir → Call) → Option Context → ℕ → Dir → Option WithLock
  unfolding new_mutex
  with_deployment_lock mode file function none now d = some (returned (err missing_context) d)
  with_deployment_lock mode file function (some ctx) now d = elim (new_mutex root) [
    | some e ↦ some (returned (err e) d)
    | none ↦ mapped_run file (with_lock others mode function (some ctx) now d)
  ]

  -- `none` means that the code gives no result.
  unfoldable pub get_status_with_lock :
      StateFile
      → StateFile
      → Bool
      → Environment
      → Option Context
      → ℕ
      → Dir
      → Option (Result StatusOutput)
  unfolding with_deployment_lock
  get_status_with_lock file later check env ctx now d =
      let status = get_status file check env in
      status_of_run status (with_deployment_lock shared later (reads_status status) ctx now d)

-- With a context that is not nil, a function that returns is never turned into a panic.
lock_returns :
    (others : Others) (mode : LockMode) (s : Result StatusOutput) (ctx : Context) (now : ℕ)
    → (d d' : Dir) → with_lock others mode (reads_status s) (some ctx) now d ≢ some (panicked d')
unfolding with_lock
lock_returns others mode s ctx now d d' h = ground arith

mapped_status :
    (file : StateFile) (s : Result StatusOutput) (o : Option WithLock) (r : WithLock)
    → o ≡ some r
    → ((d : Dir) → o ≢ some (panicked d))
    → (a : Result StatusOutput) × (status_of_run s (mapped_run file o) ≡ some a)
mapped_status file s o (returned (ok u) d) h never = (s, rw h refl)
mapped_status file s o (returned (err e) d) h never =
    (status_from_lock_error (map_deployment_lock_error file e), rw h refl)
mapped_status file s o (panicked d) h never = absurd (never d h)

-- `status` always answers, with a status or an error, whatever other processes do to the lock.
pub status_answers :
    (others : Others) (root : Root) (file later : StateFile) (check : Bool) (env : Environment)
    → (ctx : Option Context) (now : ℕ) (d : Dir)
    → (a : Result StatusOutput) × (get_status_with_lock others root file later check env ctx now d
        ≡ some a)
unfolding get_status_with_lock with_deployment_lock new_mutex
status_answers others root file later check env none now d = (_, refl)
status_answers others no_such_path file later check env (some ctx) now d = (_, refl)
status_answers others plain_file file later check env (some ctx) now d = (_, refl)
status_answers others directory file later check env (some ctx) now d =
    let s = get_status file check env in
    let (r, run) = with_lock_ends others shared (reads_status s) (some ctx) now d in
    mapped_status later s (with_lock others shared (reads_status s) (some ctx) now d) r run
      (λ d'. lock_returns others shared s ctx now d d')

names_operation :
    (file : StateFile) (o : Operation)
    → o ≢ unknown []
    → (m : WorkflowState) → read_state file ≡ ok m
    → get_workflow_state m ≡ ok (operation_in_progress o)
    → locked_operation_name file ≡ some o
unfolding locked_operation_name
names_operation file o named m h g = go o named g
  where
    go :
        (p : Operation)
        → p ≢ unknown []
        → get_workflow_state m ≡ ok (operation_in_progress p)
        → locked_operation_name file ≡ some p
    go deploy named g = ground (arith, h, g)
    go destroy named g = ground (arith, h, g)
    go start named g = ground (arith, h, g)
    go stop named g = ground (arith, h, g)
    go (unknown []) named g = absurd (named refl)
    go (unknown (c ∷ cs)) named g = ground (arith, h, g)

-- the answer for a directory that another operation has locked
abbrev locked_answer : Operation → Result StatusOutput
locked_answer o = ok (output status_operation_in_progress (lock_message (active_operation o)))

timeout_answer :
    (file : StateFile) (o : Operation) (s : Result StatusOutput) (d : Dir)
    → locked_operation_name file ≡ some o
    → status_of_run s (some (mapped file (returned (err (wrap_acquire_error deadline_exceeded)) d)))
      ≡ some (locked_answer o)
unfolding map_deployment_lock_error wrap_acquire_error errors_is status_from_lock_error
    deployment_lock_message
timeout_answer file o s d h = ground (arith, h)

blocked_run :
    (others : Others) (s : Result StatusOutput) (ctx : Context) (now : ℕ)
    → (d : Dir) (o : Outcome) (e : Error) → acquire others shared (some ctx) now d ≡ some o
    → o.result ≡ err e
    → with_lock others shared (reads_status s) (some ctx) now d ≡ some (returned (err e) o.dir)
unfolding with_lock
blocked_run others s ctx now d o e run h = ground (arith, run, h)

not_canceled :
    (ctx : Context) (t s : ℕ) (e : Error)
    → ctx.canceled_at ≡ none
    → done_at (with_timeout_if_missing (some ctx) 1000 t) ≡ some (s, e)
    → e ≡ deadline_exceeded
unfolding done_at with_timeout_if_missing
not_canceled ctx t s e h g = ground (arith, h, g)

-- While another operation keeps the deployment's lock exclusively, and says so in the state file,
-- `status` with a context that is not cancelled reports that this operation is in progress.
pub status_while_locked :
    (others : Others) (file later : StateFile) (check : Bool) (env : Environment)
    → (ctx : Context) (now : ℕ) (d : Dir) (m : WorkflowState) (o : Operation)
    → Represents d held_exclusive
    → ((t : ℕ) (d : Dir) → Represents d held_exclusive → Represents (others t d) held_exclusive)
    → ctx.canceled_at ≡ none
    → read_state later ≡ ok m
    → get_workflow_state m ≡ ok (operation_in_progress o)
    → o ≢ unknown []
    → get_status_with_lock others directory file later check env (some ctx) now d
      ≡ some (locked_answer o)
unfolding get_status_with_lock with_deployment_lock new_mutex
status_while_locked others file later check env ctx now d m o held keep live h g named =
    let (t, s, e, out, has, done, run, time, result) =
      acquire_blocked others shared held_exclusive (some ctx) now d refl tt held keep in
    rw
      (blocked_run others (get_status file check env) ctx now d out _ run
        (result ∙ ap (λ e. err (wrap_acquire_error e)) (not_canceled ctx now s e live done)))
      (timeout_answer later o (get_status file check env) out.dir
        (names_operation later o named m h g))
