-- ===== src/Errors.antt =====
-- The error values that the modelled packages return and tell apart, as one type: the sentinel
-- errors of internal/directorymutex, internal/config and internal/deploy, the two of the Go package
-- `context`, the errors of the operating system by the class that `os.IsExist`, `os.IsNotExist` and
-- `errors.Is` look at, and `external` for what the backends, runtimes and callbacks report. Texts
-- that are built for the user are kept as the values that they are built from.
use exasol_personal.Common.{ℕ, Option, none, some, Bool, true, false, ◌||◌, ◌≡◌, ap, Bytes}

pub data OsError : Type 0 where
  not_exist exist permission : OsError

-- the `Operation` of a workflow state: a text, which a state file may hold in any form
pub data Operation : Type 0 where
  deploy destroy start stop : Operation
  unknown : Bytes → Operation

-- the message of a `deploymentDirectoryLockedError`
pub data LockMessage : Type 0 where
  lock_unavailable : LockMessage
  active_operation : Operation → LockMessage

pub data Error : Type 0 where
  invalid_marker would_block acquire_timeout lock_state_changed unlock_timeout : Error
  path_not_directory : Error
  canceled deadline_exceeded : Error
  os : OsError → Error
  join : Error → Error → Error
  missing_context : Error
  deployment_directory_locked : LockMessage → Error
  missing_config_file no_workflow_state : Error
  lifecycle_action_skipped unexpected_deployment_status unsupported_operation : Error
  container_host_unreachable : Error
  unavailable_port : Bytes → ℕ → Error
  local_port_recovery : Bytes → ℕ → Error → Error
  local_retryable_failure : Operation → Error → Error
  restore_failed : Error → Error
  deploy_failed : Error → Error
  blocked : Error → Error
  external : Bytes → Error

-- `errors.Is(err, target)` for the sentinels that the code asks for: `errors.Join` is searched
-- through, as is an error that wraps another; a locked error answers to its sentinel.
pub data Sentinel : Type 0 where
  is_would_block is_acquire_timeout is_canceled is_deadline_exceeded is_locked : Sentinel
  is_not_exist is_missing_config_file is_host_unreachable : Sentinel

unfoldable pub errors_is : Error → Sentinel → Bool
errors_is (join e f) t = errors_is e t || errors_is f t
errors_is (local_port_recovery s p e) t = errors_is e t
errors_is (local_retryable_failure o e) t = errors_is e t
errors_is (restore_failed e) t = errors_is e t
errors_is (deploy_failed e) t = errors_is e t
errors_is (blocked e) t = errors_is e t
errors_is would_block is_would_block = true
errors_is acquire_timeout is_acquire_timeout = true
errors_is canceled is_canceled = true
errors_is deadline_exceeded is_deadline_exceeded = true
errors_is (deployment_directory_locked m) is_locked = true
errors_is (os not_exist) is_not_exist = true
errors_is missing_config_file is_missing_config_file = true
errors_is container_host_unreachable is_host_unreachable = true
errors_is _ _ = false

-- `errors.Join` of two errors, either of which may be nil
abbrev pub join_errors : Option Error → Option Error → Option Error
join_errors none f = f
join_errors (some e) none = some e
join_errors (some e) (some f) = some (join e f)

pub data Result {ℓ} (A : Type ℓ) : Type ℓ where
  ok : A → Result A
  err : Error → Result A

infixl 5 ◌>>=◌
abbrev pub ◌>>=◌ {ℓ κ} : {A : Type ℓ} {B : Type κ} → Result A → (A → Result B) → Result B
ok a >>= f = f a
err e >>= f = err e

ok_or {ℓ} : {A : Type ℓ} → A → Result A → A
ok_or d (ok a) = a
ok_or d (err e) = d

pub ok-injective {ℓ} : {A : Type ℓ} {a b : A} → ok a ≡ ok b → a ≡ b
unfolding ok_or
ok-injective {a = x} p = ap (ok_or x) p
