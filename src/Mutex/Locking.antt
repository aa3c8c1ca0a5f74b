-- ===== src/Mutex/Locking.antt =====
-- The loops of internal/directorymutex/directorymutex.go: `acquire`, `release` and `withLock`. The
-- clock is a number of milliseconds; an attempt takes no time, and `others` says what the other
-- processes do to the directory while this one sleeps, from the time when it falls asleep.
pub mod Acquire
pub mod Release
pub mod Callback
use exasol_personal.Common.{
  ℕ, zero, suc, ◌+◌, ◌-◌, ◌/◌, Bool, true, false, Option, none, some, if◌then◌else◌,
}
use exasol_personal.Errors.{Error, unlock_timeout, join, errors_is, is_would_block, Result, ok, err}
use exasol_personal.Mutex.Marker.{LockMode}
use exasol_personal.Mutex.Directory.{Dir}
use exasol_personal.Mutex.Attempt.{try_acquire, try_release}
use exasol_personal.Mutex.Context.{
  Context, done_at, error_at, sleep_with_context, with_timeout_if_missing, wrap_acquire_error,
  without_cancel,
}

abbrev pub default_acquire_timeout : ℕ
default_acquire_timeout = 1000

abbrev pub default_unlock_timeout : ℕ
default_unlock_timeout = 5000

abbrev pub default_retry_interval : ℕ
default_retry_interval = 200

abbrev pub Others : Type 0
Others = ℕ → Dir → Dir

-- The result, the directory and the time at the end.
pub record Outcome : Type 0 where
  pub result : Result (Unit {0})
  pub dir : Dir
  pub time : ℕ

abbrev pub failed : Error → Dir → ℕ → Outcome
failed e d now = record { result = err e; dir = d; time = now }

abbrev pub succeeded : Dir → ℕ → Outcome
succeeded d now = record { result = ok tt; dir = d; time = now }

-- what the loop does with an attempt's result: `some` ends the loop
abbrev pub verdict : Result Bool → Option (Result (Unit {0}))
verdict (ok true) = some (ok tt)
verdict (ok false) = none
verdict (err e) = if errors_is e is_would_block then none else some (err e)

-- rounds that are enough to reach a deadline, as fuel for the loops
abbrev pub rounds : Option ℕ → ℕ → ℕ
rounds none now = 0
rounds (some t) now = (t - now) / default_retry_interval + 2

module _ (others : Others) (mode : LockMode) where
  -- `none` means that the fuel ran out.
  unfoldable pub acquire_loop : Context → ℕ → ℕ → Dir → Option Outcome
  unfolding sleep_with_context wrap_acquire_error
  acquire_loop ctx zero now d = none
  acquire_loop ctx (suc fuel) now d = elim (error_at now (done_at ctx)) [
    | some e ↦ some (failed (wrap_acquire_error e) d now)
    | none ↦ elim (verdict (try_acquire mode d).0) [
      | some r ↦ some (record { result = r; dir = (try_acquire mode d).1; time = now })
      | none ↦ elim (sleep_with_context ctx default_retry_interval now).0 [
        | some e ↦ some (
            failed (wrap_acquire_error e) (others now (try_acquire mode d).1)
              (sleep_with_context ctx default_retry_interval now).1)
        | none ↦
            acquire_loop ctx fuel (sleep_with_context ctx default_retry_interval now).1
              (others now (try_acquire mode d).1)
      ]
    ]
  ]

  unfoldable pub release_loop : Context → ℕ → ℕ → Dir → Option Outcome
  unfolding sleep_with_context
  release_loop ctx zero now d = none
  release_loop ctx (suc fuel) now d = elim (verdict (try_release mode d).0) [
    | some r ↦ some (record { result = r; dir = (try_release mode d).1; time = now })
    | none ↦ elim (sleep_with_context ctx default_retry_interval now).0 [
      | some e ↦ some (
          failed (join unlock_timeout e) (others now (try_release mode d).1)
            (sleep_with_context ctx default_retry_interval now).1)
      | none ↦
          release_loop ctx fuel (sleep_with_context ctx default_retry_interval now).1
            (others now (try_release mode d).1)
    ]
  ]

  unfoldable pub acquire : Option Context → ℕ → Dir → Option Outcome
  unfolding acquire_loop with_timeout_if_missing
  acquire ctx now d =
      let lock_ctx = with_timeout_if_missing ctx default_acquire_timeout now in
      acquire_loop lock_ctx (rounds lock_ctx.deadline now) now d

  unfoldable pub release : Option Context → ℕ → Dir → Option Outcome
  unfolding release_loop with_timeout_if_missing
  release ctx now d =
      let unlock_ctx = with_timeout_if_missing ctx default_unlock_timeout now in
      release_loop unlock_ctx (rounds unlock_ctx.deadline now) now d

-- What the function passed to `withLock` does: its result, the directory it leaves and how long it
-- takes; or a panic.
pub data Call : Type 0 where
  returns : Result (Unit {0}) → Dir → ℕ → Call
  panics : Dir → ℕ → Call

pub data WithLock : Type 0 where
  returned : Result (Unit {0}) → Dir → WithLock
  panicked : Dir → WithLock

-- `context.WithoutCancel` panics at a nil context.
abbrev pub release_context : Option Context → Option Context
release_context none = none
release_context (some ctx) = some (without_cancel ctx)

-- The deferred function runs after `return callbackErr` has set the result: what it assigns to
-- `callbackErr` is lost.
abbrev after_call : Call → Option Outcome → Option WithLock
after_call (returns r d now) none = none
after_call (returns r d now) (some o) = some (returned r o.dir)
after_call (panics d now) none = none
after_call (panics d now) (some o) = some (panicked o.dir)

abbrev pub call_dir : Call → Dir
call_dir (returns r d now) = d
call_dir (panics d now) = d

abbrev pub call_time : Call → ℕ
call_time (returns r d now) = now
call_time (panics d now) = now

-- `withLock`, where no signal arrives: then the release function runs once, on return.
module _ (others : Others) (mode : LockMode) (function : ℕ → Dir → Call) where
  locked_call : Option Context → Outcome → Option WithLock
  locked_call none o = some (panicked o.dir)
  locked_call (some ctx) o =
      let call = function o.time o.dir in
      after_call call
        (release others mode (release_context (some ctx)) (call_time call) (call_dir call))

  abbrev after_acquire : Option Context → Outcome → Result (Unit {0}) → Option WithLock
  after_acquire ctx o (err e) = some (returned (err e) o.dir)
  after_acquire ctx o (ok u) = locked_call ctx o

  unfoldable pub with_lock : Option Context → ℕ → Dir → Option WithLock
  unfolding locked_call
  with_lock ctx now d = elim (acquire others mode ctx now d) [
    | none ↦ none
    | some o ↦ after_acquire ctx o o.result
  ]
