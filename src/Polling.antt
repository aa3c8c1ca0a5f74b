-- ===== src/Polling.antt =====
-- Polling with a growing pause: `PollWithBackoff`, `awaitNextPollAttempt` and `nextBackoff` of
-- internal/deploy/shared.go. A Go `int` that is not negative is the number itself, and a product
-- keeps its wrap-around. The clock counts nanoseconds, as `time.Duration` does.
pub mod Backoff
pub mod Ends
pub mod Prompt
use exasol_personal.Common.{
  ℕ, zero, suc, ◌+◌, ◌*◌, ◌%◌, Bool, true, false, ◌&&◌, Option, none, some, if◌then◌else◌, ltb, leb,
}
use exasol_personal.Errors.{Error, Result, ok, err}
use exasol_personal.Mutex.Context.{Context, sleep_with_context}

-- `WaitParams`, less what only the log shows
pub record WaitParams : Type 0 where
  pub initial_backoff : ℕ
  pub max_backoff : ℕ

-- One call of the condition: its two results, and how long it takes.
pub record Attempt : Type 0 where
  pub met : Bool
  pub error : Option Error
  pub lasts : ℕ

-- What the call with this number gives, begun at this time.
abbrev pub BackoffCondition : Type 0
BackoffCondition = ℕ → ℕ → Attempt

-- the two's complement reading of 64 bits is negative from 2 ^ 63 on
abbrev pub int_mod : ℕ
int_mod = 0x10000000000000000

abbrev pub is_positive_int : ℕ → Bool
is_positive_int n = ltb n 0x8000000000000000

abbrev pub capped : ℕ → ℕ → ℕ
capped doubled max_backoff =
    if ltb max_backoff doubled && is_positive_int doubled then max_backoff else doubled

unfoldable pub next_backoff : ℕ → ℕ → ℕ
next_backoff backoff max_backoff =
    if leb max_backoff backoff then backoff else capped (backoff * 2 % int_mod) max_backoff

abbrev pub or_last : Option Error → Option Error → Option Error
or_last none last_err = last_err
or_last (some e) last_err = some e

abbrev pub last_or : Option Error → Error → Error
last_or none e = e
last_or (some l) e = l

abbrev pub wait_error : Option Error → Option Error → Option Error
wait_error none last_err = none
wait_error (some e) last_err = some (last_or last_err e)

-- `time.Duration(backoff) * time.Second`, where a negative product passes at once
unfoldable pub duration : ℕ → ℕ
duration backoff =
    let product = backoff * 1000000000 % int_mod in if is_positive_int product then product else 0

-- The error to return, if the context is done first, and the time at the end.
unfoldable pub await_next_poll_attempt : Context → ℕ → Option Error → ℕ → Option Error × ℕ
unfolding sleep_with_context duration
await_next_poll_attempt ctx backoff last_err now =
    let (e, later) = sleep_with_context ctx (duration backoff) now in (wait_error e last_err, later)

pub record Outcome : Type 0 where
  pub result : Result (Unit {0})
  pub calls : ℕ
  pub time : ℕ

abbrev pub outcome : Result (Unit {0}) → ℕ → ℕ → Outcome
outcome r n now = record { result = r; calls = n; time = now }

-- The variables of the loop: the calls made, the time, the pause and the last error.
pub record Round : Type 0 where
  pub calls : ℕ
  pub now : ℕ
  pub backoff : ℕ
  pub last_err : Option Error

module _ (condition : BackoffCondition) (params : WaitParams) (ctx : Context) where
  -- the call that a round makes, the time after it, and what it leaves as the last error
  abbrev pub attempt : Round → Attempt
  attempt r = condition r.calls r.now

  abbrev pub after_call : Round → ℕ
  after_call r = r.now + (attempt r).lasts

  abbrev pub error_after : Round → Option Error
  error_after r = or_last (attempt r).error r.last_err

  abbrev pub pause : Round → Option Error × ℕ
  pause r = await_next_poll_attempt ctx r.backoff (error_after r) (after_call r)

  abbrev pub next_round : Round → Round
  next_round r = record {
    calls = suc r.calls;
    now = (pause r).1;
    backoff = next_backoff r.backoff params.max_backoff;
    last_err = error_after r;
  }

  -- `none` means that the fuel ran out.
  unfoldable pub poll_loop : ℕ → Round → Option Outcome
  poll_loop zero r = none
  poll_loop (suc fuel) r =
      let again = poll_loop fuel (next_round r) in
      let waited = elim (pause r).0 as (λ _. Option Outcome) [
        | none ↦ again
        | some e ↦ some (outcome (err e) (suc r.calls) (pause r).1)
      ] in
      if (attempt r).met then some (outcome (ok tt) (suc r.calls) (after_call r)) else waited

  abbrev pub first_round : ℕ → Round
  first_round now = record {
    calls = 0;
    now = now;
    backoff = params.initial_backoff;
    last_err = none;
  }

  -- `PollWithBackoff`, begun at the time `now`
  unfoldable pub poll_with_backoff : ℕ → ℕ → Option Outcome
  poll_with_backoff fuel now = poll_loop fuel (first_round now)
