-- ===== src/Tests/PollingTests.antt =====
-- Runs of the polling of internal/deploy/shared.go, and its theorems at concrete inputs.
use exasol_personal.Common.{
  ℕ, ◌+◌, ◌≤◌, ◌≡◌, refl, true, false, none, some, codes, leb, if◌then◌else◌, arith,
}
use exasol_personal.Errors.{Error, external, deadline_exceeded, ok, err}
use exasol_personal.Mutex.Context.{Context, background, done_at, sleep_with_context}
use exasol_personal.Polling.{
  WaitParams, BackoffCondition, outcome, next_backoff, duration, await_next_poll_attempt, poll_loop,
  poll_with_backoff,
}
use exasol_personal.Polling.Backoff.{backoff_after}
use exasol_personal.Polling.Ends.{poll_ends, EndsBy, enough}

-- the waiting for a started remote database
abbrev started : WaitParams
started = record { initial_backoff = 10; max_backoff = 60 }

abbrev two_minutes : Context
two_minutes = record background { deadline = some 120000000000 }

abbrev not_ready : Error
not_ready = external (codes "no connection")

-- ready after 75 seconds; before, each call fails in half a second
abbrev from_75 : BackoffCondition
from_75 k now =
    if leb 75000000000 now
    then record { met = true; error = none; lasts = 500000000 }
    else record { met = false; error = some not_ready; lasts = 500000000 }

pauses : backoff_after 60 4 10 ≡ 60
unfolding backoff_after next_backoff
pauses = refl

-- attempts at 0, 10.5, 31, 71.5 and 132 seconds: the deadline comes first
polls_until_deadline :
    poll_with_backoff from_75 started two_minutes 9 0
    ≡ some (outcome (err not_ready) 4 120000000000)
unfolding poll_with_backoff poll_loop duration await_next_poll_attempt next_backoff
    sleep_with_context done_at
polls_until_deadline = refl

polls_until_ready :
    poll_with_backoff from_75 started (record background { deadline = some 140000000000 }) 9 0
    ≡ some (outcome (ok tt) 5 132500000000)
unfolding poll_with_backoff poll_loop duration await_next_poll_attempt next_backoff
    sleep_with_context done_at
polls_until_ready = refl

from_75-lasts : (k u : ℕ) → (from_75 k u).lasts ≤ 500000000
from_75-lasts k u = ground arith

from_75-met : (k u : ℕ) → 75000000000 ≤ u → (from_75 k u).met ≡ true
from_75-met k u h = ground arith

done_at-two_minutes : done_at two_minutes ≡ some (120000000000, deadline_exceeded)
unfolding done_at
done_at-two_minutes = refl

poll_ends_example :
    EndsBy from_75 120000000000 deadline_exceeded
      (120000000000 + 500000000)
      (poll_with_backoff from_75 started two_minutes (enough 0 120000000000) 0)
poll_ends_example =
    poll_ends from_75 started two_minutes 500000000 120000000000 deadline_exceeded 0
      done_at-two_minutes from_75-lasts (omega arith) (omega arith) (omega arith) (omega arith)

abbrev three_minutes : Context
three_minutes = record background { deadline = some 180000000000 }

done_at-three_minutes : done_at three_minutes ≡ some (180000000000, deadline_exceeded)
unfolding done_at
done_at-three_minutes = refl
