-- ===== src/Polling/Prompt.antt =====
-- Polling notices within the longest pause that the condition has become true.
use exasol_personal.Common.{
  ℕ, zero, suc, ◌+◌, ◌*◌, ◌≤◌, ◌<◌, ◌≡◌, refl, ap, true, inl, inr, Option, some, arith, ltb,
  if◌then◌else◌, Bool-cases,
}
use exasol_personal.Errors.{Error, ok}
use exasol_personal.Mutex.Context.{Context, done_at}
use exasol_personal.Polling.{
  WaitParams, BackoffCondition, Outcome, outcome, Round, attempt, after_call, next_round, poll_loop,
  first_round, poll_with_backoff,
}
use exasol_personal.Polling.Backoff.{max_pause, next_backoff_bounds}
use exasol_personal.Polling.Ends.{pause_full, enough}

-- The polling has ended well by the time `end`.
abbrev pub IsMetBy : ℕ → Option Outcome → Type 0
IsMetBy end r = (o : Outcome) × (r ≡ some o) × (o.result ≡ ok tt) × (o.time ≤ end)

abbrev pub later_of : ℕ → ℕ → ℕ
later_of a b = if ltb a b then b else a

module _ (condition : BackoffCondition) (params : WaitParams) (ctx : Context) (c s t : ℕ)
    (e : Error) (done : done_at ctx ≡ some (t, e)) (brief : (k u : ℕ) → (condition k u).lasts ≤ c)
    (longest : params.max_backoff ≤ max_pause)
    (steady : (k u : ℕ) → s ≤ u → (condition k u).met ≡ true)
    (in_time : s + (c + 1000000000 * params.max_backoff) < t) where
  module _ (end : ℕ) (far : s + (c + 1000000000 * params.max_backoff) + c ≤ end) where
    poll_loop_prompt :
        (fuel : ℕ) (r : Round)
        → 1 ≤ r.backoff
        → r.backoff ≤ params.max_backoff
        → t < r.now + 1000000000 * fuel
        → r.now + c ≤ end
        → r.now < t
        → IsMetBy end (poll_loop condition params ctx fuel r)
    unfolding poll_loop
    poll_loop_prompt zero r pos most h b i = absurd (omega arith)
    poll_loop_prompt (suc fuel) r pos most h b i =
        elim (Bool-cases (attempt condition params ctx r).met) [
          | inl met ↦ (
            outcome (ok tt) (suc r.calls) (after_call condition params ctx r),
            rw met refl,
            refl,
            omega (arith, brief r.calls r.now),
          )
          | inr not_met ↦
              let early : r.now < s = ground (arith, steady r.calls r.now) in
              let short = brief r.calls r.now in
              let full =
                pause_full condition params ctx c t e done brief longest r most (ground arith) in
              let grown =
                next_backoff_bounds r.backoff params.max_backoff most (omega (arith, longest)) in
              let later_now = ap (λ (p : Option Error × ℕ). p.1) full in
              rw (not_met, full)
                (poll_loop_prompt fuel (next_round condition params ctx r) (omega arith)
                  (omega arith) (omega arith) (omega arith) (omega arith))
        ]

-- Under a context that is done at t, with calls that last at most c, a first pause of at least a
-- second and at most the longest one, which is at most 9223372036 seconds, and a condition that is met
-- from the time s on: if t is later than s by more than c and the longest pause, polling that
-- begins before t ends well, at most 2 c and the longest pause after s, or c after its beginning
-- where that is later.
pub poll_prompt :
    (condition : BackoffCondition) (params : WaitParams) (ctx : Context) (c s t : ℕ) (e : Error)
    (now : ℕ)
    → done_at ctx ≡ some (t, e)
    → ((k u : ℕ) → (condition k u).lasts ≤ c)
    → ((k u : ℕ) → s ≤ u → (condition k u).met ≡ true)
    → s + (c + 1000000000 * params.max_backoff) < t
    → 1 ≤ params.initial_backoff
    → params.initial_backoff ≤ params.max_backoff
    → params.max_backoff ≤ max_pause
    → now < t
    → IsMetBy
        (later_of now (s + (c + 1000000000 * params.max_backoff)) + c)
        (poll_with_backoff condition params ctx (enough now t) now)
unfolding poll_with_backoff
poll_prompt condition params ctx c s t e now done brief steady in_time pos most longest before =
    poll_loop_prompt condition params ctx c s t e done brief longest steady in_time
      (later_of now (s + (c + 1000000000 * params.max_backoff)) + c) (ground arith) (enough now t)
      (first_round condition params ctx now) pos most (omega arith) (ground arith) before
