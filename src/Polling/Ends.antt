-- ===== src/Polling/Ends.antt =====
-- `PollWithBackoff` under a context that will be done: it ends, and each way in which it can end.
use exasol_personal.Common.{
  ℕ, zero, suc, ◌+◌, ◌-◌, ◌*◌, ◌/◌, ap, ◌≤◌, ◌<◌, ◌≡◌, refl, true, false, inl, inr, Option, none,
  some, arith, ltb, leb, if◌then◌else◌, Bool-cases,
}
use exasol_personal.Errors.{Error, ok, err}
use exasol_personal.Mutex.Context.{Context, done_at, sleep_with_context}
use exasol_personal.Polling.{
  WaitParams, BackoffCondition, Outcome, outcome, Round, attempt, after_call, error_after, pause,
  next_round, poll_loop, first_round, poll_with_backoff, await_next_poll_attempt, last_or, or_last,
}
use exasol_personal.Polling.Backoff.{max_pause, next_backoff_bounds, duration-max_pause}

-- How polling under a context that is done at `t` with the error `e` can end.
pub data PollEnd (condition : BackoffCondition) (t : ℕ) (e : Error) (o : Outcome) : Type 0 where
  by_condition :
      (k u : ℕ)
      → (condition k u).met ≡ true
      → o.result ≡ ok tt
      → o.calls ≡ suc k
      → o.time ≡ u + (condition k u).lasts
      → PollEnd condition t e o
  by_report :
      (k u : ℕ) (x : Error)
      → (condition k u).error ≡ some x
      → o.result ≡ err x
      → t ≤ o.time
      → PollEnd condition t e o
  by_context : o.result ≡ err e → t ≤ o.time → PollEnd condition t e o

-- An error that is kept was reported by a call.
abbrev pub Reported : BackoffCondition → Option Error → Type 0
Reported condition none = Unit {0}
Reported condition (some x) = (k : ℕ) × (u : ℕ) × ((condition k u).error ≡ some x)

or_last-Reported :
    (condition : BackoffCondition) (k u : ℕ) (o l : Option Error)
    → (condition k u).error ≡ o
    → Reported condition l
    → Reported condition (or_last o l)
or_last-Reported condition k u none l h r = r
or_last-Reported condition k u (some x) l h r = (k, u, h)

abbrev latest : ℕ → ℕ → ℕ
latest now t = if ltb t now then now else t

abbrev pub EndsBy : BackoffCondition → ℕ → Error → ℕ → Option Outcome → Type 0
EndsBy condition t e end r = (o : Outcome) × (r ≡ some o) × (o.time ≤ end) × PollEnd condition t e o

module _ (condition : BackoffCondition) (params : WaitParams) (ctx : Context) (c t : ℕ) (e : Error)
    (done : done_at ctx ≡ some (t, e)) (brief : (k u : ℕ) → (condition k u).lasts ≤ c)
    (longest : params.max_backoff ≤ max_pause) where
  -- the pause, by whether the context is done before its end
  pub pause_cut :
      (r : Round)
      → r.backoff ≤ params.max_backoff
      → leb t (after_call condition params ctx r + 1000000000 * r.backoff) ≡ true
      → pause condition params ctx r ≡ (
        some (last_or (error_after condition params ctx r) e),
        latest (after_call condition params ctx r) t,
      )
  unfolding await_next_poll_attempt sleep_with_context
  pause_cut r most h =
      rw (duration-max_pause r.backoff (omega (arith, most, longest)), done, h) refl

  pub pause_full :
      (r : Round)
      → r.backoff ≤ params.max_backoff
      → leb t (after_call condition params ctx r + 1000000000 * r.backoff) ≡ false
      → pause condition params ctx r
        ≡ (none, after_call condition params ctx r + 1000000000 * r.backoff)
  unfolding await_next_poll_attempt sleep_with_context
  pause_full r most h =
      rw (duration-max_pause r.backoff (omega (arith, most, longest)), done, h) refl

  -- the end by the context, by whether an error was kept
  cut_off :
      (l : Option Error) {n u : ℕ}
      → Reported condition l
      → t ≤ u
      → PollEnd condition t e (outcome (err (last_or l e)) n u)
  cut_off none h late = by_context refl late
  cut_off (some x) (k, u, h) late = by_report k u x h refl late

  -- one round, with what is known of the rounds after it
  round_ends :
      (fuel : ℕ) (r : Round)
      → Reported condition r.last_err
      → (after_call condition params ctx r + 1000000000 * r.backoff < t
          → EndsBy condition t e
              (t + c)
              (poll_loop condition params ctx fuel (next_round condition params ctx r)))
      → r.backoff ≤ params.max_backoff
      → r.now ≤ t
      → EndsBy condition t e (t + c) (poll_loop condition params ctx (suc fuel) r)
  unfolding poll_loop
  round_ends fuel r known next most on_time =
      elim (Bool-cases (attempt condition params ctx r).met) [
        | inl met ↦ (
          outcome (ok tt) (suc r.calls) (after_call condition params ctx r),
          rw met refl,
          omega (arith, brief r.calls r.now),
          by_condition r.calls r.now met refl refl refl,
        )
        | inr not_met ↦
            elim (Bool-cases (leb t (after_call condition params ctx r + 1000000000 * r.backoff))) [
              | inl cut ↦ (
                outcome (err (last_or (error_after condition params ctx r) e)) (suc r.calls)
                    (latest (after_call condition params ctx r) t),
                rw (not_met, pause_cut r most cut, pause_cut r most cut) refl,
                ground (arith, brief r.calls r.now),
                cut_off (error_after condition params ctx r)
                    (or_last-Reported condition r.calls r.now (attempt condition params ctx r).error
                      r.last_err refl known)
                    (ground arith),
              )
              | inr full ↦ rw (not_met, pause_full r most full) (next (ground arith))
            ]
      ]

  next_round-Reported :
      (r : Round)
      → Reported condition r.last_err
      → Reported condition (next_round condition params ctx r).last_err
  next_round-Reported r known =
      or_last-Reported condition r.calls r.now (attempt condition params ctx r).error r.last_err
        refl known

  poll_loop_ends :
      (fuel : ℕ) (r : Round)
      → Reported condition r.last_err
      → 1 ≤ r.backoff
      → r.backoff ≤ params.max_backoff
      → r.now ≤ t
      → t < r.now + 1000000000 * fuel
      → EndsBy condition t e (t + c) (poll_loop condition params ctx fuel r)
  poll_loop_ends zero r known pos most on_time h = absurd (omega arith)
  poll_loop_ends (suc fuel) r known pos most on_time h =
      round_ends fuel r known
        (λ later.
          let grown =
            next_backoff_bounds r.backoff params.max_backoff most (omega (arith, longest)) in
          let later_now = ap (λ (p : Option Error × ℕ). p.1) (pause_full r most (ground arith)) in
          poll_loop_ends fuel (next_round condition params ctx r) (next_round-Reported r known)
            (omega arith) (omega arith) (omega arith) (omega arith))
        most on_time

-- fuel that is enough to reach the time `t`
abbrev pub enough : ℕ → ℕ → ℕ
enough now t = suc ((t - now) / 1000000000)

-- Under a context that is done at the time t with the error e, with a condition whose calls last
-- at most c and a first pause of at least a second and at most the longest one, which is at most
-- 9223372036 seconds: polling that begins by t ends by t + c. It ends well right after the call for
-- which the condition is met; or not before t, with an error that a call reported or with e.
pub poll_ends :
    (condition : BackoffCondition) (params : WaitParams) (ctx : Context) (c t : ℕ) (e : Error)
    (now : ℕ)
    → done_at ctx ≡ some (t, e)
    → ((k u : ℕ) → (condition k u).lasts ≤ c)
    → 1 ≤ params.initial_backoff
    → params.initial_backoff ≤ params.max_backoff
    → params.max_backoff ≤ max_pause
    → now ≤ t
    → EndsBy condition t e (t + c) (poll_with_backoff condition params ctx (enough now t) now)
unfolding poll_with_backoff
poll_ends condition params ctx c t e now done brief pos most longest on_time =
    poll_loop_ends condition params ctx c t e done brief longest (enough now t)
      (first_round condition params ctx now) tt pos most on_time (omega arith)
