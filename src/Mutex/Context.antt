-- ===== src/Mutex/Context.antt =====
-- Contexts of the Go package `context`, as far as internal/directorymutex/directorymutex.go uses
-- them: the time at which one is done, with its error, `withTimeoutIfMissing`, `sleepWithContext`
-- and `wrapAcquireError`. Times are in milliseconds.
use exasol_personal.Common.{
  ℕ, ◌+◌, ◌≤◌, ◌≡◌, Bool, true, false, Option, none, some, ltb, leb, Bool-cases, refl, inl, inr,
  if◌then◌else◌, arith,
}
use exasol_personal.Errors.{
  Error, canceled, deadline_exceeded, acquire_timeout, join, errors_is, is_deadline_exceeded,
}

-- `none` stands for a deadline, or a cancellation, that never comes.
pub record Context : Type 0 where
  pub deadline : Option ℕ
  pub canceled_at : Option ℕ

abbrev pub background : Context
background = record { deadline = none; canceled_at = none }

-- `context.WithoutCancel`
abbrev pub without_cancel : Context → Context
without_cancel ctx = background

abbrev pub Done : Type 0
Done = Option (ℕ × Error)

abbrev earlier : Option ℕ → Option ℕ → Done
earlier none none = none
earlier (some t) none = some (t, deadline_exceeded)
earlier none (some c) = some (c, canceled)
earlier (some t) (some c) = if ltb c t then some (c, canceled) else some (t, deadline_exceeded)

-- when the context is done, and what `ctx.Err()` returns from then on
unfoldable pub done_at : Context → Done
done_at ctx = earlier ctx.deadline ctx.canceled_at

abbrev pub error_at : ℕ → Done → Option Error
error_at now none = none
error_at now (some (t, e)) = if leb t now then some e else none

-- The `select` of `sleepWithContext`: the error, if the context is done by the end of the sleep,
-- and the time when it ends. Where both channels are ready the context is taken.
abbrev sleep_until : ℕ → ℕ → Done → Option Error × ℕ
sleep_until now end none = (none, end)
sleep_until now end (some (t, e)) =
    if leb t end then (some e, if ltb t now then now else t) else (none, end)

unfoldable pub sleep_with_context : Context → ℕ → ℕ → Option Error × ℕ
unfolding done_at
sleep_with_context ctx duration now = sleep_until now (now + duration) (done_at ctx)

abbrev has_deadline : Option ℕ → Bool
has_deadline none = false
has_deadline (some t) = true

unfoldable pub with_timeout_if_missing : Option Context → ℕ → ℕ → Context
with_timeout_if_missing none timeout now = record background { deadline = some (now + timeout) }
with_timeout_if_missing (some ctx) timeout now =
    if has_deadline ctx.deadline then ctx else record ctx { deadline = some (now + timeout) }

unfoldable pub wrap_acquire_error : Error → Error
wrap_acquire_error e = if errors_is e is_deadline_exceeded then join acquire_timeout e else e

-- A context made by `withTimeoutIfMissing` has a deadline.
pub with_timeout-deadline :
    (ctx : Option Context) (timeout now : ℕ)
    → (t : ℕ) × ((with_timeout_if_missing ctx timeout now).deadline ≡ some t)
unfolding with_timeout_if_missing
with_timeout-deadline none timeout now = (now + timeout, ground arith)
with_timeout-deadline (some ctx) timeout now = go ctx.deadline refl
  where
    go :
        (o : Option ℕ)
        → ctx.deadline ≡ o
        → (t : ℕ) × ((with_timeout_if_missing (some ctx) timeout now).deadline ≡ some t)
    go none e = (now + timeout, ground arith)
    go (some t) e = (t, ground arith)

-- A context with a deadline is done by then.
pub done_at-deadline :
    (ctx : Context) (t : ℕ)
    → ctx.deadline ≡ some t
    → (s : ℕ) × (e : Error) × (done_at ctx ≡ some (s, e)) × (s ≤ t)
unfolding done_at
done_at-deadline ctx t h = go ctx.canceled_at refl
  where
    go :
        (o : Option ℕ)
        → ctx.canceled_at ≡ o
        → (s : ℕ) × (e : Error) × (done_at ctx ≡ some (s, e)) × (s ≤ t)
    go none c = (t, deadline_exceeded, ground arith, ground arith)
    go (some u) c = elim (Bool-cases (ltb u t)) [
      | inl before ↦ (u, canceled, ground arith, ground arith)
      | inr after ↦ (t, deadline_exceeded, ground arith, ground arith)
    ]
