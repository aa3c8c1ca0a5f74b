-- ===== src/Mutex/Locking/Release.antt =====
-- `release` gives up at its deadline, and so `withLock` ends.
use exasol_personal.Common.{
  ℕ, zero, suc, ◌+◌, ◌-◌, ◌*◌, ◌/◌, ◌<◌, ◌≤◌, ◌≡◌, refl, ap, ◌∙◌, inl, inr, Option, none, some,
  arith, leb, Bool-cases, Option-cases,
}
use exasol_personal.Errors.{Error, Result, ok, err, unlock_timeout, join}
use exasol_personal.Mutex.Marker.{LockMode}
use exasol_personal.Mutex.Directory.{Dir}
use exasol_personal.Mutex.Attempt.{try_release}
use exasol_personal.Mutex.Context.{
  Context, done_at, with_timeout_if_missing, with_timeout-deadline, done_at-deadline, background,
}
use exasol_personal.Mutex.Locking.{
  Others, Outcome, verdict, failed, release_loop, release, acquire, Call, returns, panics, WithLock,
  returned, panicked, with_lock,
}
use exasol_personal.Mutex.Locking.Acquire.{rounds-some, latest, acquire_ends}

abbrev pub ReleasedBy : ℕ → Option Outcome → Type 0
ReleasedBy end r = (o : Outcome) × (r ≡ some o) × (o.time ≤ end)

module _ (others : Others) (mode : LockMode) (ctx : Context) (t : ℕ) (e : Error)
    (done : done_at ctx ≡ some (t, e)) where
  round_ends :
      (fuel now : ℕ) (d : Dir)
      → (now + 200 < t
          → ReleasedBy t
              (release_loop others mode ctx fuel (now + 200) (others now (try_release mode d).1)))
      → ReleasedBy (latest now t) (release_loop others mode ctx (suc fuel) now d)
  unfolding release_loop
  round_ends fuel now d next = elim (Option-cases (verdict (try_release mode d).0)) [
    | inr (r, v) ↦ (
      record { result = r; dir = (try_release mode d).1; time = now },
      ground (arith, done),
      ground arith,
    )
    | inl again ↦ elim (Bool-cases (leb t (now + 200))) [
      | inl stop ↦ (
        failed (join unlock_timeout e) (others now (try_release mode d).1) (latest now t),
        ground (arith, done),
        ground arith,
      )
      | inr more ↦
          let (o, run, time) = next (ground arith) in (o, ground (arith, done, run), ground arith)
    ]
  ]

  release_loop_ends :
      (fuel now : ℕ) (d : Dir)
      → t < now + 200 * suc fuel
      → ReleasedBy (latest now t) (release_loop others mode ctx (suc fuel) now d)
  release_loop_ends zero now d h = round_ends zero now d (λ later. absurd (omega arith))
  release_loop_ends (suc fuel) now d h = round_ends (suc fuel) now d λ later.
      let (o, run, time) =
        release_loop_ends fuel (now + 200) (others now (try_release mode d).1) (omega arith) in
      (o, run, ground arith)

-- Whatever the other processes do, `release` gives a result, no later than the deadline of its
-- context or, if that has passed, at once.
pub release_ends :
    (others : Others) (mode : LockMode) (ctx : Option Context) (now : ℕ) (d : Dir)
    → (t : ℕ) × ((with_timeout_if_missing ctx 5000 now).deadline ≡ some t)
      × ReleasedBy (latest now t) (release others mode ctx now d)
unfolding release
release_ends others mode ctx now d =
    let (t, has) = with_timeout-deadline ctx 5000 now in
    let lock_ctx = with_timeout_if_missing ctx 5000 now in
    let (s, e, done, before) = done_at-deadline lock_ctx t has in
    let (o, run, time) =
      release_loop_ends others mode lock_ctx s e done (suc ((t - now) / 200)) now d (omega arith) in
    (
      t,
      has,
      (
        o,
        ap (λ f. release_loop others mode lock_ctx f now d) (rounds-some now has) ∙ run,
        ground arith,
      ),
    )

-- Where the function returns, or panics, `withLock` does so too, whatever the other processes do:
-- neither the wait for the lock nor giving it back lasts for ever.
pub with_lock_ends :
    (others : Others) (mode : LockMode) (function : ℕ → Dir → Call) (ctx : Option Context) (now : ℕ)
    → (d : Dir) → (r : WithLock) × (with_lock others mode function ctx now d ≡ some r)
unfolding with_lock
with_lock_ends others mode function ctx now d =
    let (t, has, (o, run, time, end)) = acquire_ends others mode ctx now d in
    acquired o run o.result refl ctx refl
  where
    given_back :
        (o : Outcome) (c : Context)
        → acquire others mode ctx now d ≡ some o
        → o.result ≡ ok tt
        → ctx ≡ some c
        → (f : Call) → function o.time o.dir ≡ f
        → (r : WithLock) × (with_lock others mode function ctx now d ≡ some r)
    given_back o c run e h (returns r d1 t) g =
        let (s, has, (p, released, time)) = release_ends others mode (some background) t d1 in
        (returned r p.dir, ground (arith, run, e, h, g, released))
    given_back o c run e h (panics d1 t) g =
        let (s, has, (p, released, time)) = release_ends others mode (some background) t d1 in
        (panicked p.dir, ground (arith, run, e, h, g, released))

    acquired :
        (o : Outcome)
        → acquire others mode ctx now d ≡ some o
        → (r : Result (Unit {0})) → o.result ≡ r
        → (c : Option Context) → ctx ≡ c
        → (r : WithLock) × (with_lock others mode function ctx now d ≡ some r)
    acquired o run (err e) h c g = (returned (err e) o.dir, ground (arith, run, h))
    acquired o run (ok tt) h none g = (panicked o.dir, ground (arith, run, h, g))
    acquired o run (ok tt) h (some c) g = given_back o c run h g (function o.time o.dir) refl
