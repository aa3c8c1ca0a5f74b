-- ===== src/Mutex/Locking/Callback.antt =====
-- `withLock` takes the lock, calls the function and gives the lock back.
use exasol_personal.Common.{
  ℕ, ◌<◌, ◌≡◌, refl, ap, ◌∙◌, Bool, true, Option, none, some, arith, subst,
}
use exasol_personal.Errors.{Error, Result, ok, err}
use exasol_personal.Mutex.Marker.{LockMode, shared, exclusive, MarkerInfo}
use exasol_personal.Mutex.Directory.{Dir}
use exasol_personal.Mutex.Directory.Find.{Finds, SoleMarker}
use exasol_personal.Mutex.Spec.{
  LockState, free, held_shared, held_exclusive, acquire_spec, release_spec, lock_of, lock_in_mode,
  Represents, HasRoom,
}
use exasol_personal.Mutex.Attempt.{try_acquire, try_release}
use exasol_personal.Mutex.Attempt.Refinement.{
  SoleMarker-count, try_acquire_refines, try_release_refines,
}
use exasol_personal.Mutex.Context.{
  Context, done_at, error_at, with_timeout_if_missing, with_timeout-deadline, background,
}
use exasol_personal.Mutex.Locking.{
  Others, Outcome, succeeded, acquire, release, Call, returns, panics, WithLock, returned, panicked,
  call_dir, call_time, with_lock,
}
use exasol_personal.Mutex.Locking.Acquire.{rounds-some}

abbrev pub IsLive : Option Context → ℕ → Type 0
IsLive ctx now = error_at now (done_at (with_timeout_if_missing ctx 1000 now)) ≡ none

module _ (others : Others) (mode : LockMode) (now : ℕ) (d d' : Dir) where
  acquire_at_once :
      (ctx : Option Context)
      → IsLive ctx now
      → try_acquire mode d ≡ (ok true, d')
      → acquire others mode ctx now d ≡ some (succeeded d' now)
  unfolding acquire
  acquire_at_once ctx live h =
      let (t, has) = with_timeout-deadline ctx 1000 now in
      rw (rounds-some now has) (ground (arith, live, h))

  release_at_once :
      (ctx : Option Context)
      → try_release mode d ≡ (ok true, d')
      → release others mode ctx now d ≡ some (succeeded d' now)
  unfolding release
  release_at_once ctx h =
      let (t, has) = with_timeout-deadline ctx 5000 now in
      rw (rounds-some now has) (ground (arith, h))

shared_count : (m n : ℕ) → held_shared m ≡ held_shared n → m ≡ n
shared_count m n h = ground arith

Represents-positive : (d : Dir) (n : ℕ) → Represents d (held_shared n) → 0 < n
Represents-positive d n r = go r.marker r.finds r.stands_for
  where
    held :
        (k : LockMode) (m : MarkerInfo)
        → m.mode ≡ k
        → SoleMarker m d.entries
        → lock_in_mode k m.count ≡ held_shared n
        → 0 < n
    held exclusive m e h s = cc
    held shared m e h s =
        omega (arith, (SoleMarker-count m d.entries h e).0, shared_count m.count n s)

    go : (m : Option MarkerInfo) → Finds m d.entries → lock_of m ≡ held_shared n → 0 < n
    go none h s = cc
    go (some m) h s = held m.mode m refl h s

-- Giving back what was granted leads back to where the lock was.
release-acquire_spec :
    (mode : LockMode) (d : Dir) (l l' : LockState)
    → Represents d l
    → acquire_spec mode l ≡ (ok true, l')
    → release_spec mode l' ≡ (ok true, l)
release-acquire_spec exclusive d free l' r h = rw (← ap (λ p. p.1) h)
release-acquire_spec exclusive d held_exclusive l' r h = cc
release-acquire_spec exclusive d (held_shared n) l' r h = cc
release-acquire_spec shared d free l' r h = rw (← ap (λ p. p.1) h)
release-acquire_spec shared d held_exclusive l' r h = cc
release-acquire_spec shared d (held_shared n) l' r h =
    let p = Represents-positive d n r in rw (← ap (λ p. p.1) h) (ground arith)

module _ (mode : LockMode) (d : Dir) (l l' : LockState) (r : Represents d l) (room : HasRoom l)
    (allowed : acquire_spec mode l ≡ (ok true, l')) where
  abbrev locked_dir : Dir
  locked_dir = (try_acquire mode d).1

  granted : (try_acquire mode d ≡ (ok true, locked_dir)) × Represents locked_dir l'
  granted =
      let (result, state) = try_acquire_refines mode d l r room in
      (
        ap (λ (x : Result Bool). (x, locked_dir)) (result ∙ ap (λ p. p.0) allowed),
        subst (Represents locked_dir) (ap (λ p. p.1) allowed) state,
      )

given_back :
    (mode : LockMode) (d : Dir) (l l' : LockState)
    → Represents d l'
    → release_spec mode l' ≡ (ok true, l)
    → (try_release mode d ≡ (ok true, (try_release mode d).1)) × Represents (try_release mode d).1 l
given_back mode d l l' r allowed =
    let (result, state) = try_release_refines mode d l' r in
    (
      ap (λ (x : Result Bool). (x, (try_release mode d).1)) (result ∙ ap (λ p. p.0) allowed),
      subst (Represents (try_release mode d).1) (ap (λ p. p.1) allowed) state,
    )

-- what `withLock` returns after the call, with the directory in the end
abbrev pub finished : Call → Dir → WithLock
finished (returns r d now) d' = returned r d'
finished (panics d now) d' = panicked d'

with_lock_steps :
    (others : Others) (mode : LockMode) (function : ℕ → Dir → Call) (ctx : Context) (now : ℕ)
    → (d d1 d2 : Dir) → acquire others mode (some ctx) now d ≡ some (succeeded d1 now)
    → release others mode
        (some background)
        (call_time (function now d1))
        (call_dir (function now d1))
      ≡ some (succeeded d2 (call_time (function now d1)))
    → with_lock others mode function (some ctx) now d ≡ some (finished (function now d1) d2)
unfolding with_lock
with_lock_steps others mode function ctx now d d1 d2 a b = go (function now d1) refl
  where
    go :
        (c : Call)
        → function now d1 ≡ c
        → with_lock others mode function (some ctx) now d ≡ some (finished (function now d1) d2)
    go (returns r d' t) e = ground (arith, a, b, e)
    go (panics d' t) e = ground (arith, a, b, e)

-- Where the lock may be granted, `withLock` calls the function in a directory in which the lock is
-- held, passes its result, or its panic, on, and leaves the lock in the state in which it was; if
-- the function leaves the lock held as it found it, and whatever other processes would do later.
pub with_lock_refines :
    (others : Others) (mode : LockMode) (function : ℕ → Dir → Call) (ctx : Context) (now : ℕ)
    → (d : Dir) (l l' : LockState) → Represents d l
    → HasRoom l
    → acquire_spec mode l ≡ (ok true, l')
    → IsLive (some ctx) now
    → ((d1 : Dir) → Represents d1 l' → Represents (call_dir (function now d1)) l')
    → (d1 d2 : Dir) × Represents d1 l'
      × Represents d2 l
      × (with_lock others mode function (some ctx) now d ≡ some (finished (function now d1) d2))
with_lock_refines others mode function ctx now d l l' r room allowed live keeps =
    let (got, held) = granted mode d l l' r room allowed in
    let d1 = (try_acquire mode d).1 in
    let (gave, back) =
      given_back mode (call_dir (function now d1)) l l' (keeps d1 held)
        (release-acquire_spec mode d l l' r allowed) in
    let d2 = (try_release mode (call_dir (function now d1))).1 in
    (
      d1,
      d2,
      held,
      back,
      with_lock_steps others mode function ctx now d d1 d2
          (acquire_at_once others mode now d d1 (some ctx) live got)
          (release_at_once others mode (call_time (function now d1)) (call_dir (function now d1)) d2
            (some background) gave),
    )

-- The error of a failed release is dropped: if the lock was acquired and the function returns a
-- result, `withLock` returns that result, also where giving the lock back fails.
pub release_error_dropped :
    (others : Others) (mode : LockMode) (function : ℕ → Dir → Call) (ctx : Context) (now : ℕ)
    → (d : Dir) (o p : Outcome) (r : Result (Unit {0})) (d1 : Dir) (t : ℕ) (e : Error)
    → acquire others mode (some ctx) now d ≡ some o
    → o.result ≡ ok tt
    → function o.time o.dir ≡ returns r d1 t
    → release others mode (some background) t d1 ≡ some p
    → p.result ≡ err e
    → with_lock others mode function (some ctx) now d ≡ some (returned r p.dir)
unfolding with_lock
release_error_dropped others mode function ctx now d o p r d1 t e a b c f g =
    ground (arith, a, b, c, f)

nil-IsLive : (now : ℕ) → IsLive none now
unfolding done_at with_timeout_if_missing
nil-IsLive now = ground arith

-- With a nil context `withLock` takes the lock and panics before it calls the function: the lock
-- stays held.
pub nil_context_keeps_lock :
    (others : Others) (mode : LockMode) (function : ℕ → Dir → Call) (now : ℕ)
    → (d : Dir) (l l' : LockState) → Represents d l
    → HasRoom l
    → acquire_spec mode l ≡ (ok true, l')
    → (d1 : Dir) × Represents d1 l'
      × (with_lock others mode function none now d ≡ some (panicked d1))
nil_context_keeps_lock others mode function now d l l' r room allowed =
    let (got, held) = granted mode d l l' r room allowed in
    let d1 = (try_acquire mode d).1 in
    (
      d1,
      held,
      unfold with_lock in
          rw (acquire_at_once others mode now d d1 none (nil-IsLive now) got, with_lock),
    )
