-- ===== src/Mutex/Locking/Acquire.antt =====
-- `acquire` ends by its deadline, and each way in which it can end is accounted for.
use exasol_personal.Common.{
  ℕ, zero, suc, ◌+◌, ◌-◌, ◌*◌, ◌/◌, ◌<◌, ◌≤◌, ◌≡◌, refl, ap, subst, ◌∙◌, inl, inr, Option, some,
  arith, ltb, leb, if◌then◌else◌, Bool-cases, Option-cases,
}
use exasol_personal.Errors.{Error, err, would_block, errors_is}
use exasol_personal.Mutex.Marker.{LockMode}
use exasol_personal.Mutex.Directory.{Dir}
use exasol_personal.Mutex.Spec.{LockState, acquire_spec, Represents, HasRoom}
use exasol_personal.Mutex.Attempt.{try_acquire}
use exasol_personal.Mutex.Attempt.Refinement.{try_acquire_refines}
use exasol_personal.Mutex.Context.{
  Context, done_at, with_timeout_if_missing, wrap_acquire_error, with_timeout-deadline,
  done_at-deadline,
}
use exasol_personal.Mutex.Locking.{Others, Outcome, verdict, failed, acquire_loop, acquire, rounds}

-- How `acquire` can end, with what is known of the directory that the last attempt met.
pub data AcquireEnd (P : Dir → Type 0) (mode : LockMode) (ctx : Context) (o : Outcome)
    : Type 0 where
  by_attempt :
      (d : Dir)
      → P d
      → verdict (try_acquire mode d).0 ≡ some o.result
      → (try_acquire mode d).1 ≡ o.dir
      → AcquireEnd P mode ctx o
  by_context :
      (t : ℕ) (e : Error)
      → done_at ctx ≡ some (t, e)
      → t ≤ o.time
      → o.result ≡ err (wrap_acquire_error e)
      → AcquireEnd P mode ctx o

-- the later of two times
abbrev pub latest : ℕ → ℕ → ℕ
latest now t = if ltb t now then now else t

abbrev pub EndsBy : (Dir → Type 0) → LockMode → Context → ℕ → Option Outcome → Type 0
EndsBy P mode ctx end r = (o : Outcome) × (r ≡ some o) × (o.time ≤ end) × AcquireEnd P mode ctx o

module _ (others : Others) (mode : LockMode) (ctx : Context) (t : ℕ) (e : Error)
    (done : done_at ctx ≡ some (t, e)) (P : Dir → Type 0)
    (keep : (now : ℕ) (d : Dir) → P d → P (others now (try_acquire mode d).1)) where
  -- one round of the loop, with what is known of the rounds after it
  round_ends :
      (fuel now : ℕ) (d : Dir)
      → P d
      → (now + 200 < t
          → EndsBy P mode ctx t
              (acquire_loop others mode ctx fuel (now + 200) (others now (try_acquire mode d).1)))
      → EndsBy P mode ctx (latest now t) (acquire_loop others mode ctx (suc fuel) now d)
  unfolding acquire_loop
  round_ends fuel now d p next = elim (Bool-cases (leb t now)) [
    | inl late ↦ (
      failed (wrap_acquire_error e) d now,
      ground (arith, done),
      ground arith,
      by_context t e done (ground arith) refl,
    )
    | inr early ↦ elim (Option-cases (verdict (try_acquire mode d).0)) [
      | inr (r, v) ↦ (
        record { result = r; dir = (try_acquire mode d).1; time = now },
        ground (arith, done),
        ground arith,
        by_attempt d p v refl,
      )
      | inl again ↦ elim (Bool-cases (leb t (now + 200))) [
        | inl stop ↦ (
          failed (wrap_acquire_error e) (others now (try_acquire mode d).1) t,
          ground (arith, done),
          ground arith,
          by_context t e done (ground arith) refl,
        )
        | inr more ↦
            let (o, run, time, end) = next (ground arith) in
            (o, ground (arith, done, run), ground arith, end)
      ]
    ]
  ]

  acquire_loop_ends :
      (fuel now : ℕ) (d : Dir)
      → P d
      → t < now + 200 * suc fuel
      → EndsBy P mode ctx (latest now t) (acquire_loop others mode ctx (suc fuel) now d)
  acquire_loop_ends zero now d p h = round_ends zero now d p (λ later. absurd (omega arith))
  acquire_loop_ends (suc fuel) now d p h = round_ends (suc fuel) now d p λ later.
      let (o, run, time, end) =
        acquire_loop_ends fuel (now + 200) (others now (try_acquire mode d).1) (keep now d p)
          (omega arith) in
      (o, run, ground arith, end)

pub rounds-some :
    {o : Option ℕ} {t : ℕ} (now : ℕ) → o ≡ some t → rounds o now ≡ suc (suc ((t - now) / 200))
rounds-some now h = ground arith

module _ (P : Dir → Type 0) (others : Others) (mode : LockMode)
    (keep : (now : ℕ) (d : Dir) → P d → P (others now (try_acquire mode d).1))
    (ctx : Option Context) (now : ℕ) (d : Dir) (p : P d) where
  -- `acquire_ends` below, with a property of the directory that every round keeps
  pub acquire_ends_with :
      let lock_ctx = with_timeout_if_missing ctx 1000 now in
      (t : ℕ) × (lock_ctx.deadline ≡ some t)
      × EndsBy P mode lock_ctx (latest now t) (acquire others mode ctx now d)
  unfolding acquire
  acquire_ends_with =
      let (t, has) = with_timeout-deadline ctx 1000 now in
      let lock_ctx = with_timeout_if_missing ctx 1000 now in
      let (s, e, done, before) = done_at-deadline lock_ctx t has in
      let (o, run, time, end) =
        acquire_loop_ends others mode lock_ctx s e done P keep (suc ((t - now) / 200)) now d p
          (omega arith) in
      (
        t,
        has,
        (
          o,
          ap (λ f. acquire_loop others mode lock_ctx f now d) (rounds-some now has) ∙ run,
          ground arith,
          end,
        ),
      )

-- Whatever the other processes do, `acquire` ends: it gives a result, no later than the deadline
-- of its context or, if that has passed, at once. The result is that of an attempt on a directory
-- of that moment, successful or with an error that is no contention; or else the context is done
-- and the result is the context's error, joined to `ErrAcquireTimeout` if that is the deadline's.
pub acquire_ends :
    (others : Others) (mode : LockMode) (ctx : Option Context) (now : ℕ) (d : Dir)
    → let lock_ctx = with_timeout_if_missing ctx 1000 now in
      (t : ℕ) × (lock_ctx.deadline ≡ some t)
      × EndsBy (λ _. Unit {0}) mode lock_ctx (latest now t) (acquire others mode ctx now d)
acquire_ends others mode ctx now d =
    acquire_ends_with (λ _. Unit {0}) others mode (λ _ _ _. tt) ctx now d tt

module _ (mode : LockMode) (l : LockState) (blocks : acquire_spec mode l ≡ (err would_block, l))
    (room : HasRoom l) where
  attempt_blocked :
      (d : Dir)
      → Represents d l
      → ((try_acquire mode d).0 ≡ err would_block) × Represents (try_acquire mode d).1 l
  attempt_blocked d r =
      let (result, state) = try_acquire_refines mode d l r room in
      (
        result ∙ ap (λ p. p.0) blocks,
        subst (Represents (try_acquire mode d).1) (ap (λ p. p.1) blocks) state,
      )

  blocked_end :
      (ctx : Context) (o : Outcome)
      → AcquireEnd (λ d. Represents d l) mode ctx o
      → (s : ℕ) × (e : Error) × ((done_at ctx ≡ some (s, e))
          × (o.result ≡ err (wrap_acquire_error e)))
  unfolding errors_is
  blocked_end ctx o (by_attempt d r v same) = absurd (ground (arith, (attempt_blocked d r).0, v))
  blocked_end ctx o (by_context t e done late result) = (t, e, (done, result))

-- While a lock is held that the attempts cannot share, and the other processes leave it held,
-- `acquire` fails by the deadline of its context, with the context's error.
pub acquire_blocked :
    (others : Others) (mode : LockMode) (l : LockState) (ctx : Option Context) (now : ℕ) (d : Dir)
    → acquire_spec mode l ≡ (err would_block, l)
    → HasRoom l
    → Represents d l
    → ((t : ℕ) (d : Dir) → Represents d l → Represents (others t d) l)
    → let lock_ctx = with_timeout_if_missing ctx 1000 now in
      (t s : ℕ) × (e : Error) × (o : Outcome) × (lock_ctx.deadline ≡ some t)
      × (done_at lock_ctx ≡ some (s, e))
      × (acquire others mode ctx now d ≡ some o)
      × (o.time ≤ latest now t)
      × (o.result ≡ err (wrap_acquire_error e))
acquire_blocked others mode l ctx now d blocks room r keep =
    let (t, has, (o, run, time, end)) =
      acquire_ends_with (λ d. Represents d l) others mode
        (λ now d r. keep now _ (attempt_blocked mode l blocks room d r).1) ctx now d r in
    let (s, e, result) = blocked_end mode l blocks room _ o end in
    (t, s, e, o, has, result.0, run, time, result.1)
