-- ===== src/Mutex/Spec.antt =====
-- What the mutex of internal/directorymutex promises: a readers-writer lock that counts its
-- readers. `Represents` relates a directory to the state of that lock.
use exasol_personal.Common.{
  ℕ, ◌+◌, ◌-◌, ◌<◌, ◌≡◌, Bool, true, Option, none, some, ◌==◌, if◌then◌else◌,
}
use exasol_personal.Errors.{Result, ok, err, would_block, lock_state_changed}
use exasol_personal.Mutex.Marker.{LockMode, shared, exclusive, MarkerInfo, max_int}
use exasol_personal.Mutex.Directory.{Dir}
use exasol_personal.Mutex.Directory.Find.{Finds}
use exasol_personal.Mutex.Directory.Change.{IsUsable}

pub data LockState : Type 0 where
  free held_exclusive : LockState
  held_shared : ℕ → LockState

abbrev pub acquire_spec : LockMode → LockState → Result Bool × LockState
acquire_spec exclusive free = (ok true, held_exclusive)
acquire_spec exclusive l = (err would_block, l)
acquire_spec shared free = (ok true, held_shared 1)
acquire_spec shared (held_shared n) = (ok true, held_shared (n + 1))
acquire_spec shared held_exclusive = (err would_block, held_exclusive)

abbrev pub release_spec : LockMode → LockState → Result Bool × LockState
release_spec mode free = (ok true, free)
release_spec exclusive held_exclusive = (ok true, free)
release_spec exclusive (held_shared n) = (err lock_state_changed, held_shared n)
release_spec shared held_exclusive = (err lock_state_changed, held_exclusive)
release_spec shared (held_shared n) = (ok true, if n == 1 then free else held_shared (n - 1))

abbrev pub lock_in_mode : LockMode → ℕ → LockState
lock_in_mode shared n = held_shared n
lock_in_mode exclusive n = held_exclusive

abbrev pub lock_of : Option MarkerInfo → LockState
lock_of none = free
lock_of (some m) = lock_in_mode m.mode m.count

-- The directory can be used, and its marker stands for the lock's state.
pub record Represents (d : Dir) (l : LockState) : Type 0 where
  pub usable : IsUsable d
  pub marker : Option MarkerInfo
  pub finds : Finds marker d.entries
  pub stands_for : lock_of marker ≡ l

-- One more reader can still be counted in an `int`.
abbrev pub HasRoom : LockState → Type 0
HasRoom (held_shared n) = n < max_int
HasRoom l = Unit
