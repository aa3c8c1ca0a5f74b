-- ===== src/Mutex/Attempt/Stale.antt =====
-- What an attempt does when its marker is out of date: another process changed the directory
-- between `findMarker` and the file operation.
use exasol_personal.Common.{
  ◌≡◌, refl, Bytes, ◌⊎◌, inl, inr, none, some, arith, Bool-cases, ◌==◌, ◌-◌,
}
use exasol_personal.Errors.{err, would_block, lock_state_changed}
use exasol_personal.Mutex.Marker.{
  LockMode, shared, exclusive, MarkerInfo, pos, inc_int, shared_marker_name,
}
use exasol_personal.Mutex.Directory.{Dir, stat}
use exasol_personal.Mutex.Attempt.{
  remove_marker_file, rename_marker, next_shared, acquire_found, release_found, release_shared,
  release_exclusive,
}

module _ (m : MarkerInfo) (d : Dir) (gone : stat m.name d.entries ≡ none) where
  remove_gone : remove_marker_file m.name d ≡ (err would_block, d)
  unfolding remove_marker_file
  remove_gone = ground (arith, gone)

  rename_gone : (new : Bytes) → rename_marker m.name new d ≡ (err would_block, d)
  unfolding rename_marker
  rename_gone new = ground (arith, gone)

  acquire_gone :
      (mode k : LockMode) → m.mode ≡ k → acquire_found mode (some m) d ≡ (err would_block, d)
  unfolding acquire_found
  acquire_gone exclusive k e = refl
  acquire_gone shared exclusive e = rw (e, next_shared)
  acquire_gone shared shared e =
      rw (e, next_shared) (rename_gone (shared_marker_name (inc_int m.count)))

  release_gone :
      (mode k : LockMode)
      → m.mode ≡ k
      → (release_found mode (some m) d ≡ (err would_block, d))
        ⊎ (release_found mode (some m) d ≡ (err lock_state_changed, d))
  unfolding release_found
  release_gone exclusive shared e = inr (rw (e, release_exclusive))
  release_gone exclusive exclusive e = inl (rw (e, release_exclusive) remove_gone)
  release_gone shared exclusive e = inr (rw (e, release_shared))
  release_gone shared shared e = elim (Bool-cases (m.count == 1)) [
    | inl one ↦ inl (rw (e, release_shared, one) remove_gone)
    | inr more ↦
        inl (rw (e, release_shared, more) (rename_gone (shared_marker_name (pos (m.count - 1)))))
  ]

-- If the marker file that an attempt has found is gone when it acts, the attempt to take the lock
-- would block, the attempt to give it back would block or finds the lock in another mode, and
-- neither changes the directory.
pub stale_marker :
    (mode : LockMode) (m : MarkerInfo) (d : Dir)
    → stat m.name d.entries ≡ none
    → (acquire_found mode (some m) d ≡ (err would_block, d))
      × ((release_found mode (some m) d ≡ (err would_block, d))
          ⊎ (release_found mode (some m) d ≡ (err lock_state_changed, d)))
stale_marker mode m d gone =
    (acquire_gone m d gone mode m.mode refl, release_gone m d gone mode m.mode refl)
