-- ===== src/Mutex/Attempt.antt =====
-- One attempt to take or give back the lock: `tryAcquire`, `tryRelease` and what they call, of
-- internal/directorymutex/directorymutex.go; and `ClearLock` and `Status`. Each takes the
-- directory and returns its result beside the directory that it leaves.
pub mod Refinement
pub mod Frame
pub mod Stale
pub mod Race
use exasol_personal.Common.{
  ℕ, ◌-◌, Bool, true, false, Option, none, some, Bytes, codes, ◌==◌, if◌then◌else◌,
}
use exasol_personal.Errors.{
  OsError, not_exist, exist, permission, Result, ok, err, os, would_block, lock_state_changed,
}
use exasol_personal.Mutex.Marker.{
  LockMode, shared, exclusive, MarkerInfo, pos, inc_int, exclusive_marker_name, shared_marker_name,
}
use exasol_personal.Mutex.Directory.{Dir, create_file, remove_file, rename_file, find_marker}

abbrev pub Step : Type 0 → Type 0
Step A = Dir → Result A × Dir

-- the result of a file operation whose errors of one class mean that another process was faster
abbrev pub done : Option OsError → Result Bool
done none = ok true
done (some exist) = err would_block
done (some e) = err (os e)

abbrev pub gone : Option OsError → Result Bool
gone none = ok true
gone (some not_exist) = err would_block
gone (some e) = err (os e)

abbrev pub moved : Option OsError → Result Bool
moved none = ok true
moved (some permission) = err (os permission)
moved (some _) = err would_block

unfoldable pub create_marker : Bytes → Step Bool
unfolding create_file
create_marker name d = let (e, d') = create_file name d in (done e, d')

unfoldable pub remove_marker_file : Bytes → Step Bool
unfolding remove_file
remove_marker_file path d = let (e, d') = remove_file path d in (gone e, d')

unfoldable pub rename_marker : Bytes → Bytes → Step Bool
unfolding rename_file
rename_marker path next d = let (e, d') = rename_file path next d in (moved e, d')

unfoldable pub try_acquire_exclusive : Option MarkerInfo → Step Bool
unfolding create_marker
try_acquire_exclusive (some m) d = (err would_block, d)
try_acquire_exclusive none d = create_marker exclusive_marker_name d

next_shared : LockMode → MarkerInfo → Step Bool
unfolding rename_marker
next_shared exclusive m d = (err would_block, d)
next_shared shared m d = rename_marker m.name (shared_marker_name (inc_int m.count)) d

unfoldable pub try_acquire_shared : Option MarkerInfo → Step Bool
unfolding create_marker next_shared
try_acquire_shared none d = create_marker (shared_marker_name (pos 1)) d
try_acquire_shared (some m) d = next_shared m.mode m d

-- The part of `tryAcquire` after `findMarker`: what was found may be out of date by then.
unfoldable pub acquire_found : LockMode → Option MarkerInfo → Step Bool
unfolding try_acquire_exclusive try_acquire_shared
acquire_found exclusive m d = try_acquire_exclusive m d
acquire_found shared m d = try_acquire_shared m d

unfoldable pub try_acquire : LockMode → Step Bool
unfolding acquire_found
try_acquire mode d = elim (find_marker d) [ err e ↦ (err e, d) | ok m ↦ acquire_found mode m d ]

release_exclusive : LockMode → MarkerInfo → Step Bool
unfolding remove_marker_file
release_exclusive shared m d = (err lock_state_changed, d)
release_exclusive exclusive m d = remove_marker_file m.name d

unfoldable pub try_release_exclusive : MarkerInfo → Step Bool
unfolding release_exclusive
try_release_exclusive m d = release_exclusive m.mode m d

release_shared : LockMode → MarkerInfo → Step Bool
unfolding remove_marker_file rename_marker
release_shared exclusive m d = (err lock_state_changed, d)
release_shared shared m d =
    if m.count == 1
    then remove_marker_file m.name d
    else rename_marker m.name (shared_marker_name (pos (m.count - 1))) d

unfoldable pub try_release_shared : MarkerInfo → Step Bool
unfolding release_shared
try_release_shared m d = release_shared m.mode m d

-- The part of `tryRelease` after `findMarker`: with no marker the lock counts as released.
unfoldable pub release_found : LockMode → Option MarkerInfo → Step Bool
unfolding try_release_exclusive try_release_shared
release_found mode none d = (ok true, d)
release_found exclusive (some m) d = try_release_exclusive m d
release_found shared (some m) d = try_release_shared m d

unfoldable pub try_release : LockMode → Step Bool
unfolding release_found
try_release mode d = elim (find_marker d) [ err e ↦ (err e, d) | ok m ↦ release_found mode m d ]

-- `ClearLock`: `os.Remove` of a file that is gone is no error.
cleared : Option OsError → Result (Unit {0})
cleared none = ok tt
cleared (some not_exist) = ok tt
cleared (some e) = err (os e)

unfoldable pub clear_lock : Step (Unit {0})
unfolding cleared remove_file
clear_lock d = elim (find_marker d) [
  | err e ↦ (err e, d)
  | ok none ↦ (ok tt, d)
  | ok (some m) ↦ (cleared (remove_file m.name d).0, (remove_file m.name d).1)
]

pub record Status : Type 0 where
  pub locked : Bool
  pub mode : Bytes
  pub shared_count : ℕ
  pub marker_name : Bytes

abbrev mode_string : LockMode → Bytes
mode_string shared = codes "shared"
mode_string exclusive = codes "exclusive"

abbrev status_of : Option MarkerInfo → Status
status_of none = record {
  locked = false;
  mode = codes "";
  shared_count = 0;
  marker_name = codes "";
}
status_of (some m) = record {
  locked = true;
  mode = mode_string m.mode;
  shared_count = m.count;
  marker_name = m.name;
}

unfoldable pub status : Dir → Result Status
status d = elim (find_marker d) [ err e ↦ err e | ok m ↦ ok (status_of m) ]
