-- ===== src/Tests/MutexTests.antt =====
-- Runs of the directory mutex (internal/directorymutex), and its theorems at concrete inputs.
use exasol_personal.Common.{
  ℕ, ◌+◌, ◌≤◌, ◌≡◌, refl, inl, inr, true, none, some, List, [], ◌∷◌, arith, Bytes, codes,
}
use exasol_personal.Errors.{ok, err, Error, invalid_marker}
use exasol_personal.Mutex.Marker.{
  shared, exclusive, MarkerInfo, pos, parse_marker, shared_marker_name, exclusive_marker_name,
}
use exasol_personal.Mutex.Directory.{Entry, Dir, file, find_marker, is_candidate}
use exasol_personal.Mutex.Directory.Find.{NoMarker}
use exasol_personal.Mutex.Directory.Change.{IsUsable}
use exasol_personal.Mutex.Spec.{free, held_shared, held_exclusive, Represents}
use exasol_personal.Mutex.Attempt.{try_acquire, try_release}
use exasol_personal.Mutex.Attempt.Refinement.{try_acquire_refines, try_release_refines}
use exasol_personal.Mutex.Attempt.Race.{Races, both_acquire}
use exasol_personal.Mutex.Context.{background, with_timeout_if_missing, done_at, wrap_acquire_error}
use exasol_personal.Mutex.Locking.{Others, Outcome, Call, returns, WithLock, acquire, with_lock}
use exasol_personal.Mutex.Locking.Acquire.{EndsBy, latest, acquire_ends, acquire_blocked}
use exasol_personal.Mutex.Locking.Release.{with_lock_ends}
use exasol_personal.Mutex.Locking.Callback.{finished, with_lock_refines}

abbrev entry : Bytes → Entry
entry n = file n

abbrev dir_of : List Entry → Dir
dir_of es = record { entries = es; list_fault = none; write_fault = none }

abbrev empty_dir : Dir
empty_dir = dir_of (entry (codes "state.json") ∷ [])

abbrev two_readers : Dir
two_readers = dir_of (entry (codes "state.json") ∷ entry (codes ".dirmutex.shared.2") ∷ [])

parse_shared_12 :
    parse_marker (codes ".dirmutex.shared.12")
    ≡ ok (record { name = codes ".dirmutex.shared.12"; mode = shared; count = 12 })
unfolding parse_marker
parse_shared_12 = refl

parse_zero : parse_marker (codes ".dirmutex.shared.0") ≡ err invalid_marker
unfolding parse_marker
parse_zero = refl

write_shared_12 : shared_marker_name (pos 12) ≡ codes ".dirmutex.shared.12"
unfolding shared_marker_name
write_shared_12 = refl

abbrev twelve : MarkerInfo
twelve = record { name = codes ".dirmutex.shared.12"; mode = shared; count = 12 }

IsUsable-empty : IsUsable empty_dir
IsUsable-empty = record { listable = refl; writable = refl; plain = ((λ h. refl), tt) }

IsUsable-two : IsUsable two_readers
IsUsable-two = record { listable = refl; writable = refl; plain = ((λ h. refl), ((λ h. refl), tt)) }

NoMarker-empty : NoMarker empty_dir.entries
unfolding is_candidate
NoMarker-empty = (refl, tt)

empty_is_free : Represents empty_dir free
empty_is_free = record {
  usable = IsUsable-empty;
  marker = none;
  finds = NoMarker-empty;
  stands_for = refl;
}

abbrev marker_two : MarkerInfo
marker_two = record { name = codes ".dirmutex.shared.2"; mode = shared; count = 2 }

two_is_held : Represents two_readers (held_shared 2)
unfolding is_candidate parse_marker
two_is_held = record {
  usable = IsUsable-two;
  marker = some marker_two;
  finds = inr (refl, inl (refl, refl, tt));
  stands_for = refl;
}

try_acquire_refines_example :
    ((try_acquire shared two_readers).0 ≡ ok true)
    × Represents (try_acquire shared two_readers).1 (held_shared 3)
try_acquire_refines_example =
    try_acquire_refines shared two_readers (held_shared 2) two_is_held (omega arith)

try_release_refines_example :
    ((try_release shared two_readers).0 ≡ ok true)
    × Represents (try_release shared two_readers).1 (held_shared 1)
try_release_refines_example = try_release_refines shared two_readers (held_shared 2) two_is_held

third_reader :
    try_acquire shared two_readers
    ≡ (ok true, dir_of (entry (codes "state.json") ∷ entry (codes ".dirmutex.shared.3") ∷ []))
unfolding try_acquire find_marker shared_marker_name parse_marker
third_reader = refl

both_acquire_example : Races exclusive shared empty_dir × Races shared exclusive empty_dir
both_acquire_example = both_acquire empty_dir IsUsable-empty NoMarker-empty

abbrev pub quiet : Others
quiet t d = d

acquire_ends_example :
    (t : ℕ) × ((with_timeout_if_missing none 1000 0).deadline ≡ some t)
    × EndsBy
        (λ _. Unit {0})
        exclusive
        (with_timeout_if_missing none 1000 0)
        (latest 0 t)
        (acquire quiet exclusive none 0 two_readers)
acquire_ends_example = acquire_ends quiet exclusive none 0 two_readers

abbrev pub exclusive_dir : Dir
exclusive_dir = dir_of (entry (codes "state.json") ∷ entry exclusive_marker_name ∷ [])

pub exclusive_is_held : Represents exclusive_dir held_exclusive
unfolding is_candidate parse_marker
exclusive_is_held = record {
  usable = record { listable = refl; writable = refl; plain = ((λ h. refl), ((λ h. refl), tt)) };
  marker = some (record { name = exclusive_marker_name; mode = exclusive; count = 0 });
  finds = inr (refl, inl (refl, refl, tt));
  stands_for = refl;
}

acquire_blocked_example :
    let lock_ctx = with_timeout_if_missing none 1000 0 in
    (t s : ℕ) × (e : Error) × (o : Outcome) × (lock_ctx.deadline ≡ some t)
    × (done_at lock_ctx ≡ some (s, e))
    × (acquire quiet shared none 0 exclusive_dir ≡ some o)
    × (o.time ≤ latest 0 t)
    × (o.result ≡ err (wrap_acquire_error e))
acquire_blocked_example =
    acquire_blocked quiet shared held_exclusive none 0 exclusive_dir refl tt exclusive_is_held
      (λ t d r. r)

abbrev leaves_alone : ℕ → Dir → Call
leaves_alone now d = returns (ok tt) d (now + 3)

with_lock_refines_example :
    (d1 d2 : Dir) × Represents d1 (held_shared 3)
    × Represents d2 (held_shared 2)
    × (with_lock quiet shared leaves_alone (some background) 0 two_readers
        ≡ some (finished (leaves_alone 0 d1) d2))
with_lock_refines_example =
    with_lock_refines quiet shared leaves_alone background 0 two_readers (held_shared 2)
      (held_shared 3) two_is_held (omega arith) refl
      (unfold done_at with_timeout_if_missing in refl) (λ d1 r. r)

-- a function that opens the lock by force and takes it for a reader
abbrev breaks_lock : ℕ → Dir → Call
breaks_lock now d = returns (ok tt) two_readers (now + 3)

with_lock_ends_example :
    (r : WithLock) × (with_lock quiet exclusive leaves_alone (some background) 0 two_readers
      ≡ some r)
with_lock_ends_example = with_lock_ends quiet exclusive leaves_alone (some background) 0 two_readers
