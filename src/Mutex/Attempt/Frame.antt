-- ===== src/Mutex/Attempt/Frame.antt =====
-- Locking touches the marker files only: whatever state the directory is in, and whichever way an
-- operation ends, the entries whose names lack the markers' prefix stay as they were.
use exasol_personal.Common.{
  ◌≡◌, ◌∙◌, refl, ap, Bool, true, not, Option, none, some, List, [], ◌∷◌, ◌++◌, arith, Bytes,
  bytes_eq, has_prefix, keep, Bool-cases, eq_of_bytes_eq, inl, inr, ◌==◌, if◌then◌else◌, ◌-◌,
}
use exasol_personal.Errors.{Result, ok, err}
use exasol_personal.Mutex.Marker.{
  LockMode, shared, exclusive, MarkerInfo, pos, inc_int, marker_prefix, shared_marker_name,
  exclusive_marker_name,
}
use exasol_personal.Mutex.Marker.RoundTrip.{parse_marker-IsMarker}
use exasol_personal.Mutex.Directory.{Entry, Dir, file, without, is_candidate, find_marker}
use exasol_personal.Mutex.Directory.Find.{SoleMarker, find_from-Finds}
use exasol_personal.Mutex.Attempt.{
  create_marker, remove_marker_file, rename_marker, next_shared, try_acquire, try_release,
  acquire_found, release_found, release_shared, release_exclusive, clear_lock,
}

abbrev pub is_foreign : Entry → Bool
is_foreign e = not (has_prefix marker_prefix e.name)

abbrev pub foreign : Dir → List Entry
foreign d = keep is_foreign d.entries

foreign-without :
    (n : Bytes) (es : List Entry)
    → has_prefix marker_prefix n ≡ true
    → keep is_foreign (without n es) ≡ keep is_foreign es
unfolding without
foreign-without n [] h = refl
foreign-without n (e ∷ es) h = elim (Bool-cases (bytes_eq e.name n)) [
  | inl q ↦
      let named : has_prefix marker_prefix e.name ≡ true = rw (eq_of_bytes_eq e.name n q) h in
      rw (q, named) (foreign-without n es h)
  | inr q ↦ rw q (ap (λ r. if is_foreign e then e ∷ r else r) (foreign-without n es h))
]

foreign-append_file :
    (n : Bytes) (es : List Entry)
    → has_prefix marker_prefix n ≡ true
    → keep is_foreign (es ++ file n ∷ []) ≡ keep is_foreign es
foreign-append_file n [] h = rw h
foreign-append_file n (e ∷ es) h = rw (foreign-append_file n es h)

module _ (n : Bytes) (d : Dir) (h : has_prefix marker_prefix n ≡ true) where
  foreign-create : foreign (create_marker n d).1 ≡ foreign d
  unfolding create_marker
  foreign-create = ground (arith, foreign-append_file n d.entries h)

  foreign-remove : foreign (remove_marker_file n d).1 ≡ foreign d
  unfolding remove_marker_file
  foreign-remove = ground (arith, foreign-without n d.entries h)

  foreign-rename :
      (new : Bytes)
      → has_prefix marker_prefix new ≡ true
      → foreign (rename_marker n new d).1 ≡ foreign d
  unfolding rename_marker
  foreign-rename new k = ground (
    arith,
    foreign-append_file new (without new (without n d.entries)) k,
    foreign-without new (without n d.entries) k,
    foreign-without n d.entries h,
  )

SoleMarker-prefixed :
    (m : MarkerInfo) (es : List Entry) → SoleMarker m es → has_prefix marker_prefix m.name ≡ true
unfolding is_candidate
SoleMarker-prefixed m [] h = absurd h
SoleMarker-prefixed m (e ∷ es) (inl (c, p, h)) =
    rw (parse_marker-IsMarker e.name m p).0 (ground arith)
SoleMarker-prefixed m (e ∷ es) (inr (c, h)) = SoleMarker-prefixed m es h

-- A marker that was found has the markers' prefix.
pub find_marker-prefixed :
    (d : Dir) (m : MarkerInfo)
    → find_marker d ≡ ok (some m)
    → has_prefix marker_prefix m.name ≡ true
unfolding find_marker
find_marker-prefixed d m h =
    SoleMarker-prefixed m d.entries (find_from-Finds d.entries (some m) (ground arith))

foreign-acquire_found :
    (mode k : LockMode) (m : MarkerInfo) (d : Dir)
    → m.mode ≡ k
    → has_prefix marker_prefix m.name ≡ true
    → foreign (acquire_found mode (some m) d).1 ≡ foreign d
unfolding acquire_found
foreign-acquire_found exclusive k m d e h = refl
foreign-acquire_found shared exclusive m d e h = rw (e, next_shared)
foreign-acquire_found shared shared m d e h =
    rw (e, next_shared)
      (foreign-rename m.name d h (shared_marker_name (inc_int m.count))
        (unfold shared_marker_name in refl))

foreign-release_found :
    (mode k : LockMode) (m : MarkerInfo) (d : Dir)
    → m.mode ≡ k
    → has_prefix marker_prefix m.name ≡ true
    → foreign (release_found mode (some m) d).1 ≡ foreign d
unfolding release_found
foreign-release_found exclusive shared m d e h = rw (e, release_exclusive)
foreign-release_found exclusive exclusive m d e h =
    rw (e, release_exclusive) (foreign-remove m.name d h)
foreign-release_found shared exclusive m d e h = rw (e, release_shared)
foreign-release_found shared shared m d e h = elim (Bool-cases (m.count == 1)) [
  | inl one ↦ rw (e, release_shared, one) (foreign-remove m.name d h)
  | inr more ↦
      rw (e, release_shared, more)
        (foreign-rename m.name d h (shared_marker_name (pos (m.count - 1)))
          (unfold shared_marker_name in refl))
]

-- An attempt to take the lock leaves every entry without the markers' prefix as it was.
foreign-try_acquire : (mode : LockMode) (d : Dir) → foreign (try_acquire mode d).1 ≡ foreign d
unfolding try_acquire
foreign-try_acquire mode d = go (find_marker d) refl mode
  where
    go :
        (r : Result (Option MarkerInfo))
        → find_marker d ≡ r
        → (k : LockMode) → foreign (try_acquire k d).1 ≡ foreign d
    go (err e) p k = rw (p, try_acquire)
    go (ok none) p exclusive = rw (p, try_acquire) (foreign-create exclusive_marker_name d refl)
    go (ok none) p shared =
        rw (p, try_acquire)
          (foreign-create (shared_marker_name (pos 1)) d (unfold shared_marker_name in refl))
    go (ok (some m)) p k =
        rw (p, try_acquire) (foreign-acquire_found k m.mode m d refl (find_marker-prefixed d m p))

-- An attempt to give the lock back leaves every entry without the markers' prefix as it was.
foreign-try_release : (mode : LockMode) (d : Dir) → foreign (try_release mode d).1 ≡ foreign d
unfolding try_release
foreign-try_release mode d = go (find_marker d) refl mode
  where
    go :
        (r : Result (Option MarkerInfo))
        → find_marker d ≡ r
        → (k : LockMode) → foreign (try_release k d).1 ≡ foreign d
    go (err e) p k = rw (p, try_release)
    go (ok none) p exclusive = rw (p, try_release)
    go (ok none) p shared = rw (p, try_release)
    go (ok (some m)) p k =
        rw (p, try_release) (foreign-release_found k m.mode m d refl (find_marker-prefixed d m p))

-- Forcing the lock open leaves every entry without the markers' prefix as it was.
foreign-clear_lock : (d : Dir) → foreign (clear_lock d).1 ≡ foreign d
unfolding clear_lock remove_marker_file
foreign-clear_lock d = go (find_marker d) refl
  where
    go : (r : Result (Option MarkerInfo)) → find_marker d ≡ r → foreign (clear_lock d).1 ≡ foreign d
    go (err e) p = rw (p, clear_lock)
    go (ok none) p = rw (p, clear_lock)
    go (ok (some m)) p = rw (p, clear_lock) (foreign-remove m.name d (find_marker-prefixed d m p))

-- what a process can do to the lock
pub data LockStep : Type 0 where
  acquires releases : LockMode → LockStep
  clears : LockStep

abbrev pub after_step : LockStep → Dir → Dir
after_step (acquires mode) d = (try_acquire mode d).1
after_step (releases mode) d = (try_release mode d).1
after_step clears d = (clear_lock d).1

abbrev pub after_steps : List LockStep → Dir → Dir
after_steps [] d = d
after_steps (step ∷ steps) d = after_steps steps (after_step step d)

-- Any sequence of attempts to take the lock, to give it back and to force it open, by any processes,
-- leaves every entry of the directory without the markers' prefix as it was.
pub foreign-after_steps :
    (steps : List LockStep) (d : Dir) → foreign (after_steps steps d) ≡ foreign d
foreign-after_steps [] d = refl
foreign-after_steps (acquires mode ∷ steps) d =
    foreign-after_steps steps (try_acquire mode d).1 ∙ foreign-try_acquire mode d
foreign-after_steps (releases mode ∷ steps) d =
    foreign-after_steps steps (try_release mode d).1 ∙ foreign-try_release mode d
foreign-after_steps (clears ∷ steps) d =
    foreign-after_steps steps (clear_lock d).1 ∙ foreign-clear_lock d
