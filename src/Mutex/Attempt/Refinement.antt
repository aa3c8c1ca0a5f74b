-- ===== src/Mutex/Attempt/Refinement.antt =====
-- An attempt that nobody interrupts is one step of the readers-writer lock of `Mutex.Spec`.
use exasol_personal.Common.{
  ℕ, ◌+◌, ◌-◌, ◌<◌, ◌≤◌, ◌≡◌, refl, sym, ap, subst, Bool, true, Option, none, some, arith, ◌==◌,
  Bool-cases, has_prefix, inl, inr, List, [], ◌∷◌,
}
use exasol_personal.Errors.{Result, ok}
use exasol_personal.Mutex.Marker.{
  LockMode, shared, exclusive, MarkerInfo, max_int, pos, inc_int, marker_prefix,
  exclusive_marker_name, shared_marker_name, parse_marker,
}
use exasol_personal.Mutex.Marker.RoundTrip.{parse-shared_marker_name, parse_marker_count}
use exasol_personal.Mutex.Directory.{Entry, Dir, find_from, find_marker}
use exasol_personal.Mutex.Directory.Find.{
  NoMarker, SoleMarker, Finds, find_from-NoMarker, find_from-SoleMarker,
}
use exasol_personal.Mutex.Directory.Change.{
  IsUsable, create_file-NoMarker, rename_file-SoleMarker, remove_file-SoleMarker,
}
use exasol_personal.Mutex.Spec.{
  LockState, free, held_shared, held_exclusive, acquire_spec, release_spec, lock_in_mode, lock_of,
  Represents, HasRoom,
}
use exasol_personal.Mutex.Attempt.{
  done, gone, moved, create_marker, remove_marker_file, rename_marker, next_shared, acquire_found,
  release_found, release_shared, release_exclusive, try_acquire, try_release,
}

find_from-of_Finds :
    (m : Option MarkerInfo) (es : List Entry) → Finds m es → find_from none es ≡ ok m
find_from-of_Finds none es h = find_from-NoMarker none es h
find_from-of_Finds (some m) es h = find_from-SoleMarker m es h

pub find_marker-of_Finds :
    (d : Dir) (m : Option MarkerInfo) → IsUsable d → Finds m d.entries → find_marker d ≡ ok m
unfolding find_marker
find_marker-of_Finds d m u h = ground (arith, u.listable, find_from-of_Finds m d.entries h)

-- A sole marker was read from an entry's name.
pub SoleMarker-count :
    (m : MarkerInfo) (es : List Entry)
    → SoleMarker m es
    → m.mode ≡ shared
    → (0 < m.count) × (m.count ≤ max_int)
SoleMarker-count m [] h s = absurd h
SoleMarker-count m (e ∷ es) (inl (c, p, h)) s = parse_marker_count e.name m p s
SoleMarker-count m (e ∷ es) (inr (c, h)) s = SoleMarker-count m es h s

-- the step `(r, d)` has the result and the lock that the specification says
abbrev Refines : Result Bool × Dir → Result Bool × LockState → Type 0
Refines (r, d) (s, l) = (r ≡ s) × Represents d l

shared_info : ℕ → MarkerInfo
shared_info n = record { name = shared_marker_name (pos n); mode = shared; count = n }

shared_name_prefixed : (n : ℕ) → has_prefix marker_prefix (shared_marker_name (pos n)) ≡ true
unfolding shared_marker_name
shared_name_prefixed n = refl

parse-shared_info :
    (n : ℕ) → 0 < n → n ≤ max_int → parse_marker (shared_marker_name (pos n)) ≡ ok (shared_info n)
unfolding shared_info
parse-shared_info n low high = parse-shared_marker_name n low high

module _ (d : Dir) (usable : IsUsable d) where
  create_exclusive :
      NoMarker d.entries → Refines (create_marker exclusive_marker_name d) (ok true, held_exclusive)
  unfolding create_marker
  create_exclusive h =
      let m : MarkerInfo = record { name = exclusive_marker_name; mode = exclusive; count = 0 } in
      let (r, s, u) =
        create_file-NoMarker d exclusive_marker_name m usable refl (unfold parse_marker in refl)
          h in
      (ap done r, record { usable = u; marker = some m; finds = s; stands_for = refl })

  create_shared :
      NoMarker d.entries
      → Refines (create_marker (shared_marker_name (pos 1)) d) (ok true, held_shared 1)
  unfolding create_marker shared_info
  create_shared h =
      let (r, s, u) =
        create_file-NoMarker d (shared_marker_name (pos 1)) (shared_info 1) usable
          (shared_name_prefixed 1) (parse-shared_info 1 (omega arith) (omega arith)) h in
      (
        ap done r,
        record { usable = u; marker = some (shared_info 1); finds = s; stands_for = refl },
      )

  rename_shared :
      (m : MarkerInfo) (n : ℕ)
      → SoleMarker m d.entries
      → 0 < n
      → n ≤ max_int
      → Refines (rename_marker m.name (shared_marker_name (pos n)) d) (ok true, held_shared n)
  unfolding rename_marker shared_info
  rename_shared m n h low high =
      let (r, s, u) =
        rename_file-SoleMarker d (shared_marker_name (pos n)) (shared_info n) usable
          (shared_name_prefixed n) (parse-shared_info n low high) m h in
      (
        ap moved r,
        record { usable = u; marker = some (shared_info n); finds = s; stands_for = refl },
      )

  remove_marker :
      (m : MarkerInfo)
      → SoleMarker m d.entries
      → Refines (remove_marker_file m.name d) (ok true, free)
  unfolding remove_marker_file
  remove_marker m h =
      let (r, s, u) = remove_file-SoleMarker d m usable h in
      (ap gone r, record { usable = u; marker = none; finds = s; stands_for = refl })

inc_int_room : (n : ℕ) → n < max_int → inc_int n ≡ pos (n + 1)
inc_int_room n h = ground arith

module _ (d : Dir) (usable : IsUsable d) (k : LockMode) (m : MarkerInfo) (e : m.mode ≡ k)
    (h : SoleMarker m d.entries) where
  unchanged : Represents d (lock_in_mode k m.count)
  unchanged = record {
    usable = usable;
    marker = some m;
    finds = h;
    stands_for = ap (λ k. lock_in_mode k m.count) e;
  }

acquire_held :
    (mode k : LockMode) (d : Dir) (m : MarkerInfo)
    → IsUsable d
    → m.mode ≡ k
    → SoleMarker m d.entries
    → HasRoom (lock_in_mode k m.count)
    → Refines (acquire_found mode (some m) d) (acquire_spec mode (lock_in_mode k m.count))
unfolding acquire_found
acquire_held exclusive shared d m u e h room = (refl, unchanged d u shared m e h)
acquire_held exclusive exclusive d m u e h room = (refl, unchanged d u exclusive m e h)
acquire_held shared exclusive d m u e h room =
    rw (e, next_shared) (refl, unchanged d u exclusive m e h)
acquire_held shared shared d m u e h room =
    rw (e, next_shared)
      (subst
        (λ i.
          Refines (rename_marker m.name (shared_marker_name i) d)
            (ok true, held_shared (m.count + 1)))
        (sym (inc_int_room m.count room))
        (rename_shared d u m (m.count + 1) h (omega arith) (omega arith)))

acquire_free :
    (mode : LockMode) (d : Dir)
    → IsUsable d
    → NoMarker d.entries
    → Refines (acquire_found mode none d) (acquire_spec mode free)
unfolding acquire_found
acquire_free exclusive d u h = create_exclusive d u h
acquire_free shared d u h = create_shared d u h

release_held :
    (mode k : LockMode) (d : Dir) (m : MarkerInfo)
    → IsUsable d
    → m.mode ≡ k
    → SoleMarker m d.entries
    → Refines (release_found mode (some m) d) (release_spec mode (lock_in_mode k m.count))
unfolding release_found
release_held exclusive shared d m u e h =
    rw (e, release_exclusive) (refl, unchanged d u shared m e h)
release_held exclusive exclusive d m u e h = rw (e, release_exclusive) (remove_marker d u m h)
release_held shared exclusive d m u e h =
    rw (e, release_shared) (refl, unchanged d u exclusive m e h)
release_held shared shared d m u e h = elim (Bool-cases (m.count == 1)) [
  | inl one ↦ rw (e, release_shared, one) (remove_marker d u m h)
  | inr more ↦
      let (low, high) = SoleMarker-count m d.entries h e in
      rw (e, release_shared, more)
        (rename_shared d u m (m.count - 1) h (ground arith) (omega arith))
]

try_acquire_found :
    (mode : LockMode) (d : Dir) (m : Option MarkerInfo)
    → find_marker d ≡ ok m
    → try_acquire mode d ≡ acquire_found mode m d
unfolding try_acquire
try_acquire_found mode d m h = rw (h, try_acquire)

try_release_found :
    (mode : LockMode) (d : Dir) (m : Option MarkerInfo)
    → find_marker d ≡ ok m
    → try_release mode d ≡ release_found mode m d
unfolding try_release
try_release_found mode d m h = rw (h, try_release)

found_acquire :
    (mode : LockMode) (d : Dir) (m : Option MarkerInfo)
    → IsUsable d
    → Finds m d.entries
    → HasRoom (lock_of m)
    → Refines (acquire_found mode m d) (acquire_spec mode (lock_of m))
found_acquire mode d none u h room = acquire_free mode d u h
found_acquire mode d (some m) u h room = acquire_held mode m.mode d m u refl h room

found_release :
    (mode : LockMode) (d : Dir) (m : Option MarkerInfo)
    → IsUsable d
    → Finds m d.entries
    → Refines (release_found mode m d) (release_spec mode (lock_of m))
unfolding release_found
found_release exclusive d none u h =
    (refl, record { usable = u; marker = none; finds = h; stands_for = refl })
found_release shared d none u h =
    (refl, record { usable = u; marker = none; finds = h; stands_for = refl })
found_release mode d (some m) u h = release_held mode m.mode d m u refl h

-- In a directory that stands for a lock with room for one more reader, an attempt to take the
-- lock answers as the readers-writer lock does, and leaves a directory that stands for the
-- lock's next state.
pub try_acquire_refines :
    (mode : LockMode) (d : Dir) (l : LockState)
    → Represents d l
    → HasRoom l
    → ((try_acquire mode d).0 ≡ (acquire_spec mode l).0)
      × Represents (try_acquire mode d).1 (acquire_spec mode l).1
try_acquire_refines mode d l r room =
    rw (try_acquire_found mode d r.marker (find_marker-of_Finds d r.marker r.usable r.finds)) (
      subst (λ k. HasRoom k → Refines (acquire_found mode r.marker d) (acquire_spec mode k))
        r.stands_for (found_acquire mode d r.marker r.usable r.finds) room)

-- In a directory that stands for a lock, an attempt to give the lock back answers as the
-- readers-writer lock does, and leaves a directory that stands for the lock's next state.
pub try_release_refines :
    (mode : LockMode) (d : Dir) (l : LockState)
    → Represents d l
    → ((try_release mode d).0 ≡ (release_spec mode l).0)
      × Represents (try_release mode d).1 (release_spec mode l).1
try_release_refines mode d l r =
    rw (try_release_found mode d r.marker (find_marker-of_Finds d r.marker r.usable r.finds)) (
      subst (λ k. Refines (release_found mode r.marker d) (release_spec mode k)) r.stands_for
        (found_release mode d r.marker r.usable r.finds))
