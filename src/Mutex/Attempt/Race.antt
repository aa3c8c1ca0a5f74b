-- ===== src/Mutex/Attempt/Race.antt =====
-- Two processes that look for a marker before either has created one. Their marker files have
-- different names, so O_EXCL does not keep them apart.
use exasol_personal.Common.{
  ◌≡◌, refl, ap, true, false, Option, none, some, List, [], ◌∷◌, ◌++◌, arith, Bytes, bytes_eq,
  has_prefix, inl, inr, bytes_eq_comm, ◌∙◌,
}
use exasol_personal.Errors.{ok, err, invalid_marker}
use exasol_personal.Mutex.Marker.{
  LockMode, shared, exclusive, MarkerInfo, pos, marker_prefix, parse_marker, exclusive_marker_name,
  shared_marker_name,
}
use exasol_personal.Mutex.Directory.{Entry, Dir, file, stat, is_candidate, find_from, find_marker}
use exasol_personal.Mutex.Directory.Find.{NoMarker, SoleMarker}
use exasol_personal.Mutex.Directory.Change.{
  IsUsable, create_file_free, with_entries, stat-NoMarker, SoleMarker-append_file,
}
use exasol_personal.Mutex.Attempt.{done, try_acquire, try_release, acquire_found, clear_lock}

stat-append_file :
    (n k : Bytes) (es : List Entry)
    → stat n es ≡ none
    → bytes_eq k n ≡ false
    → stat n (es ++ file k ∷ []) ≡ none
unfolding stat
stat-append_file n k [] h ne = rw ne
stat-append_file n k (e ∷ es) h ne = ground (arith, stat-append_file n k es)

second_marker :
    (m : MarkerInfo) (n : Bytes) (k : MarkerInfo) (es : List Entry)
    → SoleMarker m es
    → is_candidate (file n) ≡ true
    → parse_marker n ≡ ok k
    → find_from none (es ++ file n ∷ []) ≡ err invalid_marker
unfolding find_from
second_marker m n k [] h c p = absurd h
second_marker m n k (e ∷ es) (inl (ce, pe, h)) c p = ground (arith, after_first (some m) es h)
  where
    after_first :
        (r : Option MarkerInfo) (es : List Entry)
        → NoMarker es
        → find_from r (es ++ file n ∷ []) ≡ find_from r (file n ∷ [])
    after_first r [] h = refl
    after_first r (x ∷ xs) h = ground (arith, after_first r xs h.1)
second_marker m n k (e ∷ es) (inr (ce, h)) c p = ground (arith, second_marker m n k es h c p)

abbrev first_shared : Bytes
first_shared = shared_marker_name (pos 1)

abbrev exclusive_info : MarkerInfo
exclusive_info = record { name = exclusive_marker_name; mode = exclusive; count = 0 }

abbrev first_info : MarkerInfo
first_info = record { name = first_shared; mode = shared; count = 1 }

parse-exclusive : parse_marker exclusive_marker_name ≡ ok exclusive_info
unfolding parse_marker
parse-exclusive = refl

parse-first : parse_marker first_shared ≡ ok first_info
unfolding parse_marker shared_marker_name
parse-first = refl

first_prefixed : has_prefix marker_prefix first_shared ≡ true
unfolding shared_marker_name
first_prefixed = refl

first_ne_exclusive : bytes_eq exclusive_marker_name first_shared ≡ false
unfolding shared_marker_name
first_ne_exclusive = refl

abbrev with_exclusive : Dir → List Entry
with_exclusive d = d.entries ++ file exclusive_marker_name ∷ []

-- the directory that the two processes leave
abbrev pub race_dir : Dir → Dir
race_dir d = with_entries d (with_exclusive d ++ file first_shared ∷ [])

-- the same in the other order
abbrev with_shared : Dir → List Entry
with_shared d = d.entries ++ file first_shared ∷ []

abbrev other_race_dir : Dir → Dir
other_race_dir d = with_entries d (with_shared d ++ file exclusive_marker_name ∷ [])

module _ (d : Dir) (usable : IsUsable d) (unlocked : NoMarker d.entries) where
  exclusive_wins : acquire_found exclusive none d ≡ (ok true, with_entries d (with_exclusive d))
  unfolding acquire_found
  exclusive_wins =
      ap (λ r. (done r.0, r.1))
        (create_file_free d exclusive_marker_name exclusive_info usable refl parse-exclusive
          unlocked)

  first_absent : stat first_shared (with_exclusive d) ≡ none
  first_absent =
      stat-append_file first_shared exclusive_marker_name d.entries
        (stat-NoMarker first_shared d.entries first_prefixed usable.plain unlocked)
        first_ne_exclusive

  shared_wins_too :
      acquire_found shared none (with_entries d (with_exclusive d)) ≡ (ok true, race_dir d)
  unfolding acquire_found
  shared_wins_too = ground (arith, first_absent, usable.writable)

  race_marker : find_marker (race_dir d) ≡ err invalid_marker
  unfolding find_marker
  race_marker = ground (
    arith,
    usable.listable,
    second_marker exclusive_info first_shared first_info (with_exclusive d)
        (SoleMarker-append_file exclusive_marker_name exclusive_info d.entries refl parse-exclusive
          unlocked)
        (unfold is_candidate shared_marker_name in refl) parse-first,
  )

  shared_wins : acquire_found shared none d ≡ (ok true, with_entries d (with_shared d))
  unfolding acquire_found
  shared_wins =
      ap (λ r. (done r.0, r.1))
        (create_file_free d first_shared first_info usable first_prefixed parse-first unlocked)

  exclusive_absent : stat exclusive_marker_name (with_shared d) ≡ none
  exclusive_absent =
      stat-append_file exclusive_marker_name first_shared d.entries
        (stat-NoMarker exclusive_marker_name d.entries refl usable.plain unlocked)
        (bytes_eq_comm first_shared exclusive_marker_name ∙ first_ne_exclusive)

  exclusive_wins_too :
      acquire_found exclusive none (with_entries d (with_shared d)) ≡ (ok true, other_race_dir d)
  unfolding acquire_found
  exclusive_wins_too = ground (arith, exclusive_absent, usable.writable)

  other_race_marker : find_marker (other_race_dir d) ≡ err invalid_marker
  unfolding find_marker
  other_race_marker = ground (
    arith,
    usable.listable,
    second_marker first_info exclusive_marker_name exclusive_info (with_shared d)
        (SoleMarker-append_file first_shared first_info d.entries first_prefixed parse-first
          unlocked)
        (unfold is_candidate in refl) parse-exclusive,
  )

-- Every attempt to take or to give back the lock, and every attempt to force it open, fails with
-- `ErrInvalidMarker` and changes nothing.
abbrev pub IsBroken : Dir → Type 0
IsBroken d =
    ((mode : LockMode) → try_acquire mode d ≡ (err invalid_marker, d))
    × ((mode : LockMode) → try_release mode d ≡ (err invalid_marker, d))
    × (clear_lock d ≡ (err invalid_marker, d))

broken : (d : Dir) → find_marker d ≡ err invalid_marker → IsBroken d
broken d e = (
  λ mode. unfold try_acquire in rw (e, try_acquire),
  λ mode. unfold try_release in rw (e, try_release),
  unfold clear_lock in rw (e, clear_lock),
)

-- Both that have seen no marker get the lock, one after the other, and it is broken afterwards.
abbrev pub Races : LockMode → LockMode → Dir → Type 0
Races one other d =
    let (first, d') = acquire_found one none d in
    let (second, d'') = acquire_found other none d' in
    (first ≡ ok true) × (second ≡ ok true) × IsBroken d''

-- In a usable directory with no marker, a process that asks for the exclusive lock and one that
-- asks for a shared lock both get it, if both have looked for a marker before either creates one,
-- in whichever order they create theirs. From then on every attempt to take or to give back the
-- lock, and every attempt to force it open, fails with `ErrInvalidMarker` and leaves both markers
-- where they are.
pub both_acquire :
    (d : Dir)
    → IsUsable d
    → NoMarker d.entries
    → Races exclusive shared d × Races shared exclusive d
both_acquire d usable unlocked = (
  rw (exclusive_wins d usable unlocked, shared_wins_too d usable unlocked)
      (refl, refl, broken (race_dir d) (race_marker d usable unlocked)),
  rw (shared_wins d usable unlocked, exclusive_wins_too d usable unlocked)
      (refl, refl, broken (other_race_dir d) (other_race_marker d usable unlocked)),
)
