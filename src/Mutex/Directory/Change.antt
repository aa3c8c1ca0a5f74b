-- ===== src/Mutex/Directory/Change.antt =====
-- What creating, renaming and removing a marker file does to a directory that can be listed and
-- written, and in which no directory has a name with the prefix of the markers.
use exasol_personal.Common.{
  ◌≡◌, refl, inl, inr, true, false, none, some, List, [], ◌∷◌, ◌++◌, arith, Bytes, bytes_eq,
  Bool-cases, bytes_eq_refl, eq_of_bytes_eq, has_prefix, All,
}
use exasol_personal.Errors.{ok}
use exasol_personal.Mutex.Marker.{MarkerInfo, marker_prefix, parse_marker}
use exasol_personal.Mutex.Marker.RoundTrip.{parse_marker-IsMarker}
use exasol_personal.Mutex.Directory.{
  Entry, Dir, file, stat, names_dir, without, is_candidate, create_file, remove_file, rename_file,
}
use exasol_personal.Mutex.Directory.Find.{NoMarker, SoleMarker}

abbrev pub IsPlain : Entry → Type 0
IsPlain e = has_prefix marker_prefix e.name ≡ true → e.is_dir ≡ false

pub record IsUsable (d : Dir) : Type 0 where
  pub listable : d.list_fault ≡ none
  pub writable : d.write_fault ≡ none
  pub plain : All IsPlain d.entries

NoMarker-without : (n : Bytes) (es : List Entry) → NoMarker es → NoMarker (without n es)
unfolding without
NoMarker-without n [] h = tt
NoMarker-without n (e ∷ es) h = elim (Bool-cases (bytes_eq e.name n)) [
  | inl c ↦ rw c (NoMarker-without n es h.1)
  | inr c ↦ rw c (h.0, NoMarker-without n es h.1)
]

IsPlain-without : (n : Bytes) (es : List Entry) → All IsPlain es → All IsPlain (without n es)
unfolding without
IsPlain-without n [] h = tt
IsPlain-without n (e ∷ es) h = elim (Bool-cases (bytes_eq e.name n)) [
  | inl c ↦ rw c (IsPlain-without n es h.1)
  | inr c ↦ rw c (h.0, IsPlain-without n es h.1)
]

IsPlain-append_file :
    (n : Bytes) (es : List Entry) → All IsPlain es → All IsPlain (es ++ file n ∷ [])
IsPlain-append_file n [] h = ((λ _. refl), tt)
IsPlain-append_file n (e ∷ es) h = (h.0, IsPlain-append_file n es h.1)

same_name :
    (e : Entry) (m : MarkerInfo) → parse_marker e.name ≡ ok m → bytes_eq e.name m.name ≡ true
same_name e m p = rw (parse_marker-IsMarker e.name m p).0 (bytes_eq_refl e.name)

without-SoleMarker :
    (m : MarkerInfo) (es : List Entry) → SoleMarker m es → NoMarker (without m.name es)
unfolding without
without-SoleMarker m [] h = absurd h
without-SoleMarker m (e ∷ es) (inl (c, p, h)) = rw (same_name e m p) (NoMarker-without m.name es h)
without-SoleMarker m (e ∷ es) (inr (c, h)) = elim (Bool-cases (bytes_eq e.name m.name)) [
  | inl q ↦ rw q (without-SoleMarker m es h)
  | inr q ↦ rw q (c, without-SoleMarker m es h)
]

pub SoleMarker-append_file :
    (n : Bytes) (m : MarkerInfo) (es : List Entry)
    → has_prefix marker_prefix n ≡ true
    → parse_marker n ≡ ok m
    → NoMarker es
    → SoleMarker m (es ++ file n ∷ [])
unfolding is_candidate
SoleMarker-append_file n m [] c p h = inl (c, p, tt)
SoleMarker-append_file n m (e ∷ es) c p h = inr (h.0, SoleMarker-append_file n m es c p h.1)

pub stat-NoMarker :
    (n : Bytes) (es : List Entry)
    → has_prefix marker_prefix n ≡ true
    → All IsPlain es
    → NoMarker es
    → stat n es ≡ none
unfolding stat is_candidate
stat-NoMarker n [] c pl h = refl
stat-NoMarker n (e ∷ es) c pl h = elim (Bool-cases (bytes_eq e.name n)) [
  | inl q ↦
      let named : has_prefix marker_prefix e.name ≡ true = rw (eq_of_bytes_eq e.name n q) c in
      absurd (ground (arith, pl.0 named))
  | inr q ↦ rw q (stat-NoMarker n es c pl.1 h.1)
]

stat-plain :
    (n : Bytes) (es : List Entry)
    → has_prefix marker_prefix n ≡ true
    → All IsPlain es
    → names_dir (stat n es) ≡ false
unfolding stat
stat-plain n [] c pl = refl
stat-plain n (e ∷ es) c pl = elim (Bool-cases (bytes_eq e.name n)) [
  | inl q ↦ rw q (pl.0 (rw (eq_of_bytes_eq e.name n q) c))
  | inr q ↦ rw q (stat-plain n es c pl.1)
]

stat-SoleMarker :
    (m : MarkerInfo) (es : List Entry) → SoleMarker m es → (e : Entry) × (stat m.name es ≡ some e)
unfolding stat
stat-SoleMarker m [] h = absurd h
stat-SoleMarker m (e ∷ es) (inl (c, p, h)) = (e, rw (same_name e m p))
stat-SoleMarker m (e ∷ es) (inr (c, h)) = elim (Bool-cases (bytes_eq e.name m.name)) [
  | inl q ↦ (e, rw q)
  | inr q ↦ let (f, s) = stat-SoleMarker m es h in (f, rw q s)
]

abbrev pub with_entries : Dir → List Entry → Dir
with_entries d es = record d { entries = es }

with_entries-IsUsable :
    (d : Dir) (es : List Entry) → IsUsable d → All IsPlain es → IsUsable (with_entries d es)
with_entries-IsUsable d es u pl = record {
  listable = u.listable;
  writable = u.writable;
  plain = pl;
}

module _ (d : Dir) (n : Bytes) (m : MarkerInfo) (usable : IsUsable d)
    (prefixed : has_prefix marker_prefix n ≡ true) (parsed : parse_marker n ≡ ok m) where
  pub create_file_free :
      NoMarker d.entries → create_file n d ≡ (none, with_entries d (d.entries ++ file n ∷ []))
  unfolding create_file
  create_file_free h =
      ground (arith, stat-NoMarker n d.entries prefixed usable.plain h, usable.writable)

  -- A marker is created where there is none.
  pub create_file-NoMarker :
      NoMarker d.entries
      → ((create_file n d).0 ≡ none)
        × SoleMarker m (create_file n d).1.entries
        × IsUsable (create_file n d).1
  create_file-NoMarker h = rw (create_file_free h) (
    refl,
    SoleMarker-append_file n m d.entries prefixed parsed h,
    with_entries-IsUsable d _ usable (IsPlain-append_file n d.entries usable.plain),
  )

  rename_file_held :
      (old : MarkerInfo)
      → SoleMarker old d.entries
      → rename_file old.name n d
        ≡ (none, with_entries d (without n (without old.name d.entries) ++ file n ∷ []))
  unfolding rename_file
  rename_file_held old h = ground (
    arith,
    stat-plain n d.entries prefixed usable.plain,
    (stat-SoleMarker old d.entries h).1,
    usable.writable,
  )

  -- The marker that is there is renamed.
  pub rename_file-SoleMarker :
      (old : MarkerInfo)
      → SoleMarker old d.entries
      → ((rename_file old.name n d).0 ≡ none)
        × SoleMarker m (rename_file old.name n d).1.entries
        × IsUsable (rename_file old.name n d).1
  rename_file-SoleMarker old h = rw (rename_file_held old h) (
    refl,
    SoleMarker-append_file n m _ prefixed parsed
        (NoMarker-without n _ (without-SoleMarker old d.entries h)),
    with_entries-IsUsable d _ usable (
        IsPlain-append_file n _
          (IsPlain-without n _ (IsPlain-without old.name d.entries usable.plain))),
  )

remove_file_held :
    (d : Dir) (m : MarkerInfo)
    → IsUsable d
    → SoleMarker m d.entries
    → remove_file m.name d ≡ (none, with_entries d (without m.name d.entries))
unfolding remove_file
remove_file_held d m usable h = ground (arith, (stat-SoleMarker m d.entries h).1, usable.writable)

-- The marker that is there is removed.
pub remove_file-SoleMarker :
    (d : Dir) (m : MarkerInfo)
    → IsUsable d
    → SoleMarker m d.entries
    → ((remove_file m.name d).0 ≡ none)
      × NoMarker (remove_file m.name d).1.entries
      × IsUsable (remove_file m.name d).1
remove_file-SoleMarker d m usable h = rw (remove_file_held d m usable h) (
  refl,
  without-SoleMarker m d.entries h,
  with_entries-IsUsable d _ usable (IsPlain-without m.name d.entries usable.plain),
)
