-- ===== src/Mutex/Directory.antt =====
-- The directory that a mutex locks, with the file operations of the standard library that
-- internal/directorymutex/directorymutex.go calls on it, and `findMarker`. The state is what
-- `os.ReadDir` lists; `list_fault` and `write_fault` are the errors of a directory that cannot be
-- listed or written.
pub mod Find
pub mod Change
use exasol_personal.Common.{
  Bool, true, false, not, ◌&&◌, Option, none, some, List, [], ◌∷◌, ◌++◌, Bytes, bytes_eq,
  has_prefix, keep, if◌then◌else◌,
}
use exasol_personal.Errors.{
  OsError, not_exist, exist, Result, ok, err, os, would_block, invalid_marker,
}
use exasol_personal.Mutex.Marker.{MarkerInfo, marker_prefix, parse_marker}

pub record Entry : Type 0 where
  pub name : Bytes
  pub is_dir : Bool

pub record Dir : Type 0 where
  pub entries : List Entry
  pub list_fault : Option OsError
  pub write_fault : Option OsError

abbrev pub file : Bytes → Entry
file name = record { name = name; is_dir = false }

-- the entry of a name, if there is one
unfoldable pub stat : Bytes → List Entry → Option Entry
stat n [] = none
stat n (e ∷ es) = if bytes_eq e.name n then some e else stat n es

unfoldable pub without : Bytes → List Entry → List Entry
without n es = keep (λ e. not (bytes_eq e.name n)) es

-- `os.ReadDir`
unfoldable pub read_dir : Dir → Result (List Entry)
read_dir d = elim d.list_fault [ none ↦ ok d.entries | some e ↦ err (os e) ]

-- `os.OpenFile` with O_CREATE and O_EXCL
unfoldable pub create_file : Bytes → Dir → Option OsError × Dir
unfolding stat
create_file n d = elim (stat n d.entries) [
  | some e ↦ (some exist, d)
  | none ↦ elim d.write_fault [
    | some e ↦ (some e, d)
    | none ↦ (none, record d { entries = d.entries ++ file n ∷ [] })
  ]
]

-- `os.Remove`
unfoldable pub remove_file : Bytes → Dir → Option OsError × Dir
unfolding stat without
remove_file n d = elim (stat n d.entries) [
  | none ↦ (some not_exist, d)
  | some e ↦ elim d.write_fault [
    | some e ↦ (some e, d)
    | none ↦ (none, record d { entries = without n d.entries })
  ]
]

abbrev names_dir : Option Entry → Bool
names_dir none = false
names_dir (some e) = e.is_dir

-- `os.Rename` of a file: it replaces a file of the new name, and refuses to replace a directory.
unfoldable pub rename_file : Bytes → Bytes → Dir → Option OsError × Dir
unfolding stat without
rename_file old new d =
    if names_dir (stat new d.entries) then (some exist, d) else elim (stat old d.entries) [
      | none ↦ (some not_exist, d)
      | some e ↦ elim d.write_fault [
        | some e ↦ (some e, d)
        | none ↦ (none, record d { entries = without new (without old d.entries) ++ file new ∷ [] })
      ]
    ]

-- the entries that the loop of `findMarker` does not skip
unfoldable pub is_candidate : Entry → Bool
is_candidate e = not e.is_dir && has_prefix marker_prefix e.name

-- One candidate: `match` is the marker seen so far.
unfoldable pub add_match : Option MarkerInfo → Result MarkerInfo → Result (Option MarkerInfo)
add_match match (err e) = err e
add_match (some m) (ok marker) = err invalid_marker
add_match none (ok marker) = ok (some marker)

-- The loop of `findMarker`; an early return ends it.
unfoldable pub find_from : Option MarkerInfo → List Entry → Result (Option MarkerInfo)
unfolding add_match
find_from match [] = ok match
find_from match (e ∷ es) = elim (is_candidate e) [
  | true ↦ elim (add_match match (parse_marker e.name)) [ err x ↦ err x | ok m ↦ find_from m es ]
  | false ↦ find_from match es
]

unfoldable pub find_marker : Dir → Result (Option MarkerInfo)
unfolding read_dir find_from is_candidate parse_marker
find_marker d = elim (read_dir d) [ err e ↦ err e | ok es ↦ find_from none es ]
