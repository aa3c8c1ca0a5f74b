-- ===== src/Mutex/Marker.antt =====
-- The marker files of internal/directorymutex/directorymutex.go: their names, `parseMarker`,
-- `sharedMarkerName` and `IsMarkerName`. A marker's path is its name in the mutex's directory, so
-- it is not kept apart. `strconv.Atoi` and `strconv.Itoa` work on a 64-bit `int`.
pub mod RoundTrip
use exasol_personal.Common.{
  ℕ, zero, suc, ◌+◌, ◌-◌, ◌*◌, ◌/◌, ◌%◌, ◌^◌, Bool, true, false, ◌&&◌, ◌||◌, Option, none, some,
  List, [], ◌∷◌, ◌++◌, Bytes, codes, bytes_eq, after_prefix, has_prefix, ltb, leb, ◌==◌,
  if◌then◌else◌,
}
use exasol_personal.Errors.{Result, ok, err, invalid_marker}

abbrev pub marker_stem : Bytes
marker_stem = codes ".dirmutex"

abbrev pub marker_prefix : Bytes
marker_prefix = codes ".dirmutex."

abbrev pub exclusive_marker_name : Bytes
exclusive_marker_name = codes ".dirmutex.exclusive"

abbrev pub shared_marker_prefix : Bytes
shared_marker_prefix = codes ".dirmutex.shared."

-- `lockMode`; the code never makes a value besides these two.
pub data LockMode : Type 0 where
  shared exclusive : LockMode

pub record MarkerInfo : Type 0 where
  pub name : Bytes
  pub mode : LockMode
  pub count : ℕ

abbrev pub max_int : ℕ
max_int = 2 ^ 63 - 1

-- A Go `int`: `negsuc n` is -(n + 1).
pub data GoInt : Type 0 where
  pos : ℕ → GoInt
  negsuc : ℕ → GoInt

-- `count + 1`, wrapping at the largest `int`
abbrev pub inc_int : ℕ → GoInt
inc_int n = if leb max_int n then negsuc max_int else pos (n + 1)

-- the decimal digits of `n` in front of `out`; `n + 1` rounds are enough
emit : ℕ → ℕ → Bytes → Bytes
emit zero n out = out
emit (suc fuel) n out =
    let rest = emit fuel (n / 10) ((b'0' + n % 10) ∷ out) in
    if ltb n 10 then (b'0' + n) ∷ out else rest

unfoldable pub itoa : GoInt → Bytes
unfolding emit
itoa (pos n) = emit (suc n) n []
itoa (negsuc n) = b'-' ∷ emit (suc (suc n)) (suc n) []

is_digit : ℕ → Bool
is_digit c = leb b'0' c && leb c b'9'

all_digits : Bytes → Bool
unfolding is_digit
all_digits [] = true
all_digits (c ∷ s) = is_digit c && all_digits s

read_digits : Bytes → ℕ → ℕ
read_digits [] acc = acc
read_digits (c ∷ s) acc = read_digits s (acc * 10 + (c - b'0'))

-- `strconv.Atoi` of a text of digits: it fails where the value is no `int`.
atoi : Bytes → Option ℕ
unfolding read_digits
atoi s = let n = read_digits s 0 in if ltb max_int n then none else some n

count_of : Option ℕ → Result ℕ
count_of none = err invalid_marker
count_of (some n) = if n == 0 then err invalid_marker else ok n

pub parse_count : Bytes → Result ℕ
unfolding all_digits atoi count_of
parse_count [] = err invalid_marker
parse_count (c ∷ s) = if all_digits (c ∷ s) then count_of (atoi (c ∷ s)) else err invalid_marker

abbrev shared_marker : Bytes → Result ℕ → Result MarkerInfo
shared_marker name (err e) = err e
shared_marker name (ok n) = ok (record { name = name; mode = shared; count = n })

abbrev parse_shared : Bytes → Option Bytes → Result MarkerInfo
parse_shared name none = err invalid_marker
parse_shared name (some token) = shared_marker name (parse_count token)

unfoldable pub parse_marker : Bytes → Result MarkerInfo
unfolding parse_count
parse_marker name =
    if bytes_eq name exclusive_marker_name
    then ok (record { name = name; mode = exclusive; count = 0 })
    else parse_shared name (after_prefix shared_marker_prefix name)

unfoldable pub shared_marker_name : GoInt → Bytes
unfolding itoa
shared_marker_name count = shared_marker_prefix ++ itoa count

unfoldable pub is_marker_name : Bytes → Bool
is_marker_name name = bytes_eq name exclusive_marker_name || has_prefix shared_marker_prefix name
