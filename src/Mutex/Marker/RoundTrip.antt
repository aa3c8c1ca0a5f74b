-- ===== src/Mutex/Marker/RoundTrip.antt =====
-- Marker names are read back as they were written, and nothing else is read as a marker.
use exasol_personal.Common.{
  ℕ, zero, suc, ◌+◌, ◌/◌, ◌%◌, ◌≤◌, ◌<◌, ◌≡◌, ◌≢◌, refl, subst, inl, inr, true, Option, none, some,
  [], ◌∷◌, ◌++◌, arith, Bytes, bytes_eq, after_prefix, after_prefix_sound, eq_of_bytes_eq,
  Bool-cases,
}
use exasol_personal.Errors.{Result, ok, err, ok-injective}
use exasol_personal.Mutex.Marker.{
  exclusive_marker_name, shared_marker_prefix, shared, exclusive, MarkerInfo, max_int, pos, emit,
  itoa, all_digits, read_digits, atoi, count_of, parse_count, shared_marker, parse_shared,
  parse_marker, shared_marker_name, is_marker_name,
}

read-emit :
    (fuel n : ℕ) (out : Bytes) → n < fuel → read_digits (emit fuel n out) 0 ≡ read_digits out n
unfolding read_digits emit
read-emit zero n out h = elim h [ ]
read-emit (suc fuel) n out h = ground (arith, read-emit fuel (n / 10) ((b'0' + n % 10) ∷ out))

all_digits-emit :
    (fuel n : ℕ) (out : Bytes) → all_digits out ≡ true → all_digits (emit fuel n out) ≡ true
unfolding all_digits emit
all_digits-emit zero n out h = h
all_digits-emit (suc fuel) n out h =
    ground (arith, all_digits-emit fuel (n / 10) ((b'0' + n % 10) ∷ out))

emit-ne-nil : (fuel n c : ℕ) (out : Bytes) → emit fuel n (c ∷ out) ≢ []
unfolding emit
emit-ne-nil zero n c out e = cc
emit-ne-nil (suc fuel) n c out e =
    ground (arith, emit-ne-nil fuel (n / 10) (b'0' + n % 10) (c ∷ out))

itoa-ne-nil : (n : ℕ) → itoa (pos n) ≢ []
unfolding itoa emit
itoa-ne-nil n e = ground (arith, emit-ne-nil n (n / 10) (b'0' + n % 10) [])

atoi-itoa : (n : ℕ) → n ≤ max_int → atoi (itoa (pos n)) ≡ some n
unfolding atoi itoa read_digits
atoi-itoa n h = ground (arith, read-emit (suc n) n [])

parse_count_lem :
    (s : Bytes) (n : ℕ)
    → s ≢ []
    → all_digits s ≡ true
    → atoi s ≡ some n
    → 0 < n
    → parse_count s ≡ ok n
unfolding parse_count
parse_count_lem [] n ne digits value low = absurd (ne refl)
parse_count_lem (c ∷ s) n ne digits value low = rw (digits, value) (ground arith)

all_digits-itoa : (n : ℕ) → all_digits (itoa (pos n)) ≡ true
unfolding itoa all_digits
all_digits-itoa n = all_digits-emit (suc n) n [] refl

parse_marker-shared :
    (token : Bytes) (n : ℕ)
    → parse_count token ≡ ok n
    → parse_marker (shared_marker_prefix ++ token)
      ≡ ok (record { name = shared_marker_prefix ++ token; mode = shared; count = n })
unfolding parse_marker
parse_marker-shared token n h = cc h

-- The name written for a shared count in the range of a positive `int` is parsed as the shared
-- marker of that name and count.
pub parse-shared_marker_name :
    (n : ℕ)
    → 0 < n
    → n ≤ max_int
    → parse_marker (shared_marker_name (pos n))
      ≡ ok (record { name = shared_marker_name (pos n); mode = shared; count = n })
unfolding shared_marker_name
parse-shared_marker_name n low high =
    parse_marker-shared (itoa (pos n)) n
      (parse_count_lem (itoa (pos n)) n (itoa-ne-nil n) (all_digits-itoa n) (atoi-itoa n high) low)

parse_count_bounds : (s : Bytes) (n : ℕ) → parse_count s ≡ ok n → (0 < n) × (n ≤ max_int)
unfolding parse_count atoi count_of
parse_count_bounds [] n h = cc
parse_count_bounds (c ∷ s) n h = ground arith

-- What a parsed name can be.
pub data IsMarker (m : MarkerInfo) : Type 0 where
  is_exclusive : m.mode ≡ exclusive → m.name ≡ exclusive_marker_name → m.count ≡ 0 → IsMarker m
  is_shared :
      m.mode ≡ shared
      → (token : Bytes) → m.name ≡ shared_marker_prefix ++ token
      → parse_count token ≡ ok m.count
      → IsMarker m

parse_shared-IsMarker :
    (name : Bytes) (rest : Option Bytes) (m : MarkerInfo)
    → after_prefix shared_marker_prefix name ≡ rest
    → parse_shared name rest ≡ ok m
    → (m.name ≡ name) × IsMarker m
parse_shared-IsMarker name none m e h = cc
parse_shared-IsMarker name (some token) m e h = go (parse_count token) refl h
  where
    go :
        (r : Result ℕ)
        → parse_count token ≡ r
        → shared_marker name r ≡ ok m
        → (m.name ≡ name) × IsMarker m
    go (err x) p q = cc
    go (ok n) p q =
        subst (λ (k : MarkerInfo). (k.name ≡ name) × IsMarker k) (ok-injective q)
          (refl, is_shared refl token (after_prefix_sound shared_marker_prefix name token e) p)

-- A name that is parsed as a marker is the exclusive name, or the shared prefix followed by a
-- token that is read as a count; the marker keeps the name.
pub parse_marker-IsMarker :
    (name : Bytes) (m : MarkerInfo) → parse_marker name ≡ ok m → (m.name ≡ name) × IsMarker m
unfolding parse_marker
parse_marker-IsMarker name m h = elim (Bool-cases (bytes_eq name exclusive_marker_name)) [
  | inl e ↦
      subst (λ (k : MarkerInfo). (k.name ≡ name) × IsMarker k) (ok-injective (rw e at h))
        (refl, is_exclusive refl (eq_of_bytes_eq name exclusive_marker_name e) refl)
  | inr e ↦ parse_shared-IsMarker name (after_prefix shared_marker_prefix name) m refl (rw e at h)
]

-- A parsed marker is one that `IsMarkerName` knows.
pub is_marker_name-parse :
    (name : Bytes) (m : MarkerInfo) → parse_marker name ≡ ok m → is_marker_name name ≡ true
unfolding parse_marker is_marker_name
is_marker_name-parse name m h = ground arith

-- A shared marker's count is a positive `int`.
pub parse_marker_count :
    (name : Bytes) (m : MarkerInfo)
    → parse_marker name ≡ ok m
    → m.mode ≡ shared
    → (0 < m.count) × (m.count ≤ max_int)
parse_marker_count name m h s = go (parse_marker-IsMarker name m h).1
  where
    go : IsMarker m → (0 < m.count) × (m.count ≤ max_int)
    go (is_exclusive e _ _) = cc (e, s)
    go (is_shared _ token _ c) = parse_count_bounds token m.count c
