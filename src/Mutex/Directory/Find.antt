-- ===== src/Mutex/Directory/Find.antt =====
-- How `findMarker` answers, in terms of the entries, and after the directory was changed.
use exasol_personal.Common.{
  ◌≡◌, refl, sym, subst, ◌⊎◌, inl, inr, true, false, Option, none, some, List, [], ◌∷◌, arith,
  Bool-cases,
}
use exasol_personal.Errors.{Result, ok, err, ok-injective}
use exasol_personal.Mutex.Marker.{MarkerInfo, parse_marker}
use exasol_personal.Mutex.Directory.{Entry, is_candidate, find_from}

-- no entry is a candidate
abbrev pub NoMarker : List Entry → Type 0
NoMarker [] = Unit
NoMarker (e ∷ es) = (is_candidate e ≡ false) × NoMarker es

-- one entry is a candidate, and its name is read as the marker `m`
abbrev pub SoleMarker : MarkerInfo → List Entry → Type 0
SoleMarker m [] = ⊥
SoleMarker m (e ∷ es) =
    ((is_candidate e ≡ true) × (parse_marker e.name ≡ ok m) × NoMarker es)
    ⊎ ((is_candidate e ≡ false) × SoleMarker m es)

abbrev pub Finds : Option MarkerInfo → List Entry → Type 0
Finds none es = NoMarker es
Finds (some m) es = SoleMarker m es

pub find_from-NoMarker :
    (m : Option MarkerInfo) (es : List Entry) → NoMarker es → find_from m es ≡ ok m
unfolding find_from
find_from-NoMarker m [] h = refl
find_from-NoMarker m (e ∷ es) h = ground (arith, find_from-NoMarker m es h.1)

pub find_from-SoleMarker :
    (m : MarkerInfo) (es : List Entry) → SoleMarker m es → find_from none es ≡ ok (some m)
unfolding find_from
find_from-SoleMarker m [] h = absurd h
find_from-SoleMarker m (e ∷ es) (inl (c, p, h)) = ground (arith, find_from-NoMarker (some m) es h)
find_from-SoleMarker m (e ∷ es) (inr (c, h)) = ground (arith, find_from-SoleMarker m es h)

pub some_found :
    (m : MarkerInfo) (es : List Entry) (r : Option MarkerInfo)
    → find_from (some m) es ≡ ok r
    → NoMarker es × (r ≡ some m)
unfolding find_from
some_found m [] r h = (tt, ground arith)
some_found m (e ∷ es) r h = elim (Bool-cases (is_candidate e)) [
  | inl c ↦ absurd (ground arith)
  | inr c ↦ let (q, s) = some_found m es r (ground arith) in ((c, q), s)
]

pub find_from-Finds :
    (es : List Entry) (r : Option MarkerInfo) → find_from none es ≡ ok r → Finds r es
unfolding find_from
find_from-Finds [] r h = subst (λ k. Finds k []) (ok-injective h) tt
find_from-Finds (e ∷ es) r h = elim (Bool-cases (is_candidate e)) [
  | inl c ↦ go (parse_marker e.name) refl c
  | inr c ↦ keep_looking r (find_from-Finds es r (ground arith)) c
]
  where
    keep_looking : (r : Option MarkerInfo) → Finds r es → is_candidate e ≡ false → Finds r (e ∷ es)
    keep_looking none f c = (c, f)
    keep_looking (some m) f c = inr (c, f)

    go :
        (p : Result MarkerInfo) → parse_marker e.name ≡ p → is_candidate e ≡ true → Finds r (e ∷ es)
    go (err x) p c = absurd (ground arith)
    go (ok m) p c =
        let (q, s) = some_found m es r (ground arith) in
        subst (λ k. Finds k (e ∷ es)) (sym s) (inl (c, p, q))
