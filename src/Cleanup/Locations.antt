-- ===== src/Cleanup/Locations.antt =====
-- `ResolvedLocations` of tools/cleanup/pkg/cleanup/orchestration.go.
use exasol_personal.Common.{
  ◌≡◌, ◌⊎◌, refl, sym, ap, ◌∙◌, inl, inr, Bool, true, false, not, ◌&&◌, ◌||◌, List, [], ◌∷◌, ◌++◌,
  Bytes, bytes_eq, bytes_eq_refl, eq_of_bytes_eq, if◌then◌else◌, Bool-cases, contains, IsDistinct,
  bytes_eq-false_comm, arith,
}
use exasol_personal.Cleanup.{distinct_locations, or_defaults, resolved_locations}

contains-append :
    (xs : List Bytes) (y x : Bytes) → contains (xs ++ (y ∷ [])) x ≡ (contains xs x || bytes_eq y x)
unfolding contains
contains-append [] y x = ground arith
contains-append (z ∷ xs) y x = ground (arith, contains-append xs y x)

IsDistinct-append :
    (xs : List Bytes) (y : Bytes)
    → IsDistinct xs
    → contains xs y ≡ false
    → IsDistinct (xs ++ (y ∷ []))
unfolding contains
IsDistinct-append [] y d h = (refl, tt)
IsDistinct-append (x ∷ xs) y d h =
    let other : bytes_eq x y ≡ false = ground (arith, h) in
    let later : contains xs y ≡ false = ground (arith, h) in
    (
      contains-append xs y x ∙ rw (d.0, bytes_eq-false_comm x y other) refl,
      IsDistinct-append xs y d.1 later,
    )

distinct_locations-IsDistinct :
    (taken xs : List Bytes) → IsDistinct taken → IsDistinct (distinct_locations taken xs)
unfolding distinct_locations
distinct_locations-IsDistinct taken [] d = d
distinct_locations-IsDistinct taken (x ∷ xs) d =
    distinct_locations-IsDistinct
      (if bytes_eq x [] || contains taken x then taken else taken ++ (x ∷ [])) xs
      (go (bytes_eq x []) (Bool-cases (contains taken x)))
  where
    go :
        (empty : Bool)
        → (contains taken x ≡ true) ⊎ (contains taken x ≡ false)
        → IsDistinct (if empty || contains taken x then taken else taken ++ (x ∷ []))
    go true c = d
    go false (inl e) = rw e d
    go false (inr e) = rw e (IsDistinct-append taken x d e)

taken_or_new :
    (taken : List Bytes) (x y : Bytes) (later : Bool)
    → (contains (if bytes_eq x [] || contains taken x then taken else taken ++ (x ∷ [])) y
        || (not (bytes_eq y []) && later))
      ≡ (contains taken y || (not (bytes_eq y []) && (bytes_eq x y || later)))
taken_or_new taken x y later = elim (Bool-cases (bytes_eq x y)) [
  | inl e ↦
      let same = eq_of_bytes_eq x y e in
      let empty = ap (λ z. bytes_eq z []) same in
      let there = ap (contains taken) same in ground (arith, contains-append taken x y)
  | inr e ↦ ground (arith, contains-append taken x y)
]

contains-distinct_locations :
    (taken xs : List Bytes) (y : Bytes)
    → contains (distinct_locations taken xs) y
      ≡ (contains taken y || (not (bytes_eq y []) && contains xs y))
unfolding distinct_locations contains
contains-distinct_locations taken [] y = ground arith
contains-distinct_locations taken (x ∷ xs) y =
    contains-distinct_locations
      (if bytes_eq x [] || contains taken x then taken else taken ++ (x ∷ [])) xs y
    ∙ taken_or_new taken x y (contains xs y)

-- the location is not empty and among the explicit ones
abbrev pub is_given : List Bytes → Bytes → Bool
is_given explicit y = not (bytes_eq y []) && contains explicit y

-- Where some explicit location is not empty, `ResolvedLocations` gives the explicit locations that
-- are not empty, each once, and no others; where there is none, it gives the defaults as they are.
pub resolved_locations_lem :
    (explicit defaults : List Bytes)
    → (((y : Bytes) → is_given explicit y ≡ false)
        × (resolved_locations explicit defaults ≡ defaults))
      ⊎ (((y : Bytes) × (is_given explicit y ≡ true))
          × IsDistinct (resolved_locations explicit defaults)
          × ((y : Bytes) → contains (resolved_locations explicit defaults) y ≡ is_given explicit y))
unfolding resolved_locations contains
resolved_locations_lem explicit defaults =
    go (distinct_locations [] explicit) (distinct_locations-IsDistinct [] explicit tt)
      (contains-distinct_locations [] explicit)
  where
    go :
        (ls : List Bytes)
        → IsDistinct ls
        → ((y : Bytes) → contains ls y ≡ (contains [] y || is_given explicit y))
        → (((y : Bytes) → is_given explicit y ≡ false) × (or_defaults ls defaults ≡ defaults))
          ⊎ (((y : Bytes) × (is_given explicit y ≡ true))
              × IsDistinct (or_defaults ls defaults)
              × ((y : Bytes) → contains (or_defaults ls defaults) y ≡ is_given explicit y))
    go [] d c = inl (λ y. sym (c y), refl)
    go (l ∷ ls) d c = inr ((l, sym (c l) ∙ ground (arith, bytes_eq_refl l)), d, λ y. c y)
