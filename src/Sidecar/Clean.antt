-- ===== src/Sidecar/Clean.antt =====
-- A text without NUL stays so under `Expand` of internal/sidecar/resolve.go.
use exasol_personal.Common.{
  ℕ, zero, suc, ◌≡◌, refl, inl, inr, false, Option, none, some, List, [], ◌∷◌, ◌++◌, map, Bytes,
  bytes_eq, length, ◌==◌, lookup, put, bytes_key, Bool-cases, arith, All,
}
use exasol_personal.Sidecar.Document.{has_byte}
use exasol_personal.Sidecar.Expand.{
  Values, longer, cut_bracket, value_or, reference, expansion, expand_reference, or_byte, turn,
  expand_with, expand,
}

abbrev pub IsClean : Bytes → Type 0
IsClean s = has_byte 0 s ≡ false

abbrev pub AreClean : Values → Type 0
AreClean = All (λ (kv : Bytes × Bytes). IsClean kv.1)

abbrev IsCleanPair : Bytes × Bytes → Type 0
IsCleanPair (a, b) = IsClean a × IsClean b

abbrev IsCleanOption : Option (Bytes × Bytes) → Type 0
IsCleanOption none = Unit {0}
IsCleanOption (some r) = IsCleanPair r

IsClean-append : (s t : Bytes) → IsClean s → IsClean t → IsClean (s ++ t)
unfolding has_byte
IsClean-append [] t h k = k
IsClean-append (c ∷ s) t h k = rw (IsClean-append s t (ground (arith, h)) k) (ground (arith, h))

longer-IsClean :
    (c : ℕ) (o : Option (Bytes × Bytes))
    → (c == 0) ≡ false
    → IsCleanOption o
    → IsCleanOption (longer c o)
unfolding has_byte
longer-IsClean c none e h = tt
longer-IsClean c (some (name, rest)) e h = (ground (arith, e, h.0), h.1)

cut_bracket-IsClean : (s : Bytes) → IsClean s → IsCleanOption (cut_bracket s)
unfolding cut_bracket has_byte
cut_bracket-IsClean [] h = tt
cut_bracket-IsClean (c ∷ s) h = elim (Bool-cases (c == b')')) [
  | inl e ↦ rw e (refl, ground (arith, h))
  | inr e ↦ rw e (
      longer-IsClean c (cut_bracket s) (ground (arith, h))
        (cut_bracket-IsClean s (ground (arith, h))))
]

lookup-IsClean :
    (name reference : Bytes) (values : Values)
    → AreClean values
    → IsClean reference
    → IsClean (value_or reference (lookup name values))
unfolding lookup
lookup-IsClean name reference [] vs h = h
lookup-IsClean name reference ((k, v) ∷ values) vs h = elim (Bool-cases (bytes_eq name k)) [
  | inl e ↦ rw e vs.0
  | inr e ↦ rw e (lookup-IsClean name reference values vs.1 h)
]

reference-IsClean : (name : Bytes) → IsClean name → IsClean (reference name)
unfolding has_byte
reference-IsClean name h = IsClean-append name (b')' ∷ []) h refl

expand_reference-IsClean :
    (values : Values) (s : Bytes)
    → AreClean values
    → IsClean s
    → IsCleanOption (expand_reference values s)
unfolding expand_reference has_byte
expand_reference-IsClean values [] vs h = tt
expand_reference-IsClean values (c ∷ s) vs h = elim (Bool-cases (c == b'(')) [
  | inl e ↦ rw e (go (cut_bracket s) (cut_bracket-IsClean s (ground (arith, h))))
  | inr e ↦ rw e tt
]
  where
    go : (o : Option (Bytes × Bytes)) → IsCleanOption o → IsCleanOption (expansion values o)
    go none k = tt
    go (some (name, rest)) k =
        (lookup-IsClean name (reference name) values vs (reference-IsClean name k.0), k.1)

turn-IsClean :
    (values : Values) (c : ℕ) (s : Bytes)
    → AreClean values
    → IsClean (c ∷ s)
    → IsCleanPair (turn values c s)
unfolding turn has_byte
turn-IsClean values c [] vs h = (h, refl)
turn-IsClean values c (d ∷ s) vs h = elim (Bool-cases (c == b'$')) [
  | inl e ↦ elim (Bool-cases (d == b'$')) [
    | inl k ↦ rw (e, k) (refl, ground (arith, h))
    | inr k ↦
        rw (e, k)
          (go (expand_reference values (d ∷ s))
            (expand_reference-IsClean values (d ∷ s) vs (ground (arith, h))))
  ]
  | inr e ↦ rw e (ground (arith, h), ground (arith, h))
]
  where
    go : (o : Option (Bytes × Bytes)) → IsCleanOption o → IsCleanPair (or_byte c (d ∷ s) o)
    go none k = (ground (arith, h), ground (arith, h))
    go (some r) k = k

expand_with-IsClean :
    (values : Values) (fuel : ℕ) (s : Bytes)
    → AreClean values
    → IsClean s
    → IsClean (expand_with values fuel s)
unfolding expand_with has_byte
expand_with-IsClean values zero [] vs h = refl
expand_with-IsClean values (suc fuel) [] vs h = refl
expand_with-IsClean values zero (c ∷ s) vs h = refl
expand_with-IsClean values (suc fuel) (c ∷ s) vs h =
    let (written, rest) = turn-IsClean values c s vs h in
    IsClean-append (turn values c s).0 (expand_with values fuel (turn values c s).1) written
      (expand_with-IsClean values fuel (turn values c s).1 vs rest)

pub expand-IsClean :
    (values : Values) (s : Bytes) → AreClean values → IsClean s → IsClean (expand s values)
unfolding expand
expand-IsClean values s vs h = expand_with-IsClean values (length s) s vs h

pub put-AreClean :
    (name value : Bytes) (values : Values)
    → AreClean values
    → IsClean value
    → AreClean (put name value values)
unfolding put
put-AreClean name value [] vs h = (h, tt)
put-AreClean name value ((k, v) ∷ values) vs h = elim (Bool-cases (bytes_eq name k)) [
  | inl e ↦ rw e (h, vs.1)
  | inr e ↦ rw e (vs.0, put-AreClean name value values vs.1 h)
]

-- a list of texts: the command or the arguments
pub map-expand-AreClean :
    (values : Values) (ss : List Bytes)
    → AreClean values
    → All IsClean ss
    → All IsClean (map (λ s. expand s values) ss)
map-expand-AreClean values [] vs h = tt
map-expand-AreClean values (s ∷ ss) vs h =
    (expand-IsClean values s vs h.0, map-expand-AreClean values ss vs h.1)
