-- ===== src/Sidecar/Template.antt =====
-- A text put together from literal parts, their dollar signs doubled, and references, is expanded
-- part by part: `Expand` of internal/sidecar/resolve.go.
use mathlib.Core.List.{append_assoc}
use exasol_personal.Common.{
  ℕ, ◌≡◌, refl, ap, ◌∙◌, inl, inr, false, some, List, [], ◌∷◌, ◌++◌, Bytes, ◌==◌, ==_iff,
  if◌then◌else◌, lookup, bytes_key, All, Bool-cases, sym,
}
use exasol_personal.Sidecar.Expand.{
  Values, cut_bracket, longer, value_or, reference, expansion, expand_reference, or_byte, turn,
  expand, expand_with, expand-cons,
}

pub data Part : Type 0 where
  literal named : Bytes → Part

-- a text with each dollar sign doubled
unfoldable pub double_dollars : Bytes → Bytes
double_dollars [] = []
double_dollars (c ∷ s) =
    let rest = double_dollars s in if c == b'$' then b'$' ∷ b'$' ∷ rest else c ∷ rest

abbrev pub print_part : Part → Bytes
print_part (literal t) = double_dollars t
print_part (named n) = reference n

unfoldable pub print : List Part → Bytes
unfolding double_dollars
print [] = []
print (p ∷ ps) = print_part p ++ print ps

abbrev pub part_value : Values → Part → Bytes
part_value values (literal t) = t
part_value values (named n) = value_or (reference n) (lookup n values)

unfoldable pub value_of : Values → List Part → Bytes
unfolding lookup
value_of values [] = []
value_of values (p ∷ ps) = part_value values p ++ value_of values ps

-- A name has no closing bracket.
abbrev pub IsPart : Part → Type 0
IsPart (literal t) = Unit {0}
IsPart (named n) = All (λ c. (c == b')') ≡ false) n

turn-plain :
    (values : Values) (c : ℕ) (s : Bytes) → (c == b'$') ≡ false → turn values c s ≡ (c ∷ [], s)
unfolding turn
turn-plain values c [] h = refl
turn-plain values c (d ∷ s) h = rw h refl

cut_bracket-append :
    (n rest : Bytes)
    → All (λ c. (c == b')') ≡ false) n
    → cut_bracket (n ++ (b')' ∷ rest)) ≡ some (n, rest)
unfolding cut_bracket
cut_bracket-append [] rest h = refl
cut_bracket-append (c ∷ n) rest h = rw h.0 (ap (longer c) (cut_bracket-append n rest h.1))

turn-reference :
    (values : Values) (n rest : Bytes)
    → All (λ c. (c == b')') ≡ false) n
    → turn values b'$' (b'(' ∷ (n ++ (b')' ∷ rest)))
      ≡ (value_or (reference n) (lookup n values), rest)
unfolding turn expand_reference
turn-reference values n rest h =
    ap (λ o. or_byte b'$' (b'(' ∷ (n ++ (b')' ∷ rest))) (expansion values o))
      (cut_bracket-append n rest h)

expand-double_dollars :
    (values : Values) (t rest : Bytes)
    → expand (double_dollars t ++ rest) values ≡ t ++ expand rest values
unfolding double_dollars
expand-double_dollars values [] rest = refl
expand-double_dollars values (c ∷ t) rest = elim (Bool-cases (c == b'$')) [
  | inl e ↦ rw e (
      expand-cons b'$' (b'$' ∷ (double_dollars t ++ rest)) values
      ∙ (escaped
          ∙ (ap (λ r. b'$' ∷ r) (expand-double_dollars values t rest)
              ∙ ap (λ (d : ℕ). d ∷ (t ++ expand rest values)) (sym ((==_iff c b'$').0 e)))))
  | inr e ↦ rw e (
      expand-cons c (double_dollars t ++ rest) values
      ∙ (ap (λ (w : Bytes × Bytes). w.0 ++ expand w.1 values)
            (turn-plain values c (double_dollars t ++ rest) e)
          ∙ ap (λ r. c ∷ r) (expand-double_dollars values t rest)))
]
  where
    escaped :
        (turn values b'$' (b'$' ∷ (double_dollars t ++ rest))).0
          ++ expand (turn values b'$' (b'$' ∷ (double_dollars t ++ rest))).1 values
        ≡ b'$' ∷ expand (double_dollars t ++ rest) values
    escaped = unfold turn in refl

expand-part :
    (values : Values) (p : Part) (rest : Bytes)
    → IsPart p
    → expand (print_part p ++ rest) values ≡ part_value values p ++ expand rest values
expand-part values (literal t) rest h = expand-double_dollars values t rest
expand-part values (named n) rest h =
    ap (λ s. expand (b'$' ∷ b'(' ∷ s) values) (append_assoc n (b')' ∷ []) rest)
    ∙ (expand-cons b'$' (b'(' ∷ (n ++ (b')' ∷ rest))) values
        ∙ ap (λ (w : Bytes × Bytes). w.0 ++ expand w.1 values) (turn-reference values n rest h))

-- A text printed from literal parts, with their dollar signs doubled, and from references to names
-- without a closing bracket expands to the literal parts as they were, the values of the names that
-- have one, and the references to the others as they stand.
pub expand-print :
    (values : Values) (ps : List Part)
    → All IsPart ps
    → expand (print ps) values ≡ value_of values ps
unfolding print value_of
expand-print values [] h = unfold expand expand_with in refl
expand-print values (p ∷ ps) h =
    expand-part values p (print ps) h.0
    ∙ ap (λ r. part_value values p ++ r) (expand-print values ps h.1)
