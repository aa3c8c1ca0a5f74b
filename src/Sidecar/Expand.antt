-- ===== src/Sidecar/Expand.antt =====
-- `Expand` and `expandReference` of internal/sidecar/resolve.go: the references "$(NAME)" of a text.
-- A position of the source is the text from there on.
use exasol_personal.Common.{
  ℕ, zero, suc, ◌≤◌, ◌≡◌, refl, ap, inl, inr, Option, none, some, List, [], ◌∷◌, ◌++◌, Bytes,
  length, ◌==◌, if◌then◌else◌, lookup, bytes_key, Bool-cases, arith,
}

abbrev pub Values : Type 0
Values = List (Bytes × Bytes)

abbrev pub longer : ℕ → Option (Bytes × Bytes) → Option (Bytes × Bytes)
longer c none = none
longer c (some (name, rest)) = some (c ∷ name, rest)

-- the text in front of the first ")" and behind it
unfoldable pub cut_bracket : Bytes → Option (Bytes × Bytes)
cut_bracket [] = none
cut_bracket (c ∷ s) =
    let rest = longer c (cut_bracket s) in if c == b')' then some ([], s) else rest

abbrev pub value_or : Bytes → Option Bytes → Bytes
value_or reference none = reference
value_or reference (some value) = value

abbrev pub reference : Bytes → Bytes
reference name = b'$' ∷ b'(' ∷ (name ++ (b')' ∷ []))

abbrev pub expansion : Values → Option (Bytes × Bytes) → Option (Bytes × Bytes)
expansion values none = none
expansion values (some (name, rest)) = some (value_or (reference name) (lookup name values), rest)

-- `expandReference`, behind a "$": the expansion, and the text behind the reference
unfoldable pub expand_reference : Values → Bytes → Option (Bytes × Bytes)
unfolding cut_bracket lookup
expand_reference values [] = none
expand_reference values (c ∷ s) = if c == b'(' then expansion values (cut_bracket s) else none

-- What one turn of the loop of `Expand` writes, and the text behind what it read.
abbrev pub or_byte : ℕ → Bytes → Option (Bytes × Bytes) → Bytes × Bytes
or_byte c s none = (c ∷ [], s)
or_byte c s (some r) = r

unfoldable pub turn : Values → ℕ → Bytes → Bytes × Bytes
unfolding expand_reference
turn values c [] = (c ∷ [], [])
turn values c (d ∷ s) =
    if c == b'$'
    then (if d == b'$' then (b'$' ∷ [], s) else or_byte c (d ∷ s) (expand_reference values (d ∷ s)))
    else (c ∷ [], d ∷ s)

unfoldable pub expand_with : Values → ℕ → Bytes → Bytes
unfolding turn
expand_with values fuel [] = []
expand_with values zero (c ∷ s) = []
expand_with values (suc fuel) (c ∷ s) =
    let (written, rest) = turn values c s in written ++ expand_with values fuel rest

-- `Expand`, with a turn for each byte
unfoldable pub expand : Bytes → Values → Bytes
unfolding expand_with
expand input values = expand_with values (length input) input

abbrev IsLeft : ℕ → Option (Bytes × Bytes) → Type 0
IsLeft n none = Unit {0}
IsLeft n (some (written, rest)) = length rest ≤ n

longer-IsLeft : (n c : ℕ) (o : Option (Bytes × Bytes)) → IsLeft n o → IsLeft n (longer c o)
longer-IsLeft n c none h = h
longer-IsLeft n c (some (name, rest)) h = h

cut_bracket-IsLeft : (s : Bytes) (n : ℕ) → length s ≤ n → IsLeft n (cut_bracket s)
unfolding cut_bracket
cut_bracket-IsLeft [] n h = tt
cut_bracket-IsLeft (c ∷ s) n h = elim (Bool-cases (c == b')')) [
  | inl e ↦ rw e (omega arith)
  | inr e ↦ rw e (longer-IsLeft n c (cut_bracket s) (cut_bracket-IsLeft s n (omega arith)))
]

expand_reference-IsLeft :
    (values : Values) (s : Bytes) (n : ℕ) → length s ≤ n → IsLeft n (expand_reference values s)
unfolding expand_reference
expand_reference-IsLeft values [] n h = tt
expand_reference-IsLeft values (c ∷ s) n h = elim (Bool-cases (c == b'(')) [
  | inl e ↦ rw e (go (cut_bracket s) (cut_bracket-IsLeft s n (omega arith)))
  | inr e ↦ rw e tt
]
  where
    go : (o : Option (Bytes × Bytes)) → IsLeft n o → IsLeft n (expansion values o)
    go none h = tt
    go (some (name, rest)) h = h

or_byte-shorter :
    (c : ℕ) (s : Bytes) (o : Option (Bytes × Bytes))
    → IsLeft (length s) o
    → length (or_byte c s o).1 ≤ length s
or_byte-shorter c s none h = omega arith
or_byte-shorter c s (some r) h = h

-- Each turn consumes a byte.
turn-shorter : (values : Values) (c : ℕ) (s : Bytes) → length (turn values c s).1 ≤ length s
unfolding turn
turn-shorter values c [] = omega arith
turn-shorter values c (d ∷ s) = ground (
  arith,
  or_byte-shorter c (d ∷ s) (expand_reference values (d ∷ s))
      (expand_reference-IsLeft values (d ∷ s) (length (d ∷ s)) (omega arith)),
)

expand_with-fuel :
    (values : Values) (f g : ℕ) (s : Bytes)
    → length s ≤ f
    → length s ≤ g
    → expand_with values f s ≡ expand_with values g s
unfolding expand_with
expand_with-fuel values zero zero s h k = refl
expand_with-fuel values zero (suc g) [] h k = refl
expand_with-fuel values (suc f) zero [] h k = refl
expand_with-fuel values (suc f) (suc g) [] h k = refl
expand_with-fuel values zero (suc g) (c ∷ s) h k = absurd (omega arith)
expand_with-fuel values (suc f) zero (c ∷ s) h k = absurd (omega arith)
expand_with-fuel values (suc f) (suc g) (c ∷ s) h k =
    let short = turn-shorter values c s in
    ap (λ r. (turn values c s).0 ++ r)
      (expand_with-fuel values f g (turn values c s).1 (omega arith) (omega arith))

-- The loop as an equation without fuel.
pub expand-cons :
    (c : ℕ) (s : Bytes) (values : Values)
    → expand (c ∷ s) values ≡ (turn values c s).0 ++ expand (turn values c s).1 values
unfolding expand expand_with
expand-cons c s values =
    ap (λ r. (turn values c s).0 ++ r)
      (expand_with-fuel values (length s) (length (turn values c s).1) (turn values c s).1
        (turn-shorter values c s) (omega arith))
