-- ===== src/LocalParquet/Quoting.antt =====
-- A quoted text, printed with its quotes doubled, is read back: `readQuoted` of
-- internal/connect/types/local_parquet.go.
use exasol_personal.Common.{
  ℕ, ◌≡◌, refl, sym, ap, ◌∙◌, ==_iff, inl, inr, false, some, [], ◌∷◌, ◌++◌, Bytes, ◌==◌,
  if◌then◌else◌, Bool-cases, arith,
}
use exasol_personal.LocalParquet.{quoted_value, prepend}

-- a value as it stands between two quotes `q`
unfoldable pub double_quotes : ℕ → Bytes → Bytes
double_quotes q [] = []
double_quotes q (c ∷ v) = let rest = double_quotes q v in if c == q then q ∷ q ∷ rest else c ∷ rest

quoted_value-plain :
    (q c : ℕ) (s : Bytes) → (c == q) ≡ false → quoted_value q (c ∷ s) ≡ prepend c (quoted_value q s)
unfolding quoted_value
quoted_value-plain q c [] h = rw h refl
quoted_value-plain q c (d ∷ s) h = rw h refl

-- A value printed with doubled quotes, its closing quote and a rune that is no quote: the value and
-- what follows the quote are read back.
pub quoted_value-double_quotes :
    (q : ℕ) (v : Bytes) (d : ℕ) (rest : Bytes)
    → (d == q) ≡ false
    → quoted_value q (double_quotes q v ++ (q ∷ d ∷ rest)) ≡ some (v, d ∷ rest)
unfolding double_quotes
quoted_value-double_quotes q [] d rest h = closing
  where
    closing : quoted_value q (q ∷ d ∷ rest) ≡ some ([], d ∷ rest)
    closing = unfold quoted_value in ground (arith, h)
quoted_value-double_quotes q (c ∷ v) d rest h = elim (Bool-cases (c == q)) [
  | inl e ↦ rw e (
      doubled
      ∙ ap (prepend q) (quoted_value-double_quotes q v d rest h)
      ∙ ap (λ (x : ℕ). some (x ∷ v, d ∷ rest)) (sym ((==_iff c q).0 e)))
  | inr e ↦ rw e (
      quoted_value-plain q c (double_quotes q v ++ (q ∷ d ∷ rest)) e
      ∙ ap (prepend c) (quoted_value-double_quotes q v d rest h))
]
  where
    doubled :
        quoted_value q (q ∷ q ∷ (double_quotes q v ++ (q ∷ d ∷ rest)))
        ≡ prepend q (quoted_value q (double_quotes q v ++ (q ∷ d ∷ rest)))
    doubled = unfold quoted_value in ground arith
