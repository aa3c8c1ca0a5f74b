-- ===== src/LocalParquet/Turns.antt =====
-- What one turn of the loop of `tokenizeSQL` does, by the rune that it meets:
-- internal/connect/types/local_parquet.go.
use exasol_personal.Common.{
  ℕ, Bool, ◌≡◌, inl, inr, true, ◌||◌, some, none, [], ◌∷◌, Bytes, codes, has_prefix, ◌==◌, is_space,
  Bool-cases,
}
use exasol_personal.LocalParquet.{
  word, symbol, token, Unicode, skip_line_comment, skip_block_comment, read_quoted_token,
  is_word_rune, read_word, Turn, no_token, one_token, turn,
}

abbrev pub is_quote : ℕ → Bool
is_quote c = c == b'\'' || c == b'"'

module _ (unicode : Unicode) where
  abbrev pub word_turn : ℕ → Bytes → Turn
  word_turn c s =
      some (some (token word (read_word unicode (c ∷ s)).0), (read_word unicode (c ∷ s)).1)

  abbrev pub symbol_turn : ℕ → Bytes → Turn
  symbol_turn c s = some (some (token symbol (c ∷ [])), s)

  pub turn_cases {κ} :
      (P : Turn → Type κ) (c : ℕ) (s : Bytes)
      → (is_space c ≡ true → P (some (none, s)))
      → (has_prefix (codes "--") (c ∷ s) ≡ true → P (some (none, skip_line_comment (c ∷ s))))
      → (has_prefix (codes "/*") (c ∷ s) ≡ true → P (no_token (skip_block_comment (c ∷ s))))
      → (is_quote c ≡ true → P (one_token (read_quoted_token c s)))
      → (is_word_rune unicode c ≡ true → P (word_turn c s))
      → P (symbol_turn c s)
      → P (turn unicode c s)
  unfolding turn
  turn_cases P c s space line block quote in_word other = elim (Bool-cases (is_space c)) [
    | inl e ↦ rw (turn, e) (space e)
    | inr e ↦ elim (Bool-cases (has_prefix (codes "--") (c ∷ s))) [
      | inl f ↦ rw (turn, e, f) (line f)
      | inr f ↦ elim (Bool-cases (has_prefix (codes "/*") (c ∷ s))) [
        | inl g ↦ rw (turn, e, f, g) (block g)
        | inr g ↦ elim (Bool-cases (is_quote c)) [
          | inl h ↦ rw (turn, e, f, g, h) (quote h)
          | inr h ↦ elim (Bool-cases (is_word_rune unicode c)) [
            | inl i ↦ rw (turn, e, f, g, h, i) (in_word i)
            | inr i ↦ rw (turn, e, f, g, h, i) other
          ]
        ]
      ]
    ]
  ]
