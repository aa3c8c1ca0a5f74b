-- ===== src/LocalParquet/Rounds.antt =====
-- Each turn of the loop of `tokenizeSQL` consumes a rune, so that one turn for each is enough:
-- internal/connect/types/local_parquet.go.
use exasol_personal.Common.{
  ℕ, zero, suc, ◌≤◌, ◌≡◌, ◌≢◌, refl, ap, inl, inr, Bool, true, false, Option, none, some, [], ◌∷◌,
  Bytes, codes, after_prefix, has_prefix, length, ◌==◌, if◌then◌else◌, Bool-cases, arith,
}
use exasol_personal.LocalParquet.Turns.{turn_cases}
use exasol_personal.LocalParquet.{
  SqlToken, Unicode, skip_line_comment, after_block, skip_block_comment, quoted_value, prepend,
  read_quoted_token, is_word_rune, read_word, Turn, no_token, one_token, turn, Tokenized,
  out_of_fuel, unterminated, tokens, add_token, continue, tokenize_with, tokenize_sql,
}

-- What is left, if anything is, is at most `n` runes long.
abbrev pub IsLeft : ℕ → Turn → Type 0
IsLeft n none = Unit {0}
IsLeft n (some (t, rest)) = length rest ≤ n

-- a record, so that the turn can be read off the type
pub record Leaves (n : ℕ) (t : Turn) : Type 0 where
  pub left : IsLeft n t

leaves : {n : ℕ} {t : Turn} → IsLeft n t → Leaves n t
leaves h = record { left = h }

abbrev LeavesValue : ℕ → Option (Bytes × Bytes) → Type 0
LeavesValue n none = Unit {0}
LeavesValue n (some (v, rest)) = length rest ≤ n

abbrev LeavesText : ℕ → Option Bytes → Type 0
LeavesText n none = Unit {0}
LeavesText n (some rest) = length rest ≤ n

length-skip_line_comment : (s : Bytes) → length (skip_line_comment s) ≤ length s
unfolding skip_line_comment
length-skip_line_comment [] = omega arith
length-skip_line_comment (c ∷ s) = ground (arith, length-skip_line_comment s)

after_prefix-Leaves : (p s : Bytes) (n : ℕ) → length s ≤ n → LeavesText n (after_prefix p s)
after_prefix-Leaves [] s n h = h
after_prefix-Leaves (x ∷ p) [] n h = tt
after_prefix-Leaves (x ∷ p) (c ∷ s) n h =
    go (x == c) (after_prefix p s) (after_prefix-Leaves p s n (omega arith))
  where
    go : (b : Bool) (o : Option Bytes) → LeavesText n o → LeavesText n (if b then o else none)
    go true o h = h
    go false o h = tt

after_block-Leaves : (s : Bytes) (n : ℕ) → length s ≤ n → LeavesText n (after_block s)
unfolding after_block
after_block-Leaves [] n h = tt
after_block-Leaves (c ∷ s) n h =
    go (after_prefix (codes "*/") (c ∷ s)) (after_prefix-Leaves (codes "*/") (c ∷ s) n h)
      (after_block-Leaves s n (omega arith))
  where
    go :
        (o : Option Bytes)
        → LeavesText n o
        → LeavesText n (after_block s)
        → LeavesText n (elim o [ none ↦ after_block s | some t ↦ some t ])
    go none h k = k
    go (some t) h k = h

prepend-Leaves :
    (c n : ℕ) (o : Option (Bytes × Bytes)) → LeavesValue n o → LeavesValue n (prepend c o)
prepend-Leaves c n none h = h
prepend-Leaves c n (some (v, rest)) h = h

quoted_value-Leaves : (q : ℕ) (s : Bytes) (n : ℕ) → length s ≤ n → LeavesValue n (quoted_value q s)
unfolding quoted_value
quoted_value-Leaves q [] n h = tt
quoted_value-Leaves q (c ∷ []) n h = elim (Bool-cases (c == q)) [
  | inl e ↦ rw e (omega arith)
  | inr e ↦ rw e tt
]
quoted_value-Leaves q (c ∷ d ∷ s) n h = elim (Bool-cases (c == q)) [
  | inl e ↦ elim (Bool-cases (d == q)) [
    | inl e' ↦
        rw (e, e') (prepend-Leaves q n (quoted_value q s) (quoted_value-Leaves q s n (omega arith)))
    | inr e' ↦ rw (e, e') (omega arith)
  ]
  | inr e ↦
      rw e (
        prepend-Leaves c n (quoted_value q (d ∷ s)) (quoted_value-Leaves q (d ∷ s) n (omega arith)))
]

module _ (unicode : Unicode) where
  length-read_word : (s : Bytes) → length (read_word unicode s).1 ≤ length s
  unfolding read_word
  length-read_word [] = omega arith
  length-read_word (c ∷ s) = ground (arith, length-read_word s)

  no_token-Leaves : (n : ℕ) (o : Option Bytes) → LeavesText n o → Leaves n (no_token o)
  no_token-Leaves n none h = leaves h
  no_token-Leaves n (some t) h = leaves h

  skip_block_comment-Leaves :
      (c : ℕ) (s : Bytes) → LeavesText (length s) (skip_block_comment (c ∷ s))
  unfolding skip_block_comment
  skip_block_comment-Leaves c s =
      first (47 == c) (
        go (after_prefix (codes "*") s)
          (after_prefix-Leaves (codes "*") s (length s) (omega arith)))
    where
      first :
          (b : Bool)
          → LeavesText
              (length s)
              (elim (after_prefix (codes "*") s) [ none ↦ none | some t ↦ after_block t ])
          → LeavesText (length s) (elim (if b then after_prefix (codes "*") s else none) [
            | none ↦ none
            | some t ↦ after_block t
          ])
      first true h = h
      first false h = tt

      go :
          (o : Option Bytes)
          → LeavesText (length s) o
          → LeavesText (length s) (elim o [ none ↦ none | some t ↦ after_block t ])
      go none h = tt
      go (some t) h = after_block-Leaves t (length s) h

  read_quoted_token-Leaves :
      (q : ℕ) (s : Bytes) → Leaves (length s) (one_token (read_quoted_token q s))
  unfolding read_quoted_token
  read_quoted_token-Leaves q s =
      go (quoted_value q s) refl (quoted_value-Leaves q s (length s) (omega arith))
    where
      go :
          (o : Option (Bytes × Bytes))
          → quoted_value q s ≡ o
          → LeavesValue (length s) o
          → Leaves (length s) (one_token (read_quoted_token q s))
      go none e h = rw (read_quoted_token, e) (leaves tt)
      go (some (v, rest)) e h = rw (read_quoted_token, e) (leaves h)

  line_comment-Leaves :
      (c : ℕ) (s : Bytes)
      → has_prefix (codes "--") (c ∷ s) ≡ true
      → length (skip_line_comment (c ∷ s)) ≤ length s
  unfolding skip_line_comment
  line_comment-Leaves c s h = ground (arith, h, length-skip_line_comment s)

  word_rest-Leaves :
      (c : ℕ) (s : Bytes)
      → is_word_rune unicode c ≡ true
      → length (read_word unicode (c ∷ s)).1 ≤ length s
  unfolding read_word
  word_rest-Leaves c s h = ground (arith, h, length-read_word s)

  pub turn-Leaves : (c : ℕ) (s : Bytes) → Leaves (length s) (turn unicode c s)
  turn-Leaves c s =
      turn_cases unicode (Leaves (length s)) c s (λ space. leaves (omega arith))
        (λ line. leaves (line_comment-Leaves c s line))
        (λ block. no_token-Leaves (length s) _ (skip_block_comment-Leaves c s))
        (λ quote. read_quoted_token-Leaves c s) (λ in_word. leaves (word_rest-Leaves c s in_word))
        (leaves (omega arith))

  tokenize_with-fuel :
      (f g : ℕ) (s : Bytes)
      → length s ≤ f
      → length s ≤ g
      → tokenize_with unicode f s ≡ tokenize_with unicode g s
  unfolding tokenize_with
  tokenize_with-fuel f g [] h k = same f g
    where
      same : (f g : ℕ) → tokenize_with unicode f [] ≡ tokenize_with unicode g []
      same zero zero = refl
      same zero (suc g) = refl
      same (suc f) zero = refl
      same (suc f) (suc g) = refl
  tokenize_with-fuel zero g (c ∷ s) h k = absurd (omega arith)
  tokenize_with-fuel (suc f) zero (c ∷ s) h k = absurd (omega arith)
  tokenize_with-fuel (suc f) (suc g) (c ∷ s) h k =
      go (turn unicode c s) (turn-Leaves c s).left (λ r. tokenize_with-fuel f g r)
    where
      go :
          (t : Turn)
          → IsLeft (length s) t
          → ((r : Bytes)
              → length r ≤ f
              → length r ≤ g
              → tokenize_with unicode f r ≡ tokenize_with unicode g r)
          → continue t (tokenize_with unicode f) ≡ continue t (tokenize_with unicode g)
      go none l ih = refl
      go (some (t, rest)) l ih = ap (add_token t) (ih rest (omega arith) (omega arith))

  -- The loop as an equation without fuel.
  pub tokenize_sql-cons :
      (c : ℕ) (s : Bytes)
      → tokenize_sql unicode (c ∷ s) ≡ continue (turn unicode c s) (tokenize_sql unicode)
  unfolding tokenize_sql tokenize_with
  tokenize_sql-cons c s = go (turn unicode c s) (turn-Leaves c s).left
    where
      go :
          (t : Turn)
          → IsLeft (length s) t
          → continue t (tokenize_with unicode (length s))
            ≡ continue t (λ r. tokenize_with unicode (length r) r)
      go none l = refl
      go (some (t, rest)) l =
          ap (add_token t) (tokenize_with-fuel (length s) (length rest) rest l (omega arith))

  tokenize_with-ends : (f : ℕ) (s : Bytes) → length s ≤ f → tokenize_with unicode f s ≢ out_of_fuel
  unfolding tokenize_with
  tokenize_with-ends zero [] h e = cc
  tokenize_with-ends (suc f) [] h e = cc
  tokenize_with-ends zero (c ∷ s) h e = absurd (omega arith)
  tokenize_with-ends (suc f) (c ∷ s) h e =
      go (turn unicode c s) (turn-Leaves c s).left (λ r. tokenize_with-ends f r) e
    where
      added : (t : Option SqlToken) (r : Tokenized) → r ≢ out_of_fuel → add_token t r ≢ out_of_fuel
      added none r h e = h e
      added (some t) out_of_fuel h e = h e
      added (some t) unterminated h e = cc
      added (some t) (tokens ts) h e = cc

      go :
          (t : Turn)
          → IsLeft (length s) t
          → ((r : Bytes) → length r ≤ f → tokenize_with unicode f r ≢ out_of_fuel)
          → continue t (tokenize_with unicode f) ≢ out_of_fuel
      go none l ih e = cc
      go (some (t, rest)) l ih e = added t (tokenize_with unicode f rest) (ih rest (omega arith)) e

  -- One turn for each rune is enough: `tokenizeSQL` ends on every text.
  pub tokenize_sql_ends : (s : Bytes) → tokenize_sql unicode s ≢ out_of_fuel
  unfolding tokenize_sql
  tokenize_sql_ends s = tokenize_with-ends (length s) s (omega arith)
