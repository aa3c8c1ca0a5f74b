-- ===== src/LocalParquet.antt =====
-- The statement that creates a table from a local Parquet file: the tokens of
-- internal/connect/types/local_parquet.go. A text is a list of runes, and a position of the source
-- is the text from there on; the tables of Unicode are parameters.
pub mod Parser
pub mod Turns
pub mod Rounds
pub mod Printing
pub mod Quoting
pub mod Statement
pub mod Recognised
pub mod Accepts
use exasol_personal.Common.{
  ℕ, zero, suc, Bool, true, false, ◌&&◌, ◌||◌, Option, none, some, List, [], ◌∷◌, ◌++◌, Bytes,
  codes, has_prefix, after_prefix, length, ◌==◌, if◌then◌else◌, is_space,
}

pub data TokenKind : Type 0 where
  word string quoted_identifier symbol : TokenKind

pub record SqlToken : Type 0 where
  pub kind : TokenKind
  pub value : Bytes

abbrev pub token : TokenKind → Bytes → SqlToken
token k v = record { kind = k; value = v }

-- `unicode.In` for `identifierStart` and `identifierPart`, `strings.ToUpper` on a rune, and
-- `strings.EqualFold`
pub record Unicode : Type 0 where
  pub is_start : ℕ → Bool
  pub is_part : ℕ → Bool
  pub to_upper : ℕ → ℕ
  pub equal_fold : Bytes → Bytes → Bool

abbrev pub middle_dot : ℕ
middle_dot = 0xb7

-- the text from the newline on
unfoldable pub skip_line_comment : Bytes → Bytes
skip_line_comment [] = []
skip_line_comment (c ∷ s) = let rest = skip_line_comment s in if c == 10 then c ∷ s else rest

-- what follows the "*/"; `none` is `unterminated`
unfoldable pub after_block : Bytes → Option Bytes
after_block [] = none
after_block (c ∷ s) =
    let rest = after_block s in
    elim (after_prefix (codes "*/") (c ∷ s)) [ none ↦ rest | some t ↦ some t ]

-- `skipBlockComment`, on the text that "/*" begins
unfoldable pub skip_block_comment : Bytes → Option Bytes
unfolding after_block
skip_block_comment s = elim (after_prefix (codes "/*") s) [ none ↦ none | some t ↦ after_block t ]

-- a value with one more rune in front
abbrev pub prepend : ℕ → Option (Bytes × Bytes) → Option (Bytes × Bytes)
prepend c none = none
prepend c (some (v, rest)) = some (c ∷ v, rest)

-- The loop of `readQuoted`, behind the opening quote: the value and what follows the closing
-- quote. A doubled quote is read at its second rune.
unfoldable pub quoted_value : ℕ → Bytes → Option (Bytes × Bytes)
quoted_value q [] = none
quoted_value q (c ∷ []) = if c == q then some ([], []) else none
quoted_value q (c ∷ d ∷ s) =
    let plain = prepend c (quoted_value q (d ∷ s)) in
    let doubled = prepend q (quoted_value q s) in
    if c == q then (if d == q then doubled else some ([], d ∷ s)) else plain

abbrev quoted_kind : ℕ → TokenKind
quoted_kind q = if q == b'"' then quoted_identifier else string

-- `readQuotedToken`, on the quote and the text behind it
unfoldable pub read_quoted_token : ℕ → Bytes → Option (SqlToken × Bytes)
unfolding quoted_value
read_quoted_token q s = elim (quoted_value q s) [
  | none ↦ none
  | some (v, rest) ↦ some (token (quoted_kind q) v, rest)
]

-- One turn of the loop of `tokenizeSQL`, at the rune `c`: the token, if there is one, and the
-- text from the new position on; `none` is `unterminated`.
abbrev pub Turn : Type 0
Turn = Option (Option SqlToken × Bytes)

abbrev pub no_token : Option Bytes → Turn
no_token none = none
no_token (some rest) = some (none, rest)

abbrev pub one_token : Option (SqlToken × Bytes) → Turn
one_token none = none
one_token (some (t, rest)) = some (some t, rest)

module _ (unicode : Unicode) where
  unfoldable pub is_word_rune : ℕ → Bool
  is_word_rune c = unicode.is_part c || c == middle_dot

  -- `readWord`: the value and what follows it
  unfoldable pub read_word : Bytes → Bytes × Bytes
  read_word [] = ([], [])
  read_word (c ∷ s) =
      let (v, rest) = read_word s in if is_word_rune c then (c ∷ v, rest) else ([], c ∷ s)

  unfoldable pub turn : ℕ → Bytes → Turn
  turn c s =
      if is_space c
      then some (none, s)
      else if has_prefix (codes "--") (c ∷ s)
      then some (none, skip_line_comment (c ∷ s))
      else if has_prefix (codes "/*") (c ∷ s)
      then no_token (skip_block_comment (c ∷ s))
      else if c == b'\'' || c == b'"'
      then one_token (read_quoted_token c s)
      else if is_word_rune c
      then some (some (token word (read_word (c ∷ s)).0), (read_word (c ∷ s)).1)
      else some (some (token symbol (c ∷ [])), s)

-- The result of `tokenizeSQL`, and that the fuel of the model ran out.
pub data Tokenized : Type 0 where
  out_of_fuel unterminated : Tokenized
  tokens : List SqlToken → Tokenized

abbrev pub add_token : Option SqlToken → Tokenized → Tokenized
add_token none r = r
add_token (some t) out_of_fuel = out_of_fuel
add_token (some t) unterminated = unterminated
add_token (some t) (tokens ts) = tokens (t ∷ ts)

abbrev pub continue : Turn → (Bytes → Tokenized) → Tokenized
continue none again = unterminated
continue (some (t, rest)) again = add_token t (again rest)

module _ (unicode : Unicode) where
  unfoldable pub tokenize_with : ℕ → Bytes → Tokenized
  tokenize_with fuel [] = tokens []
  tokenize_with zero (c ∷ s) = out_of_fuel
  tokenize_with (suc fuel) (c ∷ s) = continue (turn unicode c s) (tokenize_with fuel)

  -- `tokenizeSQL`, with a turn for each rune
  unfoldable pub tokenize_sql : Bytes → Tokenized
  unfolding tokenize_with
  tokenize_sql s = tokenize_with (length s) s
