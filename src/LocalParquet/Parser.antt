-- ===== src/LocalParquet/Parser.antt =====
-- `ParseLocalParquetTable` and the functions on tokens that it calls:
-- internal/connect/types/local_parquet.go.
use exasol_personal.Common.{
  ℕ, zero, suc, Bool, true, false, ◌&&◌, ◌||◌, Option, none, some, List, [], ◌∷◌, Bytes, codes, map,
  bytes_eq, length, leb, if◌then◌else◌,
}
use exasol_personal.LocalParquet.{
  TokenKind, word, string, quoted_identifier, symbol, SqlToken, Unicode, Tokenized, out_of_fuel,
  unterminated, tokens, tokenize_sql,
}

pub record LocalParquetTable : Type 0 where
  pub schema : Bytes
  pub table : Bytes
  pub path : Bytes
  pub replace : Bool

-- `nil, nil`; `ErrUnsupportedLocalParquetTable`; the table
pub data Parsed : Type 0 where
  unrelated unsupported : Parsed
  parsed : LocalParquetTable → Parsed

abbrev pub max_identifier_length : ℕ
max_identifier_length = 128

abbrev pub is_kind : TokenKind → TokenKind → Bool
is_kind word word = true
is_kind string string = true
is_kind quoted_identifier quoted_identifier = true
is_kind symbol symbol = true
is_kind _ _ = false

-- `isSymbol`
unfoldable pub is_symbol : Bytes → SqlToken → Bool
is_symbol v t = is_kind t.kind symbol && bytes_eq t.value v

unfoldable pub is_string : SqlToken → Bool
is_string t = is_kind t.kind string

-- the tokens without a last ";"
unfoldable pub without_semicolon : List SqlToken → List SqlToken
without_semicolon [] = []
without_semicolon (t ∷ []) = if is_symbol (codes ";") t then [] else t ∷ []
without_semicolon (t ∷ u ∷ ts) = t ∷ without_semicolon (u ∷ ts)

-- the loop over `pattern`, behind the test of the lengths
unfoldable pub matches : List (SqlToken → Bool) → List SqlToken → Bool
matches [] [] = true
matches [] (t ∷ ts) = false
matches (p ∷ ps) [] = false
matches (p ∷ ps) (t ∷ ts) = p t && matches ps ts

-- the value of the token at an index that the pattern has
unfoldable pub value_at : ℕ → List SqlToken → Bytes
value_at i [] = []
value_at zero (t ∷ ts) = t.value
value_at (suc i) (t ∷ ts) = value_at i ts

abbrev pub table_prefix : Bool → Option (List SqlToken) → Option (List SqlToken × Bool)
table_prefix replace none = none
table_prefix replace (some rest) = some (rest, replace)

abbrev pub or_unsupported : Option LocalParquetTable → Parsed
or_unsupported none = unsupported
or_unsupported (some t) = parsed t

module _ (unicode : Unicode) where
  -- `isWord`
  unfoldable pub is_word : Bytes → SqlToken → Bool
  is_word keyword t = is_kind t.kind word && unicode.equal_fold t.value keyword

  -- `expect`: the tokens behind the keyword
  unfoldable pub expect : Bytes → List SqlToken → Option (List SqlToken)
  expect keyword [] = none
  expect keyword (t ∷ ts) = if is_word keyword t then some ts else none

  -- behind CREATE
  unfoldable pub match_after_create : List SqlToken → Option (List SqlToken × Bool)
  match_after_create ts = elim (expect (codes "OR") ts) [
    | none ↦ table_prefix false (expect (codes "TABLE") ts)
    | some us ↦ elim (expect (codes "REPLACE") us) [
      | none ↦ none
      | some vs ↦ table_prefix true (expect (codes "TABLE") vs)
    ]
  ]

  -- `matchCreateTablePrefix`
  unfoldable pub match_create_table_prefix : List SqlToken → Option (List SqlToken × Bool)
  match_create_table_prefix ts = elim (expect (codes "CREATE") ts) [
    | none ↦ none
    | some rest ↦ match_after_create rest
  ]

  unfoldable pub contains_local_parquet : List SqlToken → Bool
  contains_local_parquet [] = false
  contains_local_parquet (t ∷ []) = false
  contains_local_parquet (t ∷ u ∷ ts) =
      (is_word (codes "LOCAL") t && is_word (codes "PARQUET") u) || contains_local_parquet (u ∷ ts)

  -- `runes[0]` of a word; a word that `tokenizeSQL` returns is not empty.
  abbrev pub starts_identifier : Bytes → Bool
  starts_identifier [] = false
  starts_identifier (c ∷ s) = unicode.is_start c

  unfoldable pub is_regular_identifier : SqlToken → Bool
  is_regular_identifier t =
      is_kind t.kind word && leb (length t.value) max_identifier_length && starts_identifier t.value

  abbrev pub import_pattern : List (SqlToken → Bool)
  import_pattern =
      is_regular_identifier
      ∷ is_symbol (codes ".")
      ∷ is_regular_identifier
      ∷ is_word (codes "AS")
      ∷ is_symbol (codes "(")
      ∷ is_word (codes "IMPORT")
      ∷ is_word (codes "FROM")
      ∷ is_word (codes "LOCAL")
      ∷ is_word (codes "PARQUET")
      ∷ is_word (codes "FILE")
      ∷ is_string
      ∷ is_symbol (codes ")")
      ∷ []

  abbrev pub upper : Bytes → Bytes
  upper s = map unicode.to_upper s

  -- `matchLocalParquetImport`, less its `Replace`
  unfoldable pub match_local_parquet_import : Bool → List SqlToken → Option LocalParquetTable
  match_local_parquet_import replace ts =
      let us = without_semicolon ts in
      if matches import_pattern us
      then some (record {
        schema = upper (value_at 0 us);
        table = upper (value_at 2 us);
        path = value_at 10 us;
        replace = replace;
      })
      else none

  -- `ParseLocalParquetTable`, on the tokens
  unfoldable pub parse_tokens : List SqlToken → Parsed
  parse_tokens ts = elim (match_create_table_prefix ts) [
    | none ↦ unrelated
    | some (rest, replace) ↦
        if contains_local_parquet rest
        then or_unsupported (match_local_parquet_import replace rest)
        else unrelated
  ]

  abbrev pub parse_tokenized : Tokenized → Parsed
  parse_tokenized out_of_fuel = unrelated
  parse_tokenized unterminated = unrelated
  parse_tokenized (tokens ts) = parse_tokens ts

  -- `ParseLocalParquetTable`
  unfoldable pub parse_local_parquet_table : Bytes → Parsed
  parse_local_parquet_table sql = parse_tokenized (tokenize_sql unicode sql)
