-- ===== src/Tests/LocalParquetTests.antt =====
-- Runs of the parser of internal/connect/types/local_parquet.go on ASCII texts, and its theorems at
-- concrete inputs.
use exasol_personal.Common.{
  ℕ, suc, ◌-◌, ◌≡◌, ◌↔◌, refl, sym, ap, ◌∙◌, Bool, true, false, ◌&&◌, ◌||◌, [], ◌∷◌, map, Bytes,
  codes, bytes_eq, bytes_eq_refl, eq_of_bytes_eq, length, leb, ◌==◌, if◌then◌else◌, is_space, arith,
}
use exasol_personal.LocalParquet.{
  Unicode, skip_line_comment, after_block, skip_block_comment, quoted_value, read_quoted_token,
  is_word_rune, read_word, turn, tokenize_with, tokenize_sql,
}
use exasol_personal.LocalParquet.Parser.{
  parsed, is_symbol, is_string, without_semicolon, matches, value_at, is_word, expect,
  match_after_create, match_create_table_prefix, contains_local_parquet, is_regular_identifier,
  match_local_parquet_import, parse_tokens, parse_local_parquet_table, upper,
}
use exasol_personal.LocalParquet.Printing.{PartLaws, print}
use exasol_personal.LocalParquet.Recognised.{FoldsRunes, Creates}
use exasol_personal.LocalParquet.Accepts.{parse_tokens_iff}
use exasol_personal.LocalParquet.Statement.{UnicodeLaws, statement_tokens, parse-statement}

abbrev is_letter : ℕ → Bool
is_letter c = (leb b'A' c && leb c b'Z') || (leb b'a' c && leb c b'z')

abbrev to_upper : ℕ → ℕ
to_upper c = if leb b'a' c && leb c b'z' then c - 32 else c

abbrev ascii : Unicode
ascii = record {
  is_start = is_letter;
  is_part = λ c. is_letter c || (leb b'0' c && leb c b'9') || c == b'_';
  to_upper = to_upper;
  equal_fold = λ s t. bytes_eq (map to_upper s) (map to_upper t);
}

sample_parsed :
    parse_local_parquet_table ascii
      (codes "create /* a */ table s.t_1 as (import from local parquet file '/it''s') ;")
    ≡ parsed
        (record { schema = codes "S"; table = codes "T_1"; path = codes "/it's"; replace = false })
unfolding parse_local_parquet_table tokenize_sql tokenize_with turn is_space skip_line_comment
    after_block skip_block_comment quoted_value read_quoted_token is_word_rune read_word
    parse_tokens match_create_table_prefix match_after_create expect is_word contains_local_parquet
    match_local_parquet_import without_semicolon matches is_symbol is_string is_regular_identifier
    value_at
sample_parsed = refl

abbrev quoted_sample : Bytes
quoted_sample = codes "a'b"

space_part : (c : ℕ) → is_space c ≡ true → ascii.is_part c ≡ false
unfolding is_space
space_part c h = ground arith

ascii_parts : PartLaws ascii
ascii_parts = record { space = space_part; punctuation = λ c h. ground arith }

length-map_upper : (s : Bytes) → length (map to_upper s) ≡ length s
length-map_upper [] = refl
length-map_upper (c ∷ s) = ap (λ (n : ℕ). suc n) (length-map_upper s)

ascii_folds : FoldsRunes ascii
ascii_folds s t h =
    sym (length-map_upper s)
    ∙ (ap (λ (u : Bytes). length u) (eq_of_bytes_eq (map to_upper s) (map to_upper t) h)
        ∙ length-map_upper t)

ascii_laws : UnicodeLaws ascii
ascii_laws = record {
  parts = ascii_parts;
  capitals = λ c h. ground arith;
  symbols = λ c h. ground arith;
  fold_refl = λ s. bytes_eq_refl (map to_upper s);
  folds = ascii_folds;
}

parse-statement_example :
    parse_local_parquet_table ascii
      (print (statement_tokens true (codes "s") (codes "t") quoted_sample))
    ≡ parsed (record {
      schema = upper ascii (codes "s");
      table = upper ascii (codes "t");
      path = quoted_sample;
      replace = true;
    })
unfolding is_word_rune is_regular_identifier
parse-statement_example =
    parse-statement ascii ascii_laws true (codes "s") (codes "t") quoted_sample ((refl, tt), refl)
      ((refl, tt), refl)

parse_tokens_iff_example :
    (parse_tokens ascii (statement_tokens false (codes "s") (codes "t") quoted_sample)
      ≡ parsed
          (record { schema = codes "S"; table = codes "T"; path = quoted_sample; replace = false }))
    ↔ Creates ascii
        (statement_tokens false (codes "s") (codes "t") quoted_sample)
        (record { schema = codes "S"; table = codes "T"; path = quoted_sample; replace = false })
parse_tokens_iff_example = parse_tokens_iff ascii _ _ ascii_folds
