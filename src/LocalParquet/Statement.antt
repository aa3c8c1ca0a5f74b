-- ===== src/LocalParquet/Statement.antt =====
-- The statement of the documented form, printed, is parsed back to its table:
-- internal/connect/types/local_parquet.go.
use exasol_personal.Common.{
  ℕ, ◌≡◌, ◌≢◌, refl, ap, ◌∙◌, Bool, true, false, ◌&&◌, ◌||◌, List, [], ◌∷◌, ◌++◌, Bytes, codes, leb,
  ◌==◌, is_space, All, String, arith,
}
use exasol_personal.LocalParquet.{word, string, symbol, SqlToken, token, Unicode, is_word_rune}
use exasol_personal.LocalParquet.Parser.{
  parsed, is_symbol, is_string, matches, is_word, is_regular_identifier, import_pattern, value_at,
  upper, parse_tokenized, parse_local_parquet_table,
}
use exasol_personal.LocalParquet.Turns.{is_quote}
use exasol_personal.LocalParquet.Printing.{PartLaws, IsWord, IsToken, print, tokenize_sql-print}
use exasol_personal.LocalParquet.Recognised.{FoldsRunes, opening_pattern, Creates}
use exasol_personal.LocalParquet.Accepts.{Creates-parse_tokens}

-- What is relied on of the tables of Unicode and of `strings.EqualFold`.
pub record UnicodeLaws (unicode : Unicode) : Type 0 where
  pub parts : PartLaws unicode
  pub capitals : (c : ℕ) → (leb b'A' c && leb c b'Z') ≡ true → unicode.is_part c ≡ true
  pub symbols : (c : ℕ) → (c == b'.' || c == b'(' || c == b')') ≡ true → unicode.is_part c ≡ false
  pub fold_refl : (s : Bytes) → unicode.equal_fold s s ≡ true
  pub folds : FoldsRunes unicode

abbrev all_capital : Bytes → Bool
all_capital [] = true
all_capital (c ∷ s) = leb b'A' c && leb c b'Z' && all_capital s

abbrev keyword : String → SqlToken
keyword s = token word (codes s)

abbrev mark : String → SqlToken
mark s = token symbol (codes s)

abbrev pub opening_tokens : Bool → List SqlToken
opening_tokens false = keyword "CREATE" ∷ keyword "TABLE" ∷ []
opening_tokens true = keyword "CREATE" ∷ keyword "OR" ∷ keyword "REPLACE" ∷ keyword "TABLE" ∷ []

abbrev pub import_tokens : Bytes → Bytes → Bytes → List SqlToken
import_tokens schema table path =
    token word schema
    ∷ mark "."
    ∷ token word table
    ∷ keyword "AS"
    ∷ mark "("
    ∷ keyword "IMPORT"
    ∷ keyword "FROM"
    ∷ keyword "LOCAL"
    ∷ keyword "PARQUET"
    ∷ keyword "FILE"
    ∷ token string path
    ∷ mark ")"
    ∷ []

-- `LocalParquetTableForm` with its places filled in
abbrev pub statement_tokens : Bool → Bytes → Bytes → Bytes → List SqlToken
statement_tokens replace schema table path =
    opening_tokens replace ++ (import_tokens schema table path ++ [])

module _ (unicode : Unicode) (laws : UnicodeLaws unicode) where
  abbrev pub IsIdentifier : Bytes → Type 0
  IsIdentifier s = IsWord unicode s × (is_regular_identifier unicode (token word s) ≡ true)

  is_word-keyword : (s : Bytes) → is_word unicode s (token word s) ≡ true
  unfolding is_word
  is_word-keyword s = laws.fold_refl s

  opening_tokens-matches :
      (replace : Bool) → matches (opening_pattern unicode replace) (opening_tokens replace) ≡ true
  unfolding matches
  opening_tokens-matches false =
      rw (is_word-keyword (codes "CREATE"), is_word-keyword (codes "TABLE")) refl
  opening_tokens-matches true =
      rw
        (
          is_word-keyword (codes "CREATE"),
          is_word-keyword (codes "OR"),
          is_word-keyword (codes "REPLACE"),
          is_word-keyword (codes "TABLE"),
        )
        refl

  capital : (c : ℕ) → (leb b'A' c && leb c b'Z') ≡ true → is_word_rune unicode c ≡ true
  unfolding is_word_rune
  capital c h = rw (laws.capitals c h) refl

  mark-IsWord :
      (c : ℕ) → (c == b'.' || c == b'(' || c == b')') ≡ true → is_word_rune unicode c ≡ false
  unfolding is_word_rune
  mark-IsWord c h = rw (laws.symbols c h) (ground (arith, h))

  import_tokens-matches :
      (schema table path : Bytes)
      → IsIdentifier schema
      → IsIdentifier table
      → matches (import_pattern unicode) (import_tokens schema table path) ≡ true
  unfolding matches is_symbol is_string
  import_tokens-matches schema table path s t =
      rw
        (
          s.1,
          t.1,
          is_word-keyword (codes "AS"),
          is_word-keyword (codes "IMPORT"),
          is_word-keyword (codes "FROM"),
          is_word-keyword (codes "LOCAL"),
          is_word-keyword (codes "PARQUET"),
          is_word-keyword (codes "FILE"),
        )
        refl

  statement-Creates :
      (replace : Bool) (schema table path : Bytes)
      → IsIdentifier schema
      → IsIdentifier table
      → Creates unicode (statement_tokens replace schema table path) (record {
        schema = upper unicode schema;
        table = upper unicode table;
        path = path;
        replace = replace;
      })
  unfolding value_at
  statement-Creates replace schema table path s t = record {
    opening = opening_tokens replace;
    body = import_tokens schema table path;
    closing = [];
    splits = refl;
    opens = opening_tokens-matches replace;
    imports = import_tokens-matches schema table path s t;
    closes = tt;
    schema_is = refl;
    table_is = refl;
    path_is = refl;
  }

  capitals-All : (s : Bytes) → all_capital s ≡ true → All (λ c. is_word_rune unicode c ≡ true) s
  capitals-All [] h = tt
  capitals-All (c ∷ s) h = (capital c (ground (arith, h)), capitals-All s (ground (arith, h)))

  keyword-IsWord : (s : Bytes) → all_capital s ≡ true → s ≢ [] → IsWord unicode s
  keyword-IsWord [] h ne = ne refl
  keyword-IsWord (c ∷ s) h ne = capitals-All (c ∷ s) h

  mark-IsToken :
      (c : ℕ)
      → is_space c ≡ false
      → is_quote c ≡ false
      → (c == b'.' || c == b'(' || c == b')') ≡ true
      → IsToken unicode symbol (c ∷ [])
  mark-IsToken c h k l = (h, k, mark-IsWord c l)

  abbrev AreTokens : List SqlToken → Type 0
  AreTokens ts = All (λ t. IsToken unicode t.kind t.value) ts

  import-AreTokens :
      (schema table path : Bytes)
      → IsIdentifier schema
      → IsIdentifier table
      → AreTokens (import_tokens schema table path ++ [])
  unfolding is_space
  import-AreTokens schema table path s t = (
    s.0,
    (
      mark-IsToken b'.' refl refl refl,
      (
        t.0,
        (
          keyword-IsWord (codes "AS") refl (cc),
          (
            mark-IsToken b'(' refl refl refl,
            (
              keyword-IsWord (codes "IMPORT") refl (cc),
              (
                keyword-IsWord (codes "FROM") refl (cc),
                (
                  keyword-IsWord (codes "LOCAL") refl (cc),
                  (
                    keyword-IsWord (codes "PARQUET") refl (cc),
                    (
                      keyword-IsWord (codes "FILE") refl (cc),
                      (tt, (mark-IsToken b')' refl refl refl, tt)),
                    ),
                  ),
                ),
              ),
            ),
          ),
        ),
      ),
    ),
  )

  statement-AreTokens :
      (replace : Bool) (schema table path : Bytes)
      → IsIdentifier schema
      → IsIdentifier table
      → AreTokens (statement_tokens replace schema table path)
  statement-AreTokens false schema table path s t = (
    keyword-IsWord (codes "CREATE") refl (cc),
    (keyword-IsWord (codes "TABLE") refl (cc), import-AreTokens schema table path s t),
  )
  statement-AreTokens true schema table path s t = (
    keyword-IsWord (codes "CREATE") refl (cc),
    (
      keyword-IsWord (codes "OR") refl (cc),
      (
        keyword-IsWord (codes "REPLACE") refl (cc),
        (keyword-IsWord (codes "TABLE") refl (cc), import-AreTokens schema table path s t),
      ),
    ),
  )

-- Under the laws of Unicode that are named: a statement CREATE [OR REPLACE] TABLE with two regular
-- identifiers and any path, its quotes doubled, printed with a space behind each token, is parsed to
-- the table with the names in upper case, the path as it was, and whether it replaces.
pub parse-statement :
    (unicode : Unicode) (laws : UnicodeLaws unicode) (replace : Bool) (schema table path : Bytes)
    → IsIdentifier unicode laws schema
    → IsIdentifier unicode laws table
    → parse_local_parquet_table unicode (print (statement_tokens replace schema table path))
      ≡ parsed (record {
        schema = upper unicode schema;
        table = upper unicode table;
        path = path;
        replace = replace;
      })
unfolding parse_local_parquet_table
parse-statement unicode laws replace schema table path s t =
    ap (parse_tokenized unicode) (
      tokenize_sql-print unicode laws.parts (statement_tokens replace schema table path)
        (statement-AreTokens unicode laws replace schema table path s t))
    ∙ Creates-parse_tokens unicode laws.folds (statement_tokens replace schema table path) _
        (statement-Creates unicode laws replace schema table path s t)
