-- ===== src/Tests/StatementTests.antt =====
-- Runs of the classification of statements (internal/connect/types/statement.go), and its theorems
-- at concrete inputs.
use exasol_personal.Common.{
  ◌-◌, ◌≡◌, refl, ◌&&◌, ◌||◌, codes, leb, if◌then◌else◌, trim_space, trim_left, trim_right,
  is_space, lookup,
}
use exasol_personal.Statement.{
  Unicode, select, open_schema, after_close, strip_with, strip_leading_sql_comments, collect,
  leading_keywords, classify_keywords, classify_statement,
}

abbrev ascii : Unicode
ascii = record {
  is_letter = λ c. (leb 65 c && leb c 90) || (leb 97 c && leb c 122);
  is_digit = λ c. leb 48 c && leb c 57;
  to_upper = λ c. if leb 97 c && leb c 122 then c - 32 else c;
}

open_with_comment : classify_statement ascii (codes " /* x */ open  Schema s") ≡ open_schema
unfolding classify_statement leading_keywords strip_leading_sql_comments strip_with after_close
    collect classify_keywords trim_space trim_left trim_right is_space lookup
open_with_comment = refl

-- The comment is taken to end at its own first slash.
short_comment : classify_statement ascii (codes "/*/ SELECT */ DROP TABLE t") ≡ select
unfolding classify_statement leading_keywords strip_leading_sql_comments strip_with after_close
    collect classify_keywords trim_space trim_left trim_right is_space lookup
short_comment = refl
