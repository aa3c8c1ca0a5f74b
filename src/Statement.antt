-- ===== src/Statement.antt =====
-- The classification of SQL statements by their leading keywords:
-- internal/connect/types/statement.go. Texts are lists of code points; the tables of Unicode are
-- parameters.
pub mod Comments
pub mod Words
pub mod Lines
pub mod Blocks
pub mod Written
use exasol_personal.Common.{
  ℕ, zero, suc, ◌-◌, Bool, true, false, ◌||◌, Option, none, some, List, [], ◌∷◌, ◌++◌, map, Bytes,
  codes, bytes_eq, has_prefix, after_prefix, length, ◌==◌, leb, if◌then◌else◌, lookup, bytes_key,
  trim_space,
}

pub data StatementType : Type 0 where
  unknown select with explain insert update delete merge import export create alter drop :
      StatementType
  truncate open_schema close_schema set commit rollback grant revoke : StatementType

-- `UsesExecPath`
unfoldable pub uses_exec_path : StatementType → Bool
uses_exec_path select = false
uses_exec_path with = false
uses_exec_path explain = false
uses_exec_path unknown = false
uses_exec_path _ = true

-- what follows the first newline
unfoldable pub after_newline : Bytes → Option Bytes
after_newline [] = none
after_newline (c ∷ s) = let rest = after_newline s in if c == 10 then some s else rest

abbrev pub closed_here : Option Bytes → Option Bytes → Option Bytes
closed_here none rest = rest
closed_here (some s) rest = some s

-- what follows the first "*/", wherever it stands
unfoldable pub after_close : Bytes → Option Bytes
after_close [] = none
after_close (c ∷ s) =
    let rest = after_close s in closed_here (after_prefix (codes "*/") (c ∷ s)) rest

abbrev pub continued : (Bytes → Bytes) → Option Bytes → Bytes
continued again none = []
continued again (some s) = again s

-- the body of the loop of `stripLeadingSQLComments`, on the trimmed text
abbrev pub strip_step : (Bytes → Bytes) → Bytes → Bytes
strip_step again s =
    if has_prefix (codes "--") s
    then continued again (after_newline s)
    else if has_prefix (codes "/*") s
    then continued again (after_close s)
    else s

unfoldable pub strip_with : ℕ → Bytes → Bytes
unfolding trim_space
strip_with zero s = s
strip_with (suc fuel) s = strip_step (strip_with fuel) (trim_space s)

-- `stripLeadingSQLComments`, with one round for each character and one more
unfoldable pub strip_leading_sql_comments : Bytes → Bytes
strip_leading_sql_comments s = strip_with (suc (length s)) s

-- `unicode.IsLetter`, `unicode.IsDigit` and `unicode.ToUpper`
pub record Unicode : Type 0 where
  pub is_letter : ℕ → Bool
  pub is_digit : ℕ → Bool
  pub to_upper : ℕ → ℕ

abbrev pub leading_keyword_limit : ℕ
leading_keyword_limit = 2

abbrev pub keyword_types : List (Bytes × StatementType)
keyword_types =
    (codes "SELECT", select)
    ∷ (codes "WITH", with)
    ∷ (codes "EXPLAIN", explain)
    ∷ (codes "INSERT", insert)
    ∷ (codes "UPDATE", update)
    ∷ (codes "DELETE", delete)
    ∷ (codes "MERGE", merge)
    ∷ (codes "IMPORT", import)
    ∷ (codes "EXPORT", export)
    ∷ (codes "CREATE", create)
    ∷ (codes "ALTER", alter)
    ∷ (codes "DROP", drop)
    ∷ (codes "TRUNCATE", truncate)
    ∷ (codes "SET", set)
    ∷ (codes "COMMIT", commit)
    ∷ (codes "ROLLBACK", rollback)
    ∷ (codes "GRANT", grant)
    ∷ (codes "REVOKE", revoke)
    ∷ []

abbrev pub second_is_schema : List Bytes → Bool
second_is_schema [] = false
second_is_schema (k ∷ rest) = bytes_eq k (codes "SCHEMA")

abbrev pub type_or_unknown : Option StatementType → StatementType
type_or_unknown none = unknown
type_or_unknown (some t) = t

-- the `switch` of `ClassifyStatement`
unfoldable pub classify_keywords : List Bytes → StatementType
unfolding lookup
classify_keywords [] = unknown
classify_keywords (k ∷ rest) =
    if bytes_eq k (codes "OPEN")
    then (if second_is_schema rest then open_schema else unknown)
    else if bytes_eq k (codes "CLOSE")
    then (if second_is_schema rest then close_schema else unknown)
    else type_or_unknown (lookup k keyword_types)

module _ (unicode : Unicode) where
  abbrev pub in_keyword : ℕ → Bool
  in_keyword c = unicode.is_letter c || unicode.is_digit c || c == b'_'

  abbrev pub upper : Bytes → Bytes
  upper s = map unicode.to_upper s

  -- `flush`, with what the loop does after it
  abbrev pub flushed : Bytes → List Bytes → List Bytes → List Bytes
  flushed [] more last = last
  flushed (c ∷ builder) more last = upper (c ∷ builder) ∷ more

  -- The loop of `leadingKeywords`: `limit` more keywords are wanted, `builder` is the one begun.
  unfoldable pub collect : ℕ → Bytes → Bytes → List Bytes
  collect limit builder [] = flushed builder [] []
  collect limit builder (c ∷ s) =
      let longer = collect limit (builder ++ (c ∷ [])) s in
      let same = collect limit [] s in
      let next = collect (limit - 1) [] s in
      if in_keyword c then longer else flushed builder (if leb limit 1 then [] else next) same

  unfoldable pub leading_keywords : Bytes → ℕ → List Bytes
  unfolding collect strip_leading_sql_comments
  leading_keywords sql limit =
      if limit == 0 then [] else collect limit [] (strip_leading_sql_comments (trim_space sql))

  -- `ClassifyStatement`
  unfoldable pub classify_statement : Bytes → StatementType
  unfolding classify_keywords leading_keywords
  classify_statement sql = classify_keywords (leading_keywords sql leading_keyword_limit)
