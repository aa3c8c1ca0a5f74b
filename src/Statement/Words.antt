-- ===== src/Statement/Words.antt =====
-- The words of each type of statement, for `ClassifyStatement` of internal/connect/types/statement.go.
use exasol_personal.Common.{◌≡◌, ◌≢◌, refl, List, [], ◌∷◌, ◌++◌, Bytes, codes, lookup, bytes_key}
use exasol_personal.Statement.{
  StatementType, unknown, select, with, explain, insert, update, delete, merge, import, export,
  create, alter, drop, truncate, open_schema, close_schema, set, commit, rollback, grant, revoke,
  classify_keywords,
}

-- the keywords that a statement of a type begins with
abbrev pub words : StatementType → List Bytes
words unknown = []
words select = codes "SELECT" ∷ []
words with = codes "WITH" ∷ []
words explain = codes "EXPLAIN" ∷ []
words insert = codes "INSERT" ∷ []
words update = codes "UPDATE" ∷ []
words delete = codes "DELETE" ∷ []
words merge = codes "MERGE" ∷ []
words import = codes "IMPORT" ∷ []
words export = codes "EXPORT" ∷ []
words create = codes "CREATE" ∷ []
words alter = codes "ALTER" ∷ []
words drop = codes "DROP" ∷ []
words truncate = codes "TRUNCATE" ∷ []
words open_schema = codes "OPEN" ∷ codes "SCHEMA" ∷ []
words close_schema = codes "CLOSE" ∷ codes "SCHEMA" ∷ []
words set = codes "SET" ∷ []
words commit = codes "COMMIT" ∷ []
words rollback = codes "ROLLBACK" ∷ []
words grant = codes "GRANT" ∷ []
words revoke = codes "REVOKE" ∷ []

pub words_classify :
    (t : StatementType) (rest : List Bytes) → t ≢ unknown → classify_keywords (words t ++ rest) ≡ t
unfolding classify_keywords lookup
words_classify unknown rest known = absurd (known refl)
words_classify select rest known = refl
words_classify with rest known = refl
words_classify explain rest known = refl
words_classify insert rest known = refl
words_classify update rest known = refl
words_classify delete rest known = refl
words_classify merge rest known = refl
words_classify import rest known = refl
words_classify export rest known = refl
words_classify create rest known = refl
words_classify alter rest known = refl
words_classify drop rest known = refl
words_classify truncate rest known = refl
words_classify open_schema rest known = refl
words_classify close_schema rest known = refl
words_classify set rest known = refl
words_classify commit rest known = refl
words_classify rollback rest known = refl
words_classify grant rest known = refl
words_classify revoke rest known = refl
