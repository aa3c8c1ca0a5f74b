-- ===== src/LocalParquet/Accepts.antt =====
-- Each statement of the documented form is accepted by `ParseLocalParquetTable`:
-- internal/connect/types/local_parquet.go.
use exasol_personal.Common.{
  ◌≡◌, refl, sym, ap, ◌∙◌, ◌↔◌, inl, inr, Bool, true, false, ◌&&◌, some, none, List, [], ◌∷◌, ◌++◌,
  Bytes, codes, bytes_eq, eq_of_bytes_eq, length, Bool-cases, arith,
}
use exasol_personal.LocalParquet.{symbol, SqlToken, Unicode}
use exasol_personal.LocalParquet.Parser.{
  LocalParquetTable, parsed, is_kind, is_symbol, is_string, without_semicolon, matches, is_word,
  expect, match_after_create, match_create_table_prefix, contains_local_parquet,
  is_regular_identifier, match_local_parquet_import, parse_tokens,
}
use exasol_personal.LocalParquet.Recognised.{
  FoldsRunes, opening_pattern, IsClosing, Creates, parse_tokens-Creates,
}

abbrev Pattern : Type 0
Pattern = List (SqlToken → Bool)

matches-cons :
    (p : SqlToken → Bool) (ps : Pattern) (ts : List SqlToken)
    → matches (p ∷ ps) ts ≡ true
    → (t : SqlToken) × (us : List SqlToken) × (ts ≡ t ∷ us) × (p t ≡ true) × (matches ps us ≡ true)
unfolding matches
matches-cons p ps [] h = cc
matches-cons p ps (t ∷ us) h = (t, us, refl, ground (arith, h), ground (arith, h))

matches-nil : (ts : List SqlToken) → matches [] ts ≡ true → ts ≡ []
unfolding matches
matches-nil [] h = refl
matches-nil (t ∷ ts) h = cc

-- a pattern that ends in a test which ";" does not pass
without_semicolon-matches :
    (ps : Pattern) (p : SqlToken → Bool)
    → ((t : SqlToken) → p t ≡ true → is_symbol (codes ";") t ≡ false)
    → (ts closing : List SqlToken) → matches (ps ++ (p ∷ [])) ts ≡ true
    → IsClosing closing
    → without_semicolon (ts ++ closing) ≡ ts
unfolding without_semicolon
without_semicolon-matches [] p other ts closing h c =
    let (t, us, e, pt, m) = matches-cons p [] ts h in
    let e' = matches-nil us m in rw (e, e') (last closing t (other t pt) c)
  where
    last :
        (closing : List SqlToken) (t : SqlToken)
        → is_symbol (codes ";") t ≡ false
        → IsClosing closing
        → without_semicolon (t ∷ closing) ≡ t ∷ []
    last [] t h c = rw h refl
    last (s ∷ []) t h c = rw c refl
    last (s ∷ r ∷ u) t h c = absurd c
without_semicolon-matches (q ∷ ps) p other ts closing h c =
    let (t, us, e, qt, m) = matches-cons q (ps ++ (p ∷ [])) ts h in
    rw e (
      longer (us ++ closing) us t (nonempty ps us m)
        (without_semicolon-matches ps p other us closing m c))
  where
    nonempty :
        (ps : Pattern) (us : List SqlToken)
        → matches (ps ++ (p ∷ [])) us ≡ true
        → (u : SqlToken) × (vs : List SqlToken) × (us ++ closing ≡ u ∷ vs)
    nonempty [] us m =
        let (u, vs, e, r, _) = matches-cons p [] us m in
        (u, vs ++ closing, ap (λ l. l ++ closing) e)
    nonempty (q ∷ ps) us m =
        let (u, vs, e, r, _) = matches-cons q (ps ++ (p ∷ [])) us m in
        (u, vs ++ closing, ap (λ l. l ++ closing) e)

    longer :
        (l us : List SqlToken) (t : SqlToken)
        → (u : SqlToken) × (vs : List SqlToken) × (l ≡ u ∷ vs)
        → without_semicolon l ≡ us
        → without_semicolon (t ∷ l) ≡ t ∷ us
    longer l us t (u, vs, e) h = rw e (ap (◌∷◌ t) (rw e at h))

bracket_other : (t : SqlToken) → is_symbol (codes ")") t ≡ true → is_symbol (codes ";") t ≡ false
unfolding is_symbol
bracket_other t h =
    let bracket : bytes_eq t.value (codes ")") ≡ true = ground (arith, h) in
    let e = eq_of_bytes_eq t.value (codes ")") bracket in
    go (is_kind t.kind symbol) (ap (λ v. bytes_eq v (codes ";")) e)
  where
    go :
        (b : Bool)
        → bytes_eq t.value (codes ";") ≡ false
        → (b && bytes_eq t.value (codes ";")) ≡ false
    go true h = h
    go false h = refl

module _ (unicode : Unicode) where
  contains-matches :
      (ps qs : Pattern) (ts closing : List SqlToken)
      → matches
          (ps ++ (is_word unicode (codes "LOCAL") ∷ is_word unicode (codes "PARQUET") ∷ qs))
          ts
        ≡ true
      → contains_local_parquet unicode (ts ++ closing) ≡ true
  unfolding contains_local_parquet
  contains-matches [] qs ts closing h =
      let (t, us, e, local, m) = matches-cons (is_word unicode (codes "LOCAL")) _ ts h in
      let (u, vs, e', parquet, m') = matches-cons (is_word unicode (codes "PARQUET")) qs us m in
      rw (e, e', local, parquet) refl
  contains-matches (p ∷ ps) qs ts closing h =
      let (t, us, e, pt, m) = matches-cons p _ ts h in
      rw e (later t (us ++ closing) (contains-matches ps qs us closing m))
    where
      later :
          (t : SqlToken) (l : List SqlToken)
          → contains_local_parquet unicode l ≡ true
          → contains_local_parquet unicode (t ∷ l) ≡ true
      later t [] h = cc
      later t (u ∷ l) h = ground (arith, h)

  expect-yes :
      (keyword : Bytes) (t : SqlToken) (ts : List SqlToken)
      → is_word unicode keyword t ≡ true
      → expect unicode keyword (t ∷ ts) ≡ some ts
  unfolding expect
  expect-yes keyword t ts h = rw h refl

  expect-no :
      (keyword : Bytes) (t : SqlToken) (ts : List SqlToken)
      → is_word unicode keyword t ≡ false
      → expect unicode keyword (t ∷ ts) ≡ none
  unfolding expect
  expect-no keyword t ts h = rw h refl

  module _ (folds : FoldsRunes unicode) where
    -- a token that is one keyword is no other of another length
    not_both :
        (a b : Bytes) (t : SqlToken)
        → is_word unicode a t ≡ true
        → (length a ≡ length b → ⊥)
        → is_word unicode b t ≡ false
    unfolding is_word
    not_both a b t h ne = elim (Bool-cases (unicode.equal_fold t.value b)) [
      | inl both ↦ absurd (ne (sym (folds t.value a (ground (arith, h))) ∙ folds t.value b both))
      | inr other ↦ ground (arith, other)
    ]

    prefix_plain :
        (c t : SqlToken) (rest : List SqlToken)
        → is_word unicode (codes "CREATE") c ≡ true
        → is_word unicode (codes "TABLE") t ≡ true
        → match_create_table_prefix unicode (c ∷ t ∷ rest) ≡ some (rest, false)
    unfolding match_create_table_prefix match_after_create
    prefix_plain c t rest created table =
        let no_or =
          not_both (codes "TABLE") (codes "OR") t table (λ e. absurd (omega (arith, e))) in
        rw
          (
            match_create_table_prefix,
            expect-yes (codes "CREATE") c (t ∷ rest) created,
            match_after_create,
            expect-no (codes "OR") t rest no_or,
            expect-yes (codes "TABLE") t rest table,
          )
          refl

    prefix_replace :
        (c o r t : SqlToken) (rest : List SqlToken)
        → is_word unicode (codes "CREATE") c ≡ true
        → is_word unicode (codes "OR") o ≡ true
        → is_word unicode (codes "REPLACE") r ≡ true
        → is_word unicode (codes "TABLE") t ≡ true
        → match_create_table_prefix unicode (c ∷ o ∷ r ∷ t ∷ rest) ≡ some (rest, true)
    unfolding match_create_table_prefix match_after_create
    prefix_replace c o r t rest created or_word replacing table =
        rw
          (
            match_create_table_prefix,
            expect-yes (codes "CREATE") c (o ∷ r ∷ t ∷ rest) created,
            match_after_create,
            expect-yes (codes "OR") o (r ∷ t ∷ rest) or_word,
            expect-yes (codes "REPLACE") r (t ∷ rest) replacing,
            expect-yes (codes "TABLE") t rest table,
          )
          refl

    match_prefix-matches :
        (replace : Bool) (opening rest : List SqlToken)
        → matches (opening_pattern unicode replace) opening ≡ true
        → match_create_table_prefix unicode (opening ++ rest) ≡ some (rest, replace)
    match_prefix-matches false opening rest h =
        let (c, us, e, created, m) = matches-cons (is_word unicode (codes "CREATE")) _ opening h in
        let (t, vs, e', table, m') = matches-cons (is_word unicode (codes "TABLE")) _ us m in
        rw (e, e', matches-nil vs m') (prefix_plain c t rest created table)
    match_prefix-matches true opening rest h =
        let (c, us, e, created, m) = matches-cons (is_word unicode (codes "CREATE")) _ opening h in
        let (o, vs, e', or_word, m') = matches-cons (is_word unicode (codes "OR")) _ us m in
        let (r, ws, e'', replacing, m'') =
          matches-cons (is_word unicode (codes "REPLACE")) _ vs m' in
        let (t, xs, e''', table, m''') = matches-cons (is_word unicode (codes "TABLE")) _ ws m'' in
        rw (e, e', e'', e''', matches-nil xs m''')
          (prefix_replace c o r t rest created or_word replacing table)

    pub Creates-parse_tokens :
        (ts : List SqlToken) (t : LocalParquetTable)
        → Creates unicode ts t
        → parse_tokens unicode ts ≡ parsed t
    unfolding parse_tokens match_local_parquet_import
    Creates-parse_tokens ts t r =
        let prefix = match_prefix-matches t.replace r.opening (r.body ++ r.closing) r.opens in
        let local =
          contains-matches
            (is_regular_identifier unicode
              ∷ is_symbol (codes ".")
              ∷ is_regular_identifier unicode
              ∷ is_word unicode (codes "AS")
              ∷ is_symbol (codes "(")
              ∷ is_word unicode (codes "IMPORT")
              ∷ is_word unicode (codes "FROM")
              ∷ [])
            (is_word unicode (codes "FILE") ∷ is_string ∷ is_symbol (codes ")") ∷ []) r.body
            r.closing r.imports in
        let trimmed =
          without_semicolon-matches
            (is_regular_identifier unicode
              ∷ is_symbol (codes ".")
              ∷ is_regular_identifier unicode
              ∷ is_word unicode (codes "AS")
              ∷ is_symbol (codes "(")
              ∷ is_word unicode (codes "IMPORT")
              ∷ is_word unicode (codes "FROM")
              ∷ is_word unicode (codes "LOCAL")
              ∷ is_word unicode (codes "PARQUET")
              ∷ is_word unicode (codes "FILE")
              ∷ is_string
              ∷ [])
            (is_symbol (codes ")")) bracket_other r.body r.closing r.imports r.closes in
        rw (parse_tokens, r.splits, prefix, local, match_local_parquet_import, trimmed, r.imports)
          (ground arith)

-- Where texts that differ in length are told apart, `ParseLocalParquetTable` takes tokens for a
-- table if and only if they are CREATE [OR REPLACE] TABLE, the twelve tokens of the import and at
-- most one ";" behind them, with the names in upper case and the path as it is.
pub parse_tokens_iff :
    (unicode : Unicode) (ts : List SqlToken) (t : LocalParquetTable)
    → FoldsRunes unicode
    → (parse_tokens unicode ts ≡ parsed t) ↔ Creates unicode ts t
parse_tokens_iff unicode ts t folds =
    (parse_tokens-Creates unicode ts t, Creates-parse_tokens unicode folds ts t)
