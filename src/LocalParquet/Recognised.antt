-- ===== src/LocalParquet/Recognised.antt =====
-- Which token lists `ParseLocalParquetTable` accepts: internal/connect/types/local_parquet.go.
use exasol_personal.Common.{
  ◌≡◌, refl, ap, subst, ◌∙◌, inl, inr, Bool, true, false, some, none, Option, List, [], ◌∷◌, ◌++◌,
  Bytes, codes, length, Bool-cases, Option-cases, arith,
}
use exasol_personal.LocalParquet.{SqlToken, Unicode}
use exasol_personal.LocalParquet.Parser.{
  LocalParquetTable, parsed, is_symbol, without_semicolon, matches, is_word, expect, table_prefix,
  match_after_create, match_create_table_prefix, contains_local_parquet, import_pattern, value_at,
  upper, match_local_parquet_import, or_unsupported, parse_tokens,
}

-- What the code relies on of `strings.EqualFold`: texts that differ in their number of runes differ.
abbrev pub FoldsRunes : Unicode → Type 0
FoldsRunes unicode = (s t : Bytes) → unicode.equal_fold s t ≡ true → length s ≡ length t

-- nothing, or one ";"
abbrev pub IsClosing : List SqlToken → Type 0
IsClosing [] = Unit {0}
IsClosing (t ∷ []) = is_symbol (codes ";") t ≡ true
IsClosing (t ∷ u ∷ ts) = ⊥

without_semicolon_splits :
    (ts : List SqlToken)
    → (closing : List SqlToken) × (ts ≡ without_semicolon ts ++ closing) × IsClosing closing
unfolding without_semicolon
without_semicolon_splits [] = ([], refl, tt)
without_semicolon_splits (t ∷ []) = elim (Bool-cases (is_symbol (codes ";") t)) [
  | inl e ↦ (t ∷ [], rw e refl, e)
  | inr e ↦ ([], rw e refl, tt)
]
without_semicolon_splits (t ∷ u ∷ ts) =
    let (closing, e, c) = without_semicolon_splits (u ∷ ts) in (closing, ap (◌∷◌ t) e, c)

module _ (unicode : Unicode) where
  -- CREATE TABLE, or CREATE OR REPLACE TABLE
  abbrev pub opening_pattern : Bool → List (SqlToken → Bool)
  opening_pattern false = is_word unicode (codes "CREATE") ∷ is_word unicode (codes "TABLE") ∷ []
  opening_pattern true =
      is_word unicode (codes "CREATE")
      ∷ is_word unicode (codes "OR")
      ∷ is_word unicode (codes "REPLACE")
      ∷ is_word unicode (codes "TABLE")
      ∷ []

  -- The tokens say that the table is created.
  pub record Creates (ts : List SqlToken) (t : LocalParquetTable) : Type 0 where
    pub opening : List SqlToken
    pub body : List SqlToken
    pub closing : List SqlToken
    pub splits : ts ≡ opening ++ (body ++ closing)
    pub opens : matches (opening_pattern t.replace) opening ≡ true
    pub imports : matches (import_pattern unicode) body ≡ true
    pub closes : IsClosing closing
    pub schema_is : t.schema ≡ upper unicode (value_at 0 body)
    pub table_is : t.table ≡ upper unicode (value_at 2 body)
    pub path_is : t.path ≡ value_at 10 body

  -- one keyword
  expect-some :
      (keyword : Bytes) (ts us : List SqlToken)
      → expect unicode keyword ts ≡ some us
      → (t : SqlToken) × (ts ≡ t ∷ us) × (is_word unicode keyword t ≡ true)
  unfolding expect
  expect-some keyword [] us h = cc
  expect-some keyword (t ∷ ts) us h = elim (Bool-cases (is_word unicode keyword t)) [
    | inl e ↦ (t, ground (arith, e), e)
    | inr e ↦ (t, ground (arith, e, h), ground (arith, e, h))
  ]

  abbrev Opens : Bool → List SqlToken → List SqlToken → Type 0
  Opens replace ts rest =
      (opening : List SqlToken) × (ts ≡ opening ++ rest)
      × (matches (opening_pattern replace) opening ≡ true)

  Opens-plain :
      (c t : SqlToken) (rest : List SqlToken)
      → is_word unicode (codes "CREATE") c ≡ true
      → is_word unicode (codes "TABLE") t ≡ true
      → Opens false (c ∷ t ∷ rest) rest
  unfolding matches
  Opens-plain c t rest h k = (c ∷ t ∷ [], refl, rw (h, k) refl)

  Opens-replace :
      (c o r t : SqlToken) (rest : List SqlToken)
      → is_word unicode (codes "CREATE") c ≡ true
      → is_word unicode (codes "OR") o ≡ true
      → is_word unicode (codes "REPLACE") r ≡ true
      → is_word unicode (codes "TABLE") t ≡ true
      → Opens true (c ∷ o ∷ r ∷ t ∷ rest) rest
  unfolding matches
  Opens-replace c o r t rest h i j k = (c ∷ o ∷ r ∷ t ∷ [], refl, rw (h, i, j, k) refl)

  table_prefix-some :
      (r : Bool) (o : Option (List SqlToken)) (rest : List SqlToken) (replace : Bool)
      → table_prefix r o ≡ some (rest, replace)
      → (o ≡ some rest) × (r ≡ replace)
  table_prefix-some r none rest replace h = cc
  table_prefix-some r (some us) rest replace h = (cc, cc)

  match_after_create-Opens :
      (c : SqlToken) (ts rest : List SqlToken) (replace : Bool)
      → is_word unicode (codes "CREATE") c ≡ true
      → match_after_create unicode ts ≡ some (rest, replace)
      → Opens replace (c ∷ ts) rest
  unfolding match_after_create
  match_after_create-Opens c ts rest replace created h =
      elim (Option-cases (expect unicode (codes "OR") ts)) [
        | inl none_or ↦
            let (some_table, plain) =
              table_prefix-some false _ rest replace (rw (match_after_create, none_or) at h) in
            let (t, e, table) = expect-some (codes "TABLE") ts rest some_table in
            rw (← plain, e) (Opens-plain c t rest created table)
        | inr (us, some_or) ↦ elim (Option-cases (expect unicode (codes "REPLACE") us)) [
          | inl none_replace ↦ cc (rw (match_after_create, some_or, none_replace) at h)
          | inr (vs, some_replace) ↦
              let (some_table, replacing) =
                table_prefix-some true _ rest replace
                  (rw (match_after_create, some_or, some_replace) at h) in
              let (o, e, or_word) = expect-some (codes "OR") ts us some_or in
              let (r, e', replace_word) = expect-some (codes "REPLACE") us vs some_replace in
              let (t, e'', table) = expect-some (codes "TABLE") vs rest some_table in
              rw (← replacing, e, e', e'')
                (Opens-replace c o r t rest created or_word replace_word table)
        ]
      ]

  match_create_table_prefix-Opens :
      (ts rest : List SqlToken) (replace : Bool)
      → match_create_table_prefix unicode ts ≡ some (rest, replace)
      → Opens replace ts rest
  unfolding match_create_table_prefix
  match_create_table_prefix-Opens ts rest replace h =
      elim (Option-cases (expect unicode (codes "CREATE") ts)) [
        | inl none_create ↦ cc (rw (match_create_table_prefix, none_create) at h)
        | inr (us, some_create) ↦
            let (c, e, created) = expect-some (codes "CREATE") ts us some_create in
            rw e (
              match_after_create-Opens c us rest replace created
                (rw (match_create_table_prefix, some_create) at h))
      ]

  match_import-Creates :
      (ts rest : List SqlToken) (replace : Bool) (t : LocalParquetTable)
      → Opens replace ts rest
      → match_local_parquet_import unicode replace rest ≡ some t
      → Creates ts t
  unfolding match_local_parquet_import
  match_import-Creates ts rest replace t (opening, e, opens) h =
      elim (Bool-cases (matches (import_pattern unicode) (without_semicolon rest))) [
        | inl m ↦
            let (closing, e', c) = without_semicolon_splits rest in
            let found = rw (match_local_parquet_import, m) at h in
            let same : replace ≡ t.replace = ground arith in
            record {
              opening = opening;
              body = without_semicolon rest;
              closing = closing;
              splits = e ∙ ap (opening ++◌) e';
              opens = subst (λ r. matches (opening_pattern r) opening ≡ true) same opens;
              imports = m;
              closes = c;
              schema_is = ground arith;
              table_is = ground arith;
              path_is = ground arith;
            }
        | inr m ↦ absurd (cc (rw (match_local_parquet_import, m) at h))
      ]

  pub parse_tokens-Creates :
      (ts : List SqlToken) (t : LocalParquetTable)
      → parse_tokens unicode ts ≡ parsed t
      → Creates ts t
  unfolding parse_tokens
  parse_tokens-Creates ts t h = elim (Option-cases (match_create_table_prefix unicode ts)) [
    | inl none_create ↦ absurd (cc (rw (parse_tokens, none_create) at h))
    | inr ((rest, replace), some_create) ↦ elim (Bool-cases (contains_local_parquet unicode rest)) [
      | inl local ↦
          go rest replace (match_local_parquet_import unicode replace rest) refl
            (match_create_table_prefix-Opens ts rest replace some_create)
            (rw (parse_tokens, some_create, local) at h)
      | inr other ↦ absurd (cc (rw (parse_tokens, some_create, other) at h))
    ]
  ]
    where
      go :
          (rest : List SqlToken) (replace : Bool) (o : Option LocalParquetTable)
          → match_local_parquet_import unicode replace rest ≡ o
          → Opens replace ts rest
          → or_unsupported o ≡ parsed t
          → Creates ts t
      go rest replace none e opens h = absurd (cc h)
      go rest replace (some u) e opens h = match_import-Creates ts rest replace t opens (e ∙ cc (h))
