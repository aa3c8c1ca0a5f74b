-- ===== src/LocalParquet/Printing.antt =====
-- Tokens printed with a space behind each are read back by `tokenizeSQL` of
-- internal/connect/types/local_parquet.go.
use mathlib.Core.List.{append_assoc}
use exasol_personal.Common.{
  ℕ, ◌≡◌, refl, ap, ◌∙◌, inl, inr, Bool, true, false, ◌||◌, some, none, List, [], ◌∷◌, ◌++◌, Bytes,
  codes, has_prefix, ◌==◌, is_space, Bool-cases, arith, All,
}
use exasol_personal.LocalParquet.{
  TokenKind, word, string, quoted_identifier, symbol, SqlToken, token, Unicode, middle_dot,
  is_word_rune, read_word, quoted_value, read_quoted_token, one_token, turn, tokens, add_token,
  continue, tokenize_with, tokenize_sql,
}
use exasol_personal.LocalParquet.Turns.{is_quote, word_turn, symbol_turn}
use exasol_personal.LocalParquet.Rounds.{tokenize_sql-cons}
use exasol_personal.LocalParquet.Quoting.{double_quotes, quoted_value-double_quotes}

-- What the tables of Unicode say of the runes that begin another token: none of them is a part of
-- an identifier.
pub record PartLaws (unicode : Unicode) : Type 0 where
  pub space : (c : ℕ) → is_space c ≡ true → unicode.is_part c ≡ false
  pub punctuation :
      (c : ℕ) → (c == b'-' || c == b'/' || is_quote c) ≡ true → unicode.is_part c ≡ false

print_value : TokenKind → Bytes → Bytes
unfolding double_quotes
print_value word v = v
print_value symbol v = v
print_value string v = b'\'' ∷ (double_quotes b'\'' v ++ (b'\'' ∷ []))
print_value quoted_identifier v = b'"' ∷ (double_quotes b'"' v ++ (b'"' ∷ []))

unfoldable pub print : List SqlToken → Bytes
unfolding print_value
print [] = []
print (t ∷ ts) = print_value t.kind t.value ++ (32 ∷ print ts)

no_comment :
    (c : ℕ) (s : Bytes)
    → (c == b'-' || c == b'/') ≡ false
    → (has_prefix (codes "--") (c ∷ s) ≡ false) × (has_prefix (codes "/*") (c ∷ s) ≡ false)
no_comment c s h = (ground arith, ground arith)

no_comment_space :
    (c : ℕ) (s : Bytes)
    → (has_prefix (codes "--") (c ∷ 32 ∷ s) ≡ false)
      × (has_prefix (codes "/*") (c ∷ 32 ∷ s) ≡ false)
no_comment_space c s = (ground arith, ground arith)

module _ (unicode : Unicode) where
  abbrev pub IsWord : Bytes → Type 0
  IsWord [] = ⊥
  IsWord (c ∷ v) = (is_word_rune unicode c ≡ true) × All (λ d. is_word_rune unicode d ≡ true) v

  abbrev pub IsSymbol : Bytes → Type 0
  IsSymbol [] = ⊥
  IsSymbol (c ∷ []) = (is_space c ≡ false) × (is_quote c ≡ false) × (is_word_rune unicode c ≡ false)
  IsSymbol (c ∷ d ∷ v) = ⊥

  -- The tokens that `tokenizeSQL` can return.
  abbrev pub IsToken : TokenKind → Bytes → Type 0
  IsToken word v = IsWord v
  IsToken symbol v = IsSymbol v
  IsToken string v = Unit {0}
  IsToken quoted_identifier v = Unit {0}

  -- the turns of the loop at the runes of a printed token
  turn-space : (s : Bytes) → turn unicode 32 s ≡ some (none, s)
  unfolding turn is_space
  turn-space s = refl

  turn-quote :
      (q : ℕ) (s : Bytes)
      → is_space q ≡ false
      → is_quote q ≡ true
      → turn unicode q s ≡ one_token (read_quoted_token q s)
  unfolding turn
  turn-quote q s h k =
      let (line, block) = no_comment q s (ground arith) in rw (turn, h, line, block, k) refl

  turn-symbol :
      (c : ℕ) (s : Bytes)
      → IsSymbol (c ∷ [])
      → turn unicode c (32 ∷ s) ≡ symbol_turn unicode c (32 ∷ s)
  unfolding turn
  turn-symbol c s (h, k, l) =
      let (line, block) = no_comment_space c s in rw (turn, h, line, block, k, l) refl

  -- a test that no part of an identifier passes, nor the middle dot, is passed by no rune of a word
  no_word :
      (p : ℕ → Bool)
      → ((c : ℕ) → p c ≡ true → unicode.is_part c ≡ false)
      → p middle_dot ≡ false
      → (c : ℕ) → is_word_rune unicode c ≡ true
      → p c ≡ false
  unfolding is_word_rune
  no_word p law dot c h = elim (Bool-cases (p c)) [
    | inl e ↦ let same : c ≡ middle_dot = ground (arith, law c e) in cc (ap p same)
    | inr e ↦ e
  ]

  module _ (laws : PartLaws unicode) where
    space_no_word : (c : ℕ) → is_word_rune unicode c ≡ true → is_space c ≡ false
    unfolding is_space
    space_no_word = no_word is_space laws.space refl

    mark_no_word :
        (c : ℕ) → is_word_rune unicode c ≡ true → (c == b'-' || c == b'/' || is_quote c) ≡ false
    mark_no_word = no_word (λ c. c == b'-' || c == b'/' || is_quote c) laws.punctuation refl

    turn-word :
        (c : ℕ) (s : Bytes)
        → is_word_rune unicode c ≡ true
        → turn unicode c s ≡ word_turn unicode c s
    unfolding turn
    turn-word c s h =
        let mark = mark_no_word c h in
        let (line, block) = no_comment c s (ground (arith, mark)) in
        let no_quote : is_quote c ≡ false = ground (arith, mark) in
        rw (turn, space_no_word c h, line, block, no_quote, h) refl

    read_word-spaced :
        (v s : Bytes)
        → All (λ d. is_word_rune unicode d ≡ true) v
        → read_word unicode (v ++ (32 ∷ s)) ≡ (v, 32 ∷ s)
    unfolding read_word
    read_word-spaced [] s h = elim (Bool-cases (is_word_rune unicode 32)) [
      | inl e ↦ absurd (no_space e)
      | inr e ↦ rw e refl
    ]
      where
        no_space : is_word_rune unicode 32 ≡ true → ⊥
        no_space e = unfold is_space in cc (space_no_word 32 e)
    read_word-spaced (c ∷ v) s h = rw (h.0, read_word-spaced v s h.1) refl

    -- one printed token, and the space behind it
    tokenize-word :
        (v s : Bytes)
        → IsWord v
        → tokenize_sql unicode (v ++ (32 ∷ s))
          ≡ add_token (some (token word v)) (tokenize_sql unicode (32 ∷ s))
    tokenize-word [] s h = absurd h
    tokenize-word (c ∷ v) s h =
        tokenize_sql-cons unicode c (v ++ (32 ∷ s))
        ∙ (ap (λ t. continue t (tokenize_sql unicode)) (turn-word c (v ++ (32 ∷ s)) h.0)
            ∙ ap
                (λ (r : Bytes × Bytes).
                  add_token (some (token word r.0)) (tokenize_sql unicode r.1))
                (read_word-spaced (c ∷ v) s h))

    tokenize-symbol :
        (v s : Bytes)
        → IsSymbol v
        → tokenize_sql unicode (v ++ (32 ∷ s))
          ≡ add_token (some (token symbol v)) (tokenize_sql unicode (32 ∷ s))
    tokenize-symbol [] s h = absurd h
    tokenize-symbol (c ∷ []) s h =
        tokenize_sql-cons unicode c (32 ∷ s)
        ∙ ap (λ t. continue t (tokenize_sql unicode)) (turn-symbol c s h)
    tokenize-symbol (c ∷ d ∷ v) s h = absurd h

    -- the quoted text up to the closing quote, for both quotes
    tokenize-quoted :
        (q : ℕ) (k : TokenKind) (v s : Bytes)
        → is_space q ≡ false
        → is_quote q ≡ true
        → (32 == q) ≡ false
        → ((s r : Bytes)
            → quoted_value q s ≡ some (v, r)
            → read_quoted_token q s ≡ some (token k v, r))
        → tokenize_sql unicode ((q ∷ (double_quotes q v ++ (q ∷ []))) ++ (32 ∷ s))
          ≡ add_token (some (token k v)) (tokenize_sql unicode (32 ∷ s))
    tokenize-quoted q k v s plain quote other reads =
        ap (λ r. tokenize_sql unicode (q ∷ r)) (append_assoc (double_quotes q v) (q ∷ []) (32 ∷ s))
        ∙ (tokenize_sql-cons unicode q (double_quotes q v ++ (q ∷ 32 ∷ s))
            ∙ (ap (λ t. continue t (tokenize_sql unicode))
                  (turn-quote q (double_quotes q v ++ (q ∷ 32 ∷ s)) plain quote)
                ∙ ap (λ o. continue (one_token o) (tokenize_sql unicode))
                    (reads (double_quotes q v ++ (q ∷ 32 ∷ s)) (32 ∷ s)
                      (quoted_value-double_quotes q v 32 s other))))

    tokenize-token :
        (k : TokenKind) (v s : Bytes)
        → IsToken k v
        → tokenize_sql unicode (print_value k v ++ (32 ∷ s))
          ≡ add_token (some (token k v)) (tokenize_sql unicode (32 ∷ s))
    unfolding print_value is_space read_quoted_token
    tokenize-token word v s h = tokenize-word v s h
    tokenize-token symbol v s h = tokenize-symbol v s h
    tokenize-token string v s h =
        tokenize-quoted b'\'' string v s refl refl refl (λ s r e. rw (read_quoted_token, e) refl)
    tokenize-token quoted_identifier v s h =
        tokenize-quoted b'"' quoted_identifier v s refl refl refl
          (λ s r e. rw (read_quoted_token, e) refl)

    -- Tokens that `tokenizeSQL` can return, printed with a space behind each and with the quotes in
    -- their values doubled, are read back.
    pub tokenize_sql-print :
        (ts : List SqlToken)
        → All (λ t. IsToken t.kind t.value) ts
        → tokenize_sql unicode (print ts) ≡ tokens ts
    unfolding print tokenize_sql tokenize_with
    tokenize_sql-print [] h = refl
    tokenize_sql-print (t ∷ ts) h =
        tokenize-token t.kind t.value (print ts) h.0
        ∙ (ap (add_token (some t)) (
              tokenize_sql-cons unicode 32 (print ts)
              ∙ ap (λ u. continue u (tokenize_sql unicode)) (turn-space (print ts)))
            ∙ ap (add_token (some t)) (tokenize_sql-print ts h.1))
