-- ===== src/Statement/Lines.antt =====
-- A line comment in front of a statement plays no part (internal/connect/types/statement.go).
use exasol_personal.Common.{
  ℕ, ◌≡◌, refl, ap, sym, ◌∙◌, inl, inr, false, none, some, [], ◌∷◌, ◌++◌, Bytes, codes, ◌==◌, arith,
  Bool-cases, is_space, trim_left, trim_right, trim_space, keep_front, trim_space-trim_space,
  trim_space-trim_right, trim_space_blank, trim_right-append, trim_right-append_blank,
}
use exasol_personal.Statement.{
  Unicode, after_newline, continued, strip_step, strip_leading_sql_comments, leading_keywords,
  collect, classify_statement, classify_keywords,
}
use exasol_personal.Statement.Comments.{strip-strip_step}

after_newline-append :
    (v x : Bytes) → after_newline v ≡ none → after_newline (v ++ (10 ∷ x)) ≡ some x
unfolding after_newline
after_newline-append [] x h = refl
after_newline-append (c ∷ v) x h = elim (Bool-cases (c == 10)) [
  | inl here ↦ absurd (ground (arith, h, here))
  | inr other ↦ rw other (after_newline-append v x (ground (arith, h, other)))
]

after_newline-trim_right :
    (v : Bytes) → after_newline v ≡ none → after_newline (trim_right v) ≡ none
unfolding after_newline trim_right
after_newline-trim_right [] h = refl
after_newline-trim_right (c ∷ v) h = elim (Bool-cases (c == 10)) [
  | inl here ↦ absurd (ground (arith, h, here))
  | inr other ↦ go (trim_right v) other (after_newline-trim_right v (ground (arith, h, other)))
]
  where
    go :
        (t : Bytes)
        → (c == 10) ≡ false
        → after_newline t ≡ none
        → after_newline (keep_front c t) ≡ none
    go [] other k = ground (arith, other)
    go (d ∷ t) other k = rw other k

-- Texts that are the same when trimmed are the same without their leading comments.
pub strip_same :
    (s t : Bytes)
    → trim_space s ≡ trim_space t
    → strip_leading_sql_comments s ≡ strip_leading_sql_comments t
strip_same s t h =
    strip-strip_step s ∙ (ap (strip_step strip_leading_sql_comments) h ∙ sym (strip-strip_step t))

pub strip_blank : (s : Bytes) → trim_right s ≡ [] → strip_leading_sql_comments s ≡ []
strip_blank s h =
    strip-strip_step s ∙ ap (strip_step strip_leading_sql_comments) (trim_space_blank s h)

-- what the first round makes of a trimmed text that begins with two dashes
dashes_step :
    (u x : Bytes)
    → trim_space u ≡ codes "--" ++ x
    → strip_leading_sql_comments u
      ≡ continued strip_leading_sql_comments (after_newline (codes "--" ++ x))
dashes_step u x h = strip-strip_step u ∙ ap (strip_step strip_leading_sql_comments) h

trim_space-dashes : (x : Bytes) → trim_space (codes "--" ++ x) ≡ trim_right (codes "--" ++ x)
unfolding trim_space trim_left is_space
trim_space-dashes x = refl

-- the text with a comment in front of it
abbrev pub line_comment : Bytes → Bytes → Bytes
line_comment line s = codes "--" ++ (line ++ (10 ∷ s))

trim_right-dashes : (line : Bytes) → trim_right (codes "--" ++ line) ≡ codes "--" ++ trim_right line
unfolding trim_right is_space
trim_right-dashes line = go (trim_right line)
  where
    go : (t : Bytes) → keep_front 45 (keep_front 45 t) ≡ codes "--" ++ t
    go [] = refl
    go (d ∷ t) = refl

after_newline-dashes : (x : Bytes) → after_newline (codes "--" ++ x) ≡ after_newline x
unfolding after_newline
after_newline-dashes x = refl

blank_line : (s : Bytes) → trim_right s ≡ [] → trim_right (10 ∷ s) ≡ []
unfolding trim_right is_space
blank_line s h = ap (keep_front 10) h

full_line :
    (s : Bytes) (d : ℕ) (t : Bytes) → trim_right s ≡ d ∷ t → trim_right (10 ∷ s) ≡ 10 ∷ d ∷ t
unfolding trim_right
full_line s d t h = ap (keep_front 10) h

pub strip_line :
    (line s : Bytes)
    → after_newline line ≡ none
    → strip_leading_sql_comments (line_comment line s) ≡ strip_leading_sql_comments s
strip_line line s one_line = go (trim_right s) refl
  where
    go :
        (t : Bytes)
        → trim_right s ≡ t
        → strip_leading_sql_comments (line_comment line s) ≡ strip_leading_sql_comments s
    go [] h =
        dashes_step (line_comment line s) (trim_right line) (
          trim_space-dashes (line ++ (10 ∷ s))
          ∙ (trim_right-append_blank (codes "--" ++ line) (10 ∷ s) (blank_line s h)
              ∙ trim_right-dashes line))
        ∙ (ap (continued strip_leading_sql_comments)
              (after_newline-dashes (trim_right line) ∙ after_newline-trim_right line one_line)
            ∙ sym (strip_blank s h))
    go (d ∷ t) h =
        dashes_step (line_comment line s) (line ++ (10 ∷ d ∷ t)) (
          trim_space-dashes (line ++ (10 ∷ s))
          ∙ trim_right-append (codes "--" ++ line) (10 ∷ s) 10 (d ∷ t) (full_line s d t h))
        ∙ (ap (continued strip_leading_sql_comments) (
              after_newline-dashes (line ++ (10 ∷ d ∷ t))
              ∙ after_newline-append line (d ∷ t) one_line)
            ∙ (ap strip_leading_sql_comments (sym h)
                ∙ strip_same (trim_right s) s (trim_space-trim_right s)))

pub strip-trim_space :
    (s : Bytes) → strip_leading_sql_comments (trim_space s) ≡ strip_leading_sql_comments s
strip-trim_space s = strip_same (trim_space s) s (trim_space-trim_space s)

-- A comment of one line in front of a statement does not change how it is classified.
pub classify_statement-line_comment :
    (unicode : Unicode) (line sql : Bytes)
    → after_newline line ≡ none
    → classify_statement unicode (line_comment line sql) ≡ classify_statement unicode sql
unfolding classify_statement leading_keywords
classify_statement-line_comment unicode line sql one_line =
    ap (λ s. classify_keywords (collect unicode 2 [] s))
      (strip-trim_space (line_comment line sql)
        ∙ (strip_line line sql one_line ∙ sym (strip-trim_space sql)))
