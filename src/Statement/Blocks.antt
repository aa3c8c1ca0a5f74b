-- ===== src/Statement/Blocks.antt =====
-- A block comment in front of a statement plays no part (internal/connect/types/statement.go).
use mathlib.Core.List.{append_assoc}
use exasol_personal.Common.{
  ◌≡◌, refl, ap, sym, ◌∙◌, Option, none, some, [], ◌∷◌, ◌++◌, Bytes, codes, after_prefix, arith,
  is_space, trim_left, trim_right, trim_space, trim_space-trim_right, trim_right-append,
  trim_right-append_blank,
}
use exasol_personal.Statement.{
  after_close, closed_here, continued, strip_step, strip_leading_sql_comments,
}
use exasol_personal.Statement.Comments.{strip-strip_step}
use exasol_personal.Statement.Lines.{strip_same, strip_blank}

-- a text in which no comment is closed, and a comment that is closed behind it
after_close-append :
    (u x : Bytes) → after_close u ≡ none → after_close (u ++ (b'*' ∷ b'/' ∷ x)) ≡ some x
unfolding after_close
after_close-append [] x h = refl
after_close-append (c ∷ []) x h = ground arith
after_close-append (c ∷ d ∷ u) x h =
    go (after_prefix (codes "*/") (c ∷ d ∷ u)) (after_close-append (d ∷ u) x) refl h
  where
    same_prefix : after_prefix (codes "*/") (c ∷ d ∷ (u ++ (b'*' ∷ b'/' ∷ x))) ≡ none
    same_prefix = ground (arith, h)

    go :
        (o : Option Bytes)
        → (after_close (d ∷ u) ≡ none → after_close ((d ∷ u) ++ (b'*' ∷ b'/' ∷ x)) ≡ some x)
        → after_prefix (codes "*/") (c ∷ d ∷ u) ≡ o
        → closed_here o (after_close (d ∷ u)) ≡ none
        → after_close ((c ∷ d ∷ u) ++ (b'*' ∷ b'/' ∷ x)) ≡ some x
    go none ih e k = rw same_prefix (ih k)
    go (some r) ih e k = cc

-- the text with a comment in front of it
abbrev pub block_comment : Bytes → Bytes → Bytes
block_comment block s = b'/' ∷ b'*' ∷ (block ++ (b'*' ∷ b'/' ∷ s))

-- No comment is closed before the end of this one. The source looks for "*/" from the "*" on.
abbrev pub IsBlock : Bytes → Type 0
IsBlock block = after_close (b'*' ∷ block) ≡ none

trim_space-block : (x : Bytes) → trim_space (b'/' ∷ b'*' ∷ x) ≡ trim_right (b'/' ∷ b'*' ∷ x)
unfolding trim_space trim_left is_space
trim_space-block x = refl

block_step :
    (s block x : Bytes)
    → IsBlock block
    → trim_space s ≡ block_comment block x
    → strip_leading_sql_comments s ≡ strip_leading_sql_comments x
unfolding after_close
block_step s block x h e =
    strip-strip_step s
    ∙ (ap (strip_step strip_leading_sql_comments) e
        ∙ ap (continued strip_leading_sql_comments) (after_close-append (b'*' ∷ block) x h))

pub strip_block :
    (block s : Bytes)
    → IsBlock block
    → strip_leading_sql_comments (block_comment block s) ≡ strip_leading_sql_comments s
unfolding trim_right
strip_block block s h = go (trim_right s) refl
  where
    front : Bytes
    front = b'/' ∷ b'*' ∷ (block ++ (b'*' ∷ b'/' ∷ []))

    split : (x : Bytes) → block_comment block x ≡ front ++ x
    split x = ap (λ y. b'/' ∷ b'*' ∷ y) (sym (append_assoc block (b'*' ∷ b'/' ∷ []) x))

    closed : trim_right front ≡ front
    closed =
        ap trim_right shape
        ∙ (trim_right-append (b'/' ∷ b'*' ∷ (block ++ (b'*' ∷ []))) (b'/' ∷ []) b'/' [] slash
            ∙ sym shape)
      where
        shape : front ≡ (b'/' ∷ b'*' ∷ (block ++ (b'*' ∷ []))) ++ (b'/' ∷ [])
        shape = ap (λ y. b'/' ∷ b'*' ∷ y) (sym (append_assoc block (b'*' ∷ []) (b'/' ∷ [])))

        slash : trim_right (b'/' ∷ []) ≡ b'/' ∷ []
        slash = unfold is_space in refl

    go :
        (t : Bytes)
        → trim_right s ≡ t
        → strip_leading_sql_comments (block_comment block s) ≡ strip_leading_sql_comments s
    go [] e =
        block_step (block_comment block s) block [] h (
          trim_space-block (block ++ (b'*' ∷ b'/' ∷ s))
          ∙ (ap trim_right (split s) ∙ (trim_right-append_blank front s e ∙ closed)))
        ∙ (strip_blank [] refl ∙ sym (strip_blank s e))
    go (d ∷ t) e =
        block_step (block_comment block s) block (d ∷ t) h (
          trim_space-block (block ++ (b'*' ∷ b'/' ∷ s))
          ∙ (ap trim_right (split s) ∙ (trim_right-append front s d t e ∙ sym (split (d ∷ t)))))
        ∙ (ap strip_leading_sql_comments (sym e)
            ∙ strip_same (trim_right s) s (trim_space-trim_right s))
