-- ===== src/Statement/Comments.antt =====
-- Leading comments (`stripLeadingSQLComments` of internal/connect/types/statement.go): the loop ends,
-- and what stands in a comment plays no part.
use exasol_personal.Common.{
  ℕ, zero, suc, ◌<◌, ◌≡◌, refl, ap, inl, inr, Bool, true, false, Option, none, some, [], ◌∷◌, Bytes,
  codes, has_prefix, after_prefix, length, ◌==◌, if◌then◌else◌, arith, Bool-cases, Option-cases,
  trim_space, length-trim_space, after_prefix_sound,
}
use exasol_personal.Statement.{
  after_newline, after_close, continued, strip_step, strip_with, strip_leading_sql_comments,
}

after_newline_shorter : (s r : Bytes) → after_newline s ≡ some r → length r < length s
unfolding after_newline
after_newline_shorter [] r h = absurd (ground arith)
after_newline_shorter (c ∷ s) r h = elim (Bool-cases (c == 10)) [
  | inl here ↦ let e : s ≡ r = same (ground (arith, h, here)) in omega (arith, ap length e)
  | inr later ↦ omega (arith, after_newline_shorter s r (ground (arith, h, later)))
]
  where
    same : {a b : Bytes} → some a ≡ some b → a ≡ b
    same e = ground arith

after_close_shorter : (s r : Bytes) → after_close s ≡ some r → length r < length s
unfolding after_close
after_close_shorter [] r h = absurd (ground arith)
after_close_shorter (c ∷ s) r h = elim (Option-cases (after_prefix (codes "*/") (c ∷ s))) [
  | inr (t, here) ↦
      let e : t ≡ r = same (ground (arith, h, here)) in
      omega (arith, ap length e, ap length (after_prefix_sound (codes "*/") (c ∷ s) t here))
  | inl later ↦ omega (arith, after_close_shorter s r (ground (arith, h, later)))
]
  where
    same : {a b : Bytes} → some a ≡ some b → a ≡ b
    same e = ground arith

module _ (f g : Bytes → Bytes) where
  continued_agree :
      (s : Bytes) (o : Option Bytes)
      → ((r : Bytes) → o ≡ some r → length r < length s)
      → ((r : Bytes) → length r < length s → f r ≡ g r)
      → continued f o ≡ continued g o
  continued_agree s none shorter agree = refl
  continued_agree s (some r) shorter agree = agree r (shorter r refl)

  strip_step_agree :
      (s : Bytes)
      → ((r : Bytes) → length r < length s → f r ≡ g r)
      → strip_step f s ≡ strip_step g s
  strip_step_agree s agree =
      if_agree (has_prefix (codes "--") s)
        (continued_agree s (after_newline s) (after_newline_shorter s) agree)
        (if_agree (has_prefix (codes "/*") s)
          (continued_agree s (after_close s) (after_close_shorter s) agree) refl)
    where
      if_agree :
          (b : Bool) {x y u v : Bytes} → x ≡ u → y ≡ v → (if b then x else y) ≡ (if b then u else v)
      if_agree true h k = h
      if_agree false h k = k

strip_enough : (m n : ℕ) (s : Bytes) → length s < m → length s < n → strip_with m s ≡ strip_with n s
unfolding strip_with
strip_enough zero n s h k = absurd (omega arith)
strip_enough (suc m) zero s h k = absurd (omega arith)
strip_enough (suc m) (suc n) s h k =
    strip_step_agree (strip_with m) (strip_with n) (trim_space s) (λ r shorter.
      strip_enough m n r (omega (arith, length-trim_space s)) (omega (arith, length-trim_space s)))

-- The loop ends: the text without its leading comments is what the body of the loop makes of the
-- trimmed text, with the same function for the rest.
pub strip-strip_step :
    (s : Bytes)
    → strip_leading_sql_comments s ≡ strip_step strip_leading_sql_comments (trim_space s)
unfolding strip_leading_sql_comments strip_with
strip-strip_step s =
    strip_step_agree (strip_with (length s)) strip_leading_sql_comments (trim_space s) (λ r shorter.
      strip_enough (length s) (suc (length r)) r (omega (arith, length-trim_space s)) (omega arith))
