-- ===== src/Configuration/Names.antt =====
-- The names of options: `DisplayName` and `normalizeConfigOptionName` of
-- internal/deploy/configuration.go.
use exasol_personal.Common.{
  ℕ, ◌≡◌, refl, ap, ◌∙◌, inl, inr, [], ◌∷◌, Bytes, is_space, trim_left, trim_right, keep_front,
  trim_space, Bool-cases, ◌==◌, if◌then◌else◌, arith,
}
use exasol_personal.Configuration.{ConfigValue, replace_all, normalize_option_name, display_name}

abbrev swapped : ℕ → ℕ
swapped c = if c == b'_' then b'-' else c

is_space-swapped : (c : ℕ) → is_space (swapped c) ≡ is_space c
unfolding is_space
is_space-swapped c = elim (Bool-cases (c == b'_')) [
  | inl e ↦ rw e (ground (arith, e))
  | inr e ↦ rw e refl
]

trim_left-replace_all :
    (s : Bytes) → trim_left (replace_all b'_' b'-' s) ≡ replace_all b'_' b'-' (trim_left s)
unfolding trim_left replace_all
trim_left-replace_all [] = refl
trim_left-replace_all (c ∷ s) = elim (Bool-cases (is_space c)) [
  | inl e ↦ rw (is_space-swapped c, e) (trim_left-replace_all s)
  | inr e ↦ rw (is_space-swapped c, e) refl
]

keep_front-replace_all :
    (c : ℕ) (s : Bytes)
    → keep_front (swapped c) (replace_all b'_' b'-' s) ≡ replace_all b'_' b'-' (keep_front c s)
unfolding replace_all
keep_front-replace_all c [] = elim (Bool-cases (is_space c)) [
  | inl e ↦ rw (is_space-swapped c, e) refl
  | inr e ↦ rw (is_space-swapped c, e) refl
]
keep_front-replace_all c (d ∷ s) = refl

trim_right-replace_all :
    (s : Bytes) → trim_right (replace_all b'_' b'-' s) ≡ replace_all b'_' b'-' (trim_right s)
unfolding trim_right replace_all
trim_right-replace_all [] = refl
trim_right-replace_all (c ∷ s) =
    ap (keep_front (swapped c)) (trim_right-replace_all s) ∙ keep_front-replace_all c (trim_right s)

replaced_back :
    (s : Bytes) → replace_all b'-' b'_' (replace_all b'_' b'-' s) ≡ replace_all b'-' b'_' s
unfolding replace_all
replaced_back [] = refl
replaced_back (c ∷ s) = elim (Bool-cases (c == b'_')) [
  | inl e ↦ rw (e, replaced_back s) (ap (λ x. x ∷ replace_all b'-' b'_' s) (ground (arith, e)))
  | inr e ↦ rw (e, replaced_back s) refl
]

-- The name that is shown for an option is taken for the same option as its own name, also where its
-- name has hyphens or spaces around it.
pub normalize-display_name :
    {Any : Type 0} (v : ConfigValue Any)
    → normalize_option_name (display_name v) ≡ normalize_option_name v.name
unfolding normalize_option_name display_name trim_space
normalize-display_name v =
    ap (replace_all b'-' b'_')
      (ap trim_right (trim_left-replace_all v.name) ∙ trim_right-replace_all (trim_left v.name))
    ∙ replaced_back (trim_right (trim_left v.name))
