-- ===== src/Common/Space.antt =====
-- `strings.TrimSpace` on a text, a list of code points.
use Prim.Native.Nat.{ℕ, suc, ◌≤◌}
use mathlib.Core.Path.{◌≡◌, refl, sym, ap, ◌∙◌}
use mathlib.Core.Bool.{Bool, true, false, ◌&&◌, ◌||◌}
use mathlib.Core.List.{[], ◌∷◌, ◌++◌}
use mathlib.Core.Logic.{inl, inr}
use native.Mathlib.Omega.{arith}
use exasol_personal.Common.Tests.{◌==◌, leb, if◌then◌else◌, Bool-cases}
use exasol_personal.Common.Text.{Bytes}
use exasol_personal.Common.Lists.{length}

-- `unicode.IsSpace`
unfoldable pub is_space : ℕ → Bool
is_space c =
    (leb 9 c && leb c 13)
    || c == 32
    || c == 0x85
    || c == 0xa0
    || c == 0x1680
    || (leb 0x2000 c && leb c 0x200a)
    || c == 0x2028
    || c == 0x2029
    || c == 0x202f
    || c == 0x205f
    || c == 0x3000

unfoldable pub trim_left : Bytes → Bytes
trim_left [] = []
trim_left (c ∷ s) = let rest = trim_left s in if is_space c then rest else c ∷ s

-- what is added in front of a text that is trimmed on the right
abbrev pub keep_front : ℕ → Bytes → Bytes
keep_front c [] = if is_space c then [] else c ∷ []
keep_front c (d ∷ s) = c ∷ d ∷ s

unfoldable pub trim_right : Bytes → Bytes
trim_right [] = []
trim_right (c ∷ s) = keep_front c (trim_right s)

unfoldable pub trim_space : Bytes → Bytes
unfolding trim_left trim_right
trim_space s = trim_right (trim_left s)

trim_right-trim_right : (s : Bytes) → trim_right (trim_right s) ≡ trim_right s
unfolding trim_right
trim_right-trim_right [] = refl
trim_right-trim_right (c ∷ s) = go (trim_right s) (trim_right-trim_right s)
  where
    go : (t : Bytes) → trim_right t ≡ t → trim_right (keep_front c t) ≡ keep_front c t
    go [] h = ground arith
    go (d ∷ t) h = rw h refl

-- A text whose first character is no space keeps it.
trim_left-trim_right : (s : Bytes) → trim_left (trim_right (trim_left s)) ≡ trim_right (trim_left s)
unfolding trim_left trim_right
trim_left-trim_right [] = refl
trim_left-trim_right (c ∷ s) = elim (Bool-cases (is_space c)) [
  | inl space ↦ rw space (trim_left-trim_right s)
  | inr other ↦ rw other (go (trim_right s) other)
]
  where
    go : (t : Bytes) → is_space c ≡ false → trim_left (keep_front c t) ≡ keep_front c t
    go [] h = ground (arith, h)
    go (d ∷ t) h = ground (arith, h)

pub trim_space-trim_space : (s : Bytes) → trim_space (trim_space s) ≡ trim_space s
unfolding trim_space
trim_space-trim_space s =
    ap trim_right (trim_left-trim_right s) ∙ trim_right-trim_right (trim_left s)

length-trim_left : (s : Bytes) → length (trim_left s) ≤ length s
unfolding trim_left
length-trim_left [] = omega arith
length-trim_left (c ∷ s) = ground (arith, length-trim_left s)

length-keep_front : (c : ℕ) (t : Bytes) → length (keep_front c t) ≤ suc (length t)
length-keep_front c [] = ground arith
length-keep_front c (d ∷ t) = omega arith

length-trim_right : (s : Bytes) → length (trim_right s) ≤ length s
unfolding trim_right
length-trim_right [] = omega arith
length-trim_right (c ∷ s) = omega (arith, length-keep_front c (trim_right s), length-trim_right s)

pub length-trim_space : (s : Bytes) → length (trim_space s) ≤ length s
unfolding trim_space
length-trim_space s = omega (arith, length-trim_right (trim_left s), length-trim_left s)

pub trim_left-trim_right_comm : (s : Bytes) → trim_left (trim_right s) ≡ trim_right (trim_left s)
unfolding trim_left trim_right
trim_left-trim_right_comm [] = refl
trim_left-trim_right_comm (c ∷ s) = elim (Bool-cases (is_space c)) [
  | inl space ↦ rw space (spaced (trim_right s) space ∙ trim_left-trim_right_comm s)
  | inr other ↦ rw other (plain (trim_right s) other)
]
  where
    spaced : (t : Bytes) → is_space c ≡ true → trim_left (keep_front c t) ≡ trim_left t
    spaced [] h = ground (arith, h)
    spaced (d ∷ t) h = rw h refl

    plain : (t : Bytes) → is_space c ≡ false → trim_left (keep_front c t) ≡ keep_front c t
    plain [] h = ground (arith, h)
    plain (d ∷ t) h = ground (arith, h)

-- Spaces at the end play no part.
pub trim_space-trim_right : (s : Bytes) → trim_space (trim_right s) ≡ trim_space s
unfolding trim_space
trim_space-trim_right s =
    sym (trim_left-trim_right_comm (trim_right s))
    ∙ (ap trim_left (trim_right-trim_right s) ∙ trim_left-trim_right_comm s)

pub trim_space_blank : (s : Bytes) → trim_right s ≡ [] → trim_space s ≡ []
unfolding trim_space trim_left
trim_space_blank s h = sym (trim_left-trim_right_comm s) ∙ ap trim_left h

pub trim_right-append :
    (u s : Bytes) (d : ℕ) (t : Bytes) → trim_right s ≡ d ∷ t → trim_right (u ++ s) ≡ u ++ (d ∷ t)
unfolding trim_right
trim_right-append [] s d t h = h
trim_right-append (c ∷ u) s d t h = ap (keep_front c) (trim_right-append u s d t h) ∙ front u
  where
    front : (v : Bytes) → keep_front c (v ++ (d ∷ t)) ≡ c ∷ (v ++ (d ∷ t))
    front [] = refl
    front (e ∷ v) = refl

pub trim_right-append_blank : (u s : Bytes) → trim_right s ≡ [] → trim_right (u ++ s) ≡ trim_right u
unfolding trim_right
trim_right-append_blank [] s h = h
trim_right-append_blank (c ∷ u) s h = ap (keep_front c) (trim_right-append_blank u s h)
