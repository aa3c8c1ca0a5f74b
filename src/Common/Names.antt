-- ===== src/Common/Names.antt =====
-- Lists of texts: `slices.Contains`, that no text comes twice, and the order of sorted texts.
use mathlib.Core.Path.{◌≡◌, subst, sym, ◌∙◌}
use mathlib.Core.Bool.{Bool, true, false, ◌||◌, ◌&&◌}
use mathlib.Core.List.{List, [], ◌∷◌}
use mathlib.Core.Logic.{inl, inr}
use exasol_personal.Common.Tests.{Bool-cases, ltb, ◌==◌, if◌then◌else◌}
use exasol_personal.Common.Text.{Bytes, bytes_eq, bytes_eq_refl, eq_of_bytes_eq}

unfoldable pub contains : List Bytes → Bytes → Bool
contains [] x = false
contains (y ∷ ys) x = bytes_eq y x || contains ys x

abbrev pub IsDistinct : List Bytes → Type 0
IsDistinct [] = Unit {0}
IsDistinct (x ∷ xs) = (contains xs x ≡ false) × IsDistinct xs

pub bytes_eq-false_comm : (x y : Bytes) → bytes_eq x y ≡ false → bytes_eq y x ≡ false
bytes_eq-false_comm x y h = elim (Bool-cases (bytes_eq y x)) [
  | inl e ↦
      let same = eq_of_bytes_eq y x e in
      cc (subst (λ z. bytes_eq x z ≡ false) same h, bytes_eq_refl x)
  | inr e ↦ e
]

pub bytes_eq_comm : (x y : Bytes) → bytes_eq x y ≡ bytes_eq y x
bytes_eq_comm x y = elim (Bool-cases (bytes_eq x y)) [
  | inl e ↦
      let same = eq_of_bytes_eq x y e in
      e ∙ sym (subst (λ z. bytes_eq z x ≡ true) same (bytes_eq_refl x))
  | inr e ↦ e ∙ sym (bytes_eq-false_comm x y e)
]

-- the order of `slices.Sort` on texts
unfoldable pub text_leb : Bytes → Bytes → Bool
text_leb [] y = true
text_leb (a ∷ x) [] = false
text_leb (a ∷ x) (b ∷ y) = ltb a b || (a == b && text_leb x y)

unfoldable pub insert_text : Bytes → List Bytes → List Bytes
unfolding text_leb
insert_text x [] = x ∷ []
insert_text x (y ∷ ys) =
    let rest = insert_text x ys in if text_leb x y then x ∷ y ∷ ys else y ∷ rest
