-- ===== src/Common/Maps.antt =====
-- Go maps as association lists, over keys that a Boolean test tells apart.
use Prim.Native.Nat.{ℕ}
use mathlib.Core.Path.{◌≡◌, refl, ap}
use mathlib.Core.Bool.{Bool, true, false}
use mathlib.Core.Option.{Option, none, some}
use mathlib.Core.List.{List, [], ◌∷◌}
use mathlib.Core.Logic.{inl, inr}
use native.Mathlib.Omega.{arith}
use exasol_personal.Common.Tests.{if◌then◌else◌, ◌==◌, Bool-cases}
use exasol_personal.Common.Text.{Bytes, bytes_eq, bytes_eq_refl, eq_of_bytes_eq}

pub record Key {ℓ} (K : Type ℓ) : Type ℓ where
  pub same : K → K → Bool
  pub same_refl : (k : K) → same k k ≡ true
  pub same_sound : (j k : K) → same j k ≡ true → j ≡ k

pub same_refl_nat : (k : ℕ) → (k == k) ≡ true
same_refl_nat k = ground arith

pub same_sound_nat : (j k : ℕ) → (j == k) ≡ true → j ≡ k
same_sound_nat j k h = ground arith

instance abbrev pub nat_key : Key ℕ
nat_key = record { same = λ j k. j == k; same_refl = same_refl_nat; same_sound = same_sound_nat }

instance abbrev pub bytes_key : Key Bytes
bytes_key = record { same = bytes_eq; same_refl = bytes_eq_refl; same_sound = eq_of_bytes_eq }

module _ {ℓ κ} {K : Type ℓ} {A : Type κ} ⦃key : Key K⦄ where
  -- `m[k]`
  unfoldable pub lookup : K → List (K × A) → Option A
  lookup k [] = none
  lookup k ((j, a) ∷ m) = let rest = lookup k m in if key.same k j then some a else rest

  -- `m[k] = a`
  unfoldable pub put : K → A → List (K × A) → List (K × A)
  put k a [] = (k, a) ∷ []
  put k a ((j, b) ∷ m) = let rest = put k a m in if key.same k j then (j, a) ∷ m else (j, b) ∷ rest

  pub lookup-put_same : (k : K) (a : A) (m : List (K × A)) → lookup k (put k a m) ≡ some a
  unfolding lookup put
  lookup-put_same k a [] = rw (key.same_refl k) refl
  lookup-put_same k a ((j, b) ∷ m) = elim (Bool-cases (key.same k j)) [
    | inl yes_same ↦ rw (yes_same, yes_same) refl
    | inr other ↦ rw (other, other) (lookup-put_same k a m)
  ]

  pub lookup-put_other :
      (i k : K) (a : A) (m : List (K × A))
      → key.same i k ≡ false
      → lookup i (put k a m) ≡ lookup i m
  unfolding lookup put
  lookup-put_other i k a [] h = rw h refl
  lookup-put_other i k a ((j, b) ∷ m) h = elim (Bool-cases (key.same k j)) [
    | inl yes_same ↦ let e = key.same_sound k j yes_same in rw yes_same (rw (← e, h) refl)
    | inr other ↦
        rw other (ap (λ r. if key.same i j then some b else r) (lookup-put_other i k a m h))
  ]
