-- ===== src/Configuration/Patch.antt =====
-- What a patch of the configuration leaves for the backends: `patchConfigurationValues` and
-- `configValuesRawMap` of internal/deploy/configuration.go.
use exasol_personal.Common.{
  ◌≡◌, ◌⊎◌, refl, ap, ◌∙◌, inl, inr, Bool, true, false, Option, none, some, List, [], ◌∷◌, map,
  Bytes, bytes_eq, eq_of_bytes_eq, bytes_eq_comm, bytes_key, contains, IsDistinct, lookup, put,
  lookup-put_same, lookup-put_other, trim_space, if◌then◌else◌, Bool-cases, arith, All,
}
use exasol_personal.Configuration.{
  ConfigValue, patch_value, patch_values, raw_map_from, config_values_raw_map,
}

-- the name of an option: not empty, and no spaces around it
abbrev pub IsOptionName : Bytes → Type 0
IsOptionName n = (trim_space n ≡ n) × (bytes_eq n [] ≡ false)

abbrev pub or_else : Option Bytes → Option Bytes → Option Bytes
or_else none o = o
or_else (some r) o = some r

abbrev pub keys : List (Bytes × Bytes) → List Bytes
keys overrides = map (λ (o : Bytes × Bytes). o.0) overrides

lookup_missing :
    (n : Bytes) (m : List (Bytes × Bytes)) → contains (keys m) n ≡ false → lookup n m ≡ none
unfolding lookup contains
lookup_missing n [] h = refl
lookup_missing n ((k, r) ∷ m) h =
    let other : bytes_eq n k ≡ false = bytes_eq_comm n k ∙ ground (arith, h) in
    rw other (lookup_missing n m (ground (arith, h)))

module _ {Any : Type 0} where
  abbrev pub names_of : List (ConfigValue Any) → List Bytes
  names_of vs = map (λ v. v.name) vs

  pub record AreOptions (vs : List (ConfigValue Any)) : Type 0 where
    pub named : All (λ v. IsOptionName v.name) vs
    pub distinct : IsDistinct (names_of vs)

  -- the raw value of the option
  raw_of : Bytes → List (ConfigValue Any) → Option Bytes
  raw_of n [] = none
  raw_of n (v ∷ vs) = let rest = raw_of n vs in if bytes_eq n v.name then some v.raw_value else rest

  raw_of-missing :
      (n : Bytes) (vs : List (ConfigValue Any))
      → contains (names_of vs) n ≡ false
      → raw_of n vs ≡ none
  unfolding raw_of contains
  raw_of-missing n [] h = refl
  raw_of-missing n (v ∷ vs) h =
      let other : bytes_eq n v.name ≡ false = bytes_eq_comm n v.name ∙ ground (arith, h) in
      rw other (raw_of-missing n vs (ground (arith, h)))

  lookup-raw_map :
      (n : Bytes) (vs : List (ConfigValue Any)) (m : List (Bytes × Bytes))
      → AreOptions vs
      → lookup n (raw_map_from m vs) ≡ or_else (raw_of n vs) (lookup n m)
  unfolding raw_map_from raw_of
  lookup-raw_map n [] m h = refl
  lookup-raw_map n (v ∷ vs) m h =
      let rest =
        lookup-raw_map n vs (put v.name v.raw_value m)
          (record { named = h.named.1; distinct = h.distinct.1 }) in
      rw (h.named.0.0, h.named.0.1, rest) (go (Bool-cases (bytes_eq n v.name)))
    where
      go :
          (bytes_eq n v.name ≡ true) ⊎ (bytes_eq n v.name ≡ false)
          → or_else (raw_of n vs) (lookup n (put v.name v.raw_value m))
            ≡ or_else (if bytes_eq n v.name then some v.raw_value else raw_of n vs) (lookup n m)
      go (inl e) =
          let same = eq_of_bytes_eq n v.name e in
          let gone = raw_of-missing n vs (ap (contains (names_of vs)) same ∙ h.distinct.0) in
          rw (gone, e)
            (ap (λ k. lookup k (put v.name v.raw_value m)) same
              ∙ lookup-put_same v.name v.raw_value m)
      go (inr e) = rw (e, lookup-put_other n v.name v.raw_value m e) refl

  raw_of-patch_value :
      (nil : Any) (n name raw : Bytes) (vs : List (ConfigValue Any))
      → raw_of n (patch_value nil name raw vs) ≡ (if bytes_eq n name then some raw else raw_of n vs)
  unfolding patch_value raw_of
  raw_of-patch_value nil n name raw [] = refl
  raw_of-patch_value nil n name raw (v ∷ vs) = elim (Bool-cases (bytes_eq v.name name)) [
    | inl e ↦
        let same = eq_of_bytes_eq v.name name e in
        rw (e, ap (bytes_eq n) same) (go (bytes_eq n name))
    | inr e ↦ rw (e, raw_of-patch_value nil n name raw vs) (both e)
  ]
    where
      go :
          (b : Bool)
          → (if b then some raw else raw_of n vs)
            ≡ (if b then some raw else (if b then some v.raw_value else raw_of n vs))
      go true = refl
      go false = refl

      both :
          bytes_eq v.name name ≡ false
          → (if bytes_eq n v.name
              then some v.raw_value
              else (if bytes_eq n name then some raw else raw_of n vs))
            ≡ (if bytes_eq n name
                then some raw
                else (if bytes_eq n v.name then some v.raw_value else raw_of n vs))
      both e = elim (Bool-cases (bytes_eq n v.name)) [
        | inl k ↦
            let other : bytes_eq n name ≡ false =
              ap (λ x. bytes_eq x name) (eq_of_bytes_eq n v.name k) ∙ e in
            rw (k, other) refl
        | inr k ↦ rw k refl
      ]

  contains-patch_value :
      (nil : Any) (n name raw : Bytes) (vs : List (ConfigValue Any))
      → bytes_eq name n ≡ false
      → contains (names_of vs) n ≡ false
      → contains (names_of (patch_value nil name raw vs)) n ≡ false
  unfolding patch_value contains
  contains-patch_value nil n name raw [] e h = ground (arith, e)
  contains-patch_value nil n name raw (v ∷ vs) e h = elim (Bool-cases (bytes_eq v.name name)) [
    | inl k ↦ rw k h
    | inr k ↦
        rw (k, contains-patch_value nil n name raw vs e (ground (arith, h))) (ground (arith, h))
  ]

  patch_value-AreOptions :
      (nil : Any) (name raw : Bytes) (vs : List (ConfigValue Any))
      → IsOptionName name
      → AreOptions vs
      → AreOptions (patch_value nil name raw vs)
  unfolding patch_value contains
  patch_value-AreOptions nil name raw [] n h = record { named = (n, tt); distinct = (refl, tt) }
  patch_value-AreOptions nil name raw (v ∷ vs) n h = elim (Bool-cases (bytes_eq v.name name)) [
    | inl e ↦
        rw e (record { named = (h.named.0, h.named.1); distinct = (h.distinct.0, h.distinct.1) })
    | inr e ↦
        let rest =
          patch_value-AreOptions nil name raw vs n
            (record { named = h.named.1; distinct = h.distinct.1 }) in
        rw e (record {
          named = (h.named.0, rest.named);
          distinct = (
            contains-patch_value nil v.name name raw vs (bytes_eq_comm name v.name ∙ e)
                h.distinct.0,
            rest.distinct,
          );
        })
  ]

  raw_of-patch_values :
      (nil : Any) (n : Bytes) (overrides : List (Bytes × Bytes)) (vs : List (ConfigValue Any))
      → IsDistinct (keys overrides)
      → raw_of n (patch_values nil overrides vs) ≡ or_else (lookup n overrides) (raw_of n vs)
  unfolding patch_values lookup
  raw_of-patch_values nil n [] vs d = refl
  raw_of-patch_values nil n ((name, raw) ∷ overrides) vs d =
      rw
        (
          raw_of-patch_values nil n overrides (patch_value nil name raw vs) d.1,
          raw_of-patch_value nil n name raw vs,
        )
        (go (Bool-cases (bytes_eq n name)))
    where
      go :
          (bytes_eq n name ≡ true) ⊎ (bytes_eq n name ≡ false)
          → or_else (lookup n overrides) (if bytes_eq n name then some raw else raw_of n vs)
            ≡ or_else (if bytes_eq n name then some raw else lookup n overrides) (raw_of n vs)
      go (inl e) =
          let gone =
            lookup_missing n overrides
              (ap (contains (keys overrides)) (eq_of_bytes_eq n name e) ∙ d.0) in
          rw (e, gone) refl
      go (inr e) = rw e refl

  patch_values-AreOptions :
      (nil : Any) (overrides : List (Bytes × Bytes)) (vs : List (ConfigValue Any))
      → All IsOptionName (keys overrides)
      → AreOptions vs
      → AreOptions (patch_values nil overrides vs)
  unfolding patch_values
  patch_values-AreOptions nil [] vs n h = h
  patch_values-AreOptions nil ((name, raw) ∷ overrides) vs n h =
      patch_values-AreOptions nil overrides (patch_value nil name raw vs) n.1
        (patch_value-AreOptions nil name raw vs n.0 h)

-- Where options and overrides have proper names and none comes twice: after a patch, the raw values
-- that are handed on are those of the overrides, and of the options where there is no override,
-- whatever the order in which the overrides are taken.
pub lookup-patch_values :
    {Any : Type 0} (nil : Any) (overrides : List (Bytes × Bytes)) (vs : List (ConfigValue Any))
    (n : Bytes)
    → All IsOptionName (keys overrides)
    → IsDistinct (keys overrides)
    → AreOptions vs
    → lookup n (config_values_raw_map (patch_values nil overrides vs))
      ≡ or_else (lookup n overrides) (lookup n (config_values_raw_map vs))
unfolding config_values_raw_map lookup
lookup-patch_values nil overrides vs n names distinct h =
    rw
      (
        lookup-raw_map n (patch_values nil overrides vs) []
            (patch_values-AreOptions nil overrides vs names h),
        lookup-raw_map n vs [] h,
        raw_of-patch_values nil n overrides vs distinct,
      )
      (go (lookup n overrides) (raw_of n vs))
  where
    go : (a b : Option Bytes) → or_else (or_else a b) none ≡ or_else a (or_else b none)
    go none b = refl
    go (some r) b = refl
