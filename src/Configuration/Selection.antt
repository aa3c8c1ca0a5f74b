-- ===== src/Configuration/Selection.antt =====
-- Which names may be read and reset: `filterDeploymentConfiguration` and
-- `resetSelectedDeploymentConfiguration` of internal/deploy/configuration.go.
use exasol_personal.Common.{
  ◌≡◌, ◌↔◌, refl, sym, ap, ◌∙◌, inl, inr, Bool, true, false, ◌||◌, List, [], ◌∷◌, map, Bytes,
  bytes_eq, eq_of_bytes_eq, bytes_eq_refl, contains, insert_text, text_leb, Bool-cases, arith, All,
}
use exasol_personal.Configuration.{
  ConfigValue, Configuration, Outcome, refused, configured, normalize_option_name, filter_values,
  values_contain, contains_option, first_unknown, or_unknown, with_options, filter_configuration,
  reset_selected_values, missing_names, or_missing, reset_selected,
}

abbrev pub IsConfigured : {A : Type 0} → Outcome A → Type 0
IsConfigured (refused e) = ⊥
IsConfigured (configured c) = Unit {0}

contains_cons :
    (m n : Bytes) (found : List Bytes) → contains (m ∷ found) n ≡ (bytes_eq m n || contains found n)
unfolding contains
contains_cons m n found = refl

or_swap : (a b c : Bool) → ((a || b) || c) ≡ (b || (a || c))
or_swap true true c = refl
or_swap true false c = refl
or_swap false b c = refl

module _ {Any : Type 0} where
  -- each name is that of an option of one of the two sections
  abbrev pub AreKnown : Configuration Any → List Bytes → Type 0
  AreKnown c names = All (λ n. contains_option c n ≡ true) names

  values_contain-filter :
      (selected : List Bytes) (n : Bytes) (vs : List (ConfigValue Any))
      → contains selected n ≡ true
      → values_contain (filter_values selected vs) n ≡ values_contain vs n
  unfolding values_contain filter_values
  values_contain-filter selected n [] h = refl
  values_contain-filter selected n (v ∷ vs) h =
      elim (Bool-cases (contains selected (normalize_option_name v.name))) [
        | inl e ↦ rw (e, values_contain-filter selected n vs h) refl
        | inr e ↦
            rw (e, values_contain-filter selected n vs h)
              (sym (ap (λ b. b || values_contain vs n) (other e)))
      ]
    where
      other :
          contains selected (normalize_option_name v.name) ≡ false
          → bytes_eq (normalize_option_name v.name) n ≡ false
      other e = elim (Bool-cases (bytes_eq (normalize_option_name v.name) n)) [
        | inl k ↦
            cc (ap (contains selected) (eq_of_bytes_eq (normalize_option_name v.name) n k), e, h)
        | inr k ↦ k
      ]

  contains_option-filter :
      (selected : List Bytes) (c : Configuration Any) (n : Bytes)
      → contains selected (normalize_option_name n) ≡ true
      → contains_option (with_options (filter_values selected) c) n ≡ contains_option c n
  unfolding contains_option
  contains_option-filter selected c n h =
      rw
        (
          values_contain-filter selected (normalize_option_name n) c.infrastructure.options h,
          values_contain-filter selected (normalize_option_name n) c.installation.options h,
        )
        refl

  first_unknown-filter :
      (selected : List Bytes) (c : Configuration Any) (names : List Bytes)
      → All (λ n. contains selected (normalize_option_name n) ≡ true) names
      → first_unknown (with_options (filter_values selected) c) names ≡ first_unknown c names
  unfolding first_unknown
  first_unknown-filter selected c [] h = refl
  first_unknown-filter selected c (n ∷ names) h =
      rw (contains_option-filter selected c n h.0, first_unknown-filter selected c names h.1) refl

  first_unknown-AreKnown :
      (c d : Configuration Any) (names : List Bytes)
      → IsConfigured (or_unknown (first_unknown c names) d) ↔ AreKnown c names
  unfolding first_unknown
  first_unknown-AreKnown c d [] = (λ h. tt, λ h. tt)
  first_unknown-AreKnown c d (n ∷ names) = elim (Bool-cases (contains_option c n)) [
    | inl e ↦
        let rest = first_unknown-AreKnown c d names in rw e (λ h. (refl, rest.0 h), λ h. rest.1 h.1)
    | inr e ↦ rw e (λ h. absurd h, λ h. cc h.0)
  ]

-- the names are among their own normalized forms, and others behind them
normalized_selected :
    (before names : List Bytes)
    → ((n : Bytes) → contains (map normalize_option_name names) n ≡ true → contains before n ≡ true)
    → All (λ n. contains before (normalize_option_name n) ≡ true) names
unfolding contains
normalized_selected before [] w = tt
normalized_selected before (n ∷ names) w = (
  w (normalize_option_name n) (ground (arith, bytes_eq_refl (normalize_option_name n))),
  normalized_selected before names (λ m h. w m (ground (arith, h))),
)

insert_text-cons :
    (x : Bytes) (xs : List Bytes) → (y : Bytes) × (ys : List Bytes) × (insert_text x xs ≡ y ∷ ys)
unfolding insert_text
insert_text-cons x [] = (x, [], refl)
insert_text-cons x (y ∷ xs) = elim (Bool-cases (text_leb x y)) [
  | inl e ↦ rw e (x, y ∷ xs, refl)
  | inr e ↦ rw e (y, insert_text x xs, refl)
]

module _ {Any : Type 0} where
  missing_names-IsConfigured :
      (found : List Bytes) (selected : List Bytes) (c : Configuration Any)
      → IsConfigured (or_missing (missing_names found selected) c)
        ↔ All (λ n. contains found n ≡ true) selected
  unfolding missing_names
  missing_names-IsConfigured found [] c = (λ h. tt, λ h. tt)
  missing_names-IsConfigured found (n ∷ ns) c = elim (Bool-cases (contains found n)) [
    | inl e ↦
        let rest = missing_names-IsConfigured found ns c in
        rw e (λ h. (refl, rest.0 h), λ h. rest.1 h.1)
    | inr e ↦
        let (y, ys, k) = insert_text-cons n (missing_names found ns) in
        rw (e, k) (λ h. absurd h, λ h. cc h.0)
  ]

  -- what the loop finds: the names found before, and the selected ones of the values
  reset_selected_values-found :
      (selected : List Bytes) (vs : List (ConfigValue Any)) (found : List Bytes) (n : Bytes)
      → contains selected n ≡ true
      → contains (reset_selected_values selected vs found).1 n
        ≡ (contains found n || values_contain vs n)
  unfolding reset_selected_values values_contain
  reset_selected_values-found selected [] found n h = ground arith
  reset_selected_values-found selected (v ∷ vs) found n h =
      elim (Bool-cases (contains selected (normalize_option_name v.name))) [
        | inl e ↦
            rw
              (
                e,
                reset_selected_values-found selected vs (normalize_option_name v.name ∷ found) n h,
              )
              (here found)
        | inr e ↦ rw (e, reset_selected_values-found selected vs found n h, other e) refl
      ]
    where
      here :
          (found : List Bytes)
          → (contains (normalize_option_name v.name ∷ found) n || values_contain vs n) ≡ (
              contains found n
              || (bytes_eq (normalize_option_name v.name) n || values_contain vs n))
      here found = rw (contains_cons (normalize_option_name v.name) n found) (
          or_swap (bytes_eq (normalize_option_name v.name) n) (contains found n)
            (values_contain vs n))

      other :
          contains selected (normalize_option_name v.name) ≡ false
          → bytes_eq (normalize_option_name v.name) n ≡ false
      other e = elim (Bool-cases (bytes_eq (normalize_option_name v.name) n)) [
        | inl k ↦
            cc (ap (contains selected) (eq_of_bytes_eq (normalize_option_name v.name) n k), e, h)
        | inr k ↦ k
      ]

  -- the names that were selected are found exactly where the configuration contains them
  found_iff :
      (selected : List Bytes) (c : Configuration Any) (names : List Bytes)
      → All (λ n. contains selected (normalize_option_name n) ≡ true) names
      → let found = (reset_selected_values selected c.infrastructure.options []).1 in
        All
          (λ n. contains (reset_selected_values selected c.installation.options found).1 n ≡ true)
          (map normalize_option_name names)
        ↔ AreKnown c names
  unfolding contains_option contains
  found_iff selected c [] h = (λ k. tt, λ k. tt)
  found_iff selected c (n ∷ names) h =
      let found = (reset_selected_values selected c.infrastructure.options []).1 in
      let rest = found_iff selected c names h.1 in
      let here : contains (reset_selected_values selected c.installation.options found).1
            (normalize_option_name n)
          ≡ contains_option c n =
        reset_selected_values-found selected c.installation.options found (normalize_option_name n)
          h.0
        ∙ ap (λ b. b || values_contain c.installation.options (normalize_option_name n))
            (reset_selected_values-found selected c.infrastructure.options []
              (normalize_option_name n) h.0) in
      (λ k. (sym here ∙ k.0, rest.0 k.1), λ k. (here ∙ k.0, rest.1 k.1))

-- Names, in either spelling, can be reset if and only if each of them is that of an option, and then
-- they can be read, too: the
-- filter of `GetDeploymentConfiguration` and the reset of selected options refuse the same names.
pub filter-reset_selected :
    {Any : Type 0} (c : Configuration Any) (names : List Bytes)
    → (IsConfigured (reset_selected c names) ↔ AreKnown c names)
      × (IsConfigured (filter_configuration c names) ↔ AreKnown c names)
unfolding reset_selected filter_configuration
filter-reset_selected c [] = ((λ h. tt, λ h. tt), (λ h. tt, λ h. tt))
filter-reset_selected c (n ∷ ns) =
    let selected = map normalize_option_name (n ∷ ns) in
    let all = normalized_selected selected (n ∷ ns) (λ m h. h) in
    let found = found_iff selected c (n ∷ ns) all in
    let found_of = (reset_selected_values selected c.infrastructure.options []).1 in
    let reset =
      missing_names-IsConfigured (reset_selected_values selected c.installation.options found_of).1
        selected _ in
    let read : IsConfigured (filter_configuration c (n ∷ ns)) ↔ AreKnown c (n ∷ ns) =
      rw (first_unknown-filter selected c (n ∷ ns) all)
        (first_unknown-AreKnown c (with_options (filter_values selected) c) (n ∷ ns)) in
    ((λ h. found.0 (reset.0 h), λ h. reset.1 (found.1 h)), read)
