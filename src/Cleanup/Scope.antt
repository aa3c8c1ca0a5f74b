-- ===== src/Cleanup/Scope.antt =====
-- What the plan says of the providers, whatever capacities the runtime chooses: `BuildPlan` of
-- tools/cleanup/pkg/cleanup/orchestration.go.
use mathlib.Core.List.{append_assoc, append-nil}
use exasol_personal.Common.{
  ℕ, zero, suc, ◌+◌, ◌-◌, ◌<◌, ◌≡◌, refl, sym, ap, subst, ◌∙◌, inl, inr, Bool, true, false, Option,
  none, some, List, [], ◌∷◌, ◌++◌, Bytes, length, ltb, ◌==◌, Bool-cases, length-append, arith,
  contains, if◌then◌else◌,
}
use exasol_personal.Cleanup.{
  ProviderStatus, searched, skipped, unavailable, reason_not_selected, ScopeProvider, ProviderSpec,
  Collector, should_use_provider,
}
use exasol_personal.Cleanup.Slices.{Memory, Slice, take, write_at, read, store, append}
use exasol_personal.Cleanup.Plan.{
  Plan, new_entry, opened, owned, judged, add_location, add_locations, add_specs, build_plan,
}

-- The array of the slice holds what it shows and no more, and later arrays are elsewhere.
pub record IsWhole (m : Memory) (s : Slice) : Type 0 where
  pub full : length (m.array s.address) ≡ s.length
  pub fresh : s.address < m.next

take-length : (xs : List ScopeProvider) (n : ℕ) → length xs ≡ n → take n xs ≡ xs
unfolding take
take-length [] zero h = refl
take-length [] (suc n) h = refl
take-length (x ∷ xs) zero h = absurd (omega (arith, h))
take-length (x ∷ xs) (suc n) h = ap (◌∷◌ x) (take-length xs n (omega (arith, h)))

write_at-end :
    (xs : List ScopeProvider) (n : ℕ) (x : ScopeProvider)
    → length xs ≡ n
    → write_at n x xs ≡ xs ++ (x ∷ [])
unfolding write_at
write_at-end [] zero x h = refl
write_at-end [] (suc n) x h = absurd (omega (arith, h))
write_at-end (y ∷ xs) zero x h = absurd (omega (arith, h))
write_at-end (y ∷ xs) (suc n) x h = ap (◌∷◌ y) (write_at-end xs n x (omega (arith, h)))

write_at-last :
    (xs : List ScopeProvider) (n : ℕ) (x y : ScopeProvider)
    → length xs ≡ n
    → write_at n y (xs ++ (x ∷ [])) ≡ xs ++ (y ∷ [])
unfolding write_at
write_at-last [] zero x y h = refl
write_at-last [] (suc n) x y h = absurd (omega (arith, h))
write_at-last (z ∷ xs) zero x y h = absurd (omega (arith, h))
write_at-last (z ∷ xs) (suc n) x y h = ap (◌∷◌ z) (write_at-last xs n x y (omega (arith, h)))

read-IsWhole : (m : Memory) (s : Slice) → IsWhole m s → read m s ≡ m.array s.address
unfolding read
read-IsWhole m s w = take-length (m.array s.address) s.length w.full

same_address : (a : ℕ) → (a == a) ≡ true
same_address a = ground arith

-- after `append` the array of the new slice holds the entry behind the old ones
append-array :
    (grow : ℕ → ℕ) (x : ScopeProvider) (m : Memory) (s : Slice)
    → IsWhole m s
    → let (m', s') = append grow x m s in
      (m'.array s'.address ≡ m.array s.address ++ (x ∷ []))
      × (s'.length ≡ s.length + 1)
      × (s'.address < m'.next)
unfolding append
append-array grow x m s w = elim (Bool-cases (ltb s.length s.cap)) [
  | inl room ↦
      rw (room, same_address s.address)
        (write_at-end (m.array s.address) s.length x w.full, refl, w.fresh)
  | inr none_left ↦
      rw (none_left, same_address m.next)
        (ap (λ l. l ++ (x ∷ [])) (read-IsWhole m s w), refl, omega arith)
]

module _ (legacy : Bool) (selected_providers : List Bytes) where
  -- One entry for each location of each provider, in order: skipped, unavailable with the error, or
  -- searched.
  abbrev pub expected_locations : ProviderSpec → List Bytes → List ScopeProvider
  expected_locations spec [] = []
  expected_locations spec (l ∷ ls) =
      (judged legacy selected_providers spec l).0 ∷ expected_locations spec ls

  abbrev pub expected : List ProviderSpec → List ScopeProvider
  expected [] = []
  expected (s ∷ ss) = expected_locations s s.locations ++ expected ss

-- the plan is whole and shows these entries
pub record Shows (plan : Plan) (entries : List ScopeProvider) : Type 0 where
  pub whole : IsWhole plan.memory plan.providers
  pub shown : plan.memory.array plan.providers.address ≡ entries

module _ (grow : ℕ → ℕ) (legacy : Bool) (selected_providers : List Bytes) where
  add_location-Shows :
      (spec : ProviderSpec) (l : Bytes) (plan : Plan) (entries : List ScopeProvider)
      → Shows plan entries
      → Shows
          (add_location grow legacy selected_providers spec l plan)
          (entries ++ ((judged legacy selected_providers spec l).0 ∷ []))
  unfolding add_location store
  add_location-Shows spec l plan entries h =
      let (held, longer, below) =
        append-array grow (new_entry spec l) plan.memory plan.providers h.whole in
      let now = (judged legacy selected_providers spec l).0 in
      let old = plan.memory.array plan.providers.address in
      let count : (append grow (new_entry spec l) plan.memory plan.providers).1.length - 1
          ≡ plan.providers.length =
        omega (arith, longer) in
      let written : (add_location grow legacy selected_providers spec l plan).memory.array
            (add_location grow legacy selected_providers spec l plan).providers.address
          ≡ old ++ (now ∷ []) =
        rw
          (
            same_address (append grow (new_entry spec l) plan.memory plan.providers).1.address,
            held,
            count,
          )
          (write_at-last old plan.providers.length (new_entry spec l) now h.whole.full) in
      record {
        whole = record {
          full =
              ap (λ (xs : List ScopeProvider). length xs) written
              ∙ (length-append old (now ∷ []) ∙ omega (arith, h.whole.full, longer));
          fresh = below;
        };
        shown = written ∙ ap (λ xs. xs ++ (now ∷ [])) h.shown;
      }

  add_locations-Shows :
      (spec : ProviderSpec) (ls : List Bytes) (plan : Plan) (entries : List ScopeProvider)
      → Shows plan entries
      → Shows
          (add_locations grow legacy selected_providers spec ls plan)
          (entries ++ expected_locations legacy selected_providers spec ls)
  unfolding add_locations
  add_locations-Shows spec [] plan entries h = subst (Shows plan) (sym (append-nil entries)) h
  add_locations-Shows spec (l ∷ ls) plan entries h =
      subst (Shows _)
        (append_assoc entries ((judged legacy selected_providers spec l).0 ∷ [])
          (expected_locations legacy selected_providers spec ls))
        (add_locations-Shows spec ls (add_location grow legacy selected_providers spec l plan) _
          (add_location-Shows spec l plan entries h))

  add_specs-Shows :
      (specs : List ProviderSpec) (plan : Plan) (entries : List ScopeProvider)
      → Shows plan entries
      → Shows
          (add_specs grow legacy selected_providers specs plan)
          (entries ++ expected legacy selected_providers specs)
  unfolding add_specs
  add_specs-Shows [] plan entries h = subst (Shows plan) (sym (append-nil entries)) h
  add_specs-Shows (s ∷ ss) plan entries h =
      subst (Shows _)
        (append_assoc entries (expected_locations legacy selected_providers s s.locations)
          (expected legacy selected_providers ss))
        (add_specs-Shows ss (add_locations grow legacy selected_providers s s.locations plan) _
          (add_locations-Shows s s.locations plan entries h))

  pub build_plan-Shows :
      (specs : List ProviderSpec)
      → Shows
          (build_plan grow legacy selected_providers specs)
          (expected legacy selected_providers specs)
  unfolding build_plan
  build_plan-Shows specs =
      add_specs-Shows specs _ []
        (record { whole = record { full = refl; fresh = omega arith }; shown = refl })

-- The status of a location and its reason, by whether its provider is selected, by the error of its
-- owner and by that of its account.
abbrev pub status_of : Bool → Option Bytes → Option Bytes → ProviderStatus × Bytes
status_of false owner account = (skipped, reason_not_selected)
status_of true (some e) account = (unavailable, e)
status_of true none (some e) = (unavailable, e)
status_of true none none = (searched, [])

-- every provider is selected where none is named
abbrev pub is_selected : List Bytes → Bytes → Bool
is_selected [] name = true
is_selected (n ∷ names) name = contains (n ∷ names) name

module _ (legacy : Bool) (selected_providers : List Bytes) where
  abbrev pub location_status : ProviderSpec → Bytes → ProviderStatus × Bytes
  location_status spec l =
      let owner = spec.resolve_owner l in
      status_of (is_selected selected_providers spec.name) owner.err
        (spec.build_collector l owner.filter legacy).account_error

  abbrev pub location_entry : ProviderSpec → Bytes → ScopeProvider
  location_entry spec l = record {
    provider = spec.name;
    location = l;
    owner = (spec.resolve_owner l).display;
    owner_source = (spec.resolve_owner l).source;
    status = (location_status spec l).0;
    reason = (location_status spec l).1;
  }

  abbrev pub location_entries : ProviderSpec → List Bytes → List ScopeProvider
  location_entries spec [] = []
  location_entries spec (l ∷ ls) = location_entry spec l ∷ location_entries spec ls

  -- One entry for each location of each provider, in order.
  abbrev pub scope_entries : List ProviderSpec → List ScopeProvider
  scope_entries [] = []
  scope_entries (s ∷ ss) = location_entries s s.locations ++ scope_entries ss

  judged_entry :
      (spec : ProviderSpec) (l : Bytes)
      → (judged legacy selected_providers spec l).0 ≡ location_entry spec l
  unfolding judged
  judged_entry spec l =
      rw (selected spec.name selected_providers)
        (go (is_selected selected_providers spec.name) (spec.resolve_owner l).err)
    where
      selected :
          (name : Bytes) (names : List Bytes)
          → should_use_provider name names ≡ is_selected names name
      selected name [] = unfold should_use_provider in refl
      selected name (n ∷ names) = unfold should_use_provider in refl

      collector : Collector
      collector = spec.build_collector l (spec.resolve_owner l).filter legacy

      with_status : ProviderStatus × Bytes → ScopeProvider
      with_status s = record (new_entry spec l) { status = s.0; reason = s.1 }

      account :
          (a : Option Bytes)
          → (opened (new_entry spec l) collector a).0 ≡ with_status (status_of true none a)
      account none = refl
      account (some e) = refl

      go :
          (b : Bool) (owner : Option Bytes)
          → (if b then owned (new_entry spec l) collector owner else (new_entry spec l, none)).0
            ≡ with_status (status_of b owner collector.account_error)
      go false owner = refl
      go true (some e) = refl
      go true none = account collector.account_error

  judged_locations :
      (spec : ProviderSpec) (ls : List Bytes)
      → expected_locations legacy selected_providers spec ls ≡ location_entries spec ls
  judged_locations spec [] = refl
  judged_locations spec (l ∷ ls) = rw (judged_entry spec l, judged_locations spec ls) refl

  judged_specs :
      (specs : List ProviderSpec) → expected legacy selected_providers specs ≡ scope_entries specs
  judged_specs [] = refl
  judged_specs (s ∷ ss) = rw (judged_locations s s.locations, judged_specs ss) refl

-- Whatever capacities the runtime chooses, the scope of a new plan has one entry for each location
-- of each provider, in order, with its owner: skipped where the provider is not selected, unavailable
-- with the error of its owner, else with that of its account, and searched otherwise.
pub build_plan_scope :
    (grow : ℕ → ℕ) (legacy : Bool) (selected_providers : List Bytes) (specs : List ProviderSpec)
    → let plan = build_plan grow legacy selected_providers specs in
      read plan.memory plan.providers ≡ scope_entries legacy selected_providers specs
build_plan_scope grow legacy selected_providers specs =
    let plan = build_plan grow legacy selected_providers specs in
    let shows = build_plan-Shows grow legacy selected_providers specs in
    read-IsWhole plan.memory plan.providers shows.whole
    ∙ (shows.shown ∙ judged_specs legacy selected_providers specs)
