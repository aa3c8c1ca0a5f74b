-- ===== src/Cleanup/Plan.antt =====
-- `BuildPlan` of tools/cleanup/pkg/cleanup/orchestration.go.
use exasol_personal.Common.{
  ℕ, ◌-◌, Bool, Option, none, some, List, [], ◌∷◌, ◌++◌, Bytes, if◌then◌else◌,
}
use exasol_personal.Cleanup.{
  searched, skipped, unavailable, reason_not_selected, ScopeProvider, Collector, ProviderSpec,
  should_use_provider,
}
use exasol_personal.Cleanup.Slices.{Memory, Slice, Pointer, empty, nil_slice, store, append}

pub record ScopedCollector : Type 0 where
  pub collector : Collector
  pub scope : Pointer

-- The plan, with the memory that its pointers lead into.
pub record Plan : Type 0 where
  pub memory : Memory
  pub providers : Slice
  pub collectors : List ScopedCollector

abbrev pub new_entry : ProviderSpec → Bytes → ScopeProvider
new_entry spec location = record {
  provider = spec.name;
  location = location;
  owner = (spec.resolve_owner location).display;
  owner_source = (spec.resolve_owner location).source;
  status = skipped;
  reason = reason_not_selected;
}

-- What becomes of the entry of a selected provider: its final value, and the collector, if it is
-- searched.
abbrev pub opened : ScopeProvider → Collector → Option Bytes → ScopeProvider × Option Collector
opened entry c (some e) = (record entry { status = unavailable; reason = e }, none)
opened entry c none = (record entry { status = searched; reason = [] }, some c)

abbrev pub owned : ScopeProvider → Collector → Option Bytes → ScopeProvider × Option Collector
owned entry c (some e) = (record entry { status = unavailable; reason = e }, none)
owned entry c none = opened entry c c.account_error

unfoldable pub judged : Bool → List Bytes → ProviderSpec → Bytes → ScopeProvider × Option Collector
judged legacy selected_providers spec location =
    let owner = spec.resolve_owner location in
    if should_use_provider spec.name selected_providers
    then owned (new_entry spec location) (spec.build_collector location owner.filter legacy)
        owner.err
    else (new_entry spec location, none)

abbrev pub with_collector : Option Collector → Pointer → List ScopedCollector → List ScopedCollector
with_collector none p cs = cs
with_collector (some c) p cs = cs ++ (record { collector = c; scope = p } ∷ [])

module _ (grow : ℕ → ℕ) (legacy : Bool) (selected_providers : List Bytes) where
  -- the body of the loops: the entry is appended, and changed through the pointer to it
  unfoldable pub add_location : ProviderSpec → Bytes → Plan → Plan
  unfolding judged append store
  add_location spec location plan =
      let (m, s) = append grow (new_entry spec location) plan.memory plan.providers in
      let entry_ref : Pointer = record { address = s.address; index = s.length - 1 } in
      let (entry, collector) = judged legacy selected_providers spec location in
      record {
        memory = store entry_ref entry m;
        providers = s;
        collectors = with_collector collector entry_ref plan.collectors;
      }

  unfoldable pub add_locations : ProviderSpec → List Bytes → Plan → Plan
  unfolding add_location
  add_locations spec [] plan = plan
  add_locations spec (l ∷ ls) plan = add_locations spec ls (add_location spec l plan)

  unfoldable pub add_specs : List ProviderSpec → Plan → Plan
  unfolding add_locations
  add_specs [] plan = plan
  add_specs (s ∷ ss) plan = add_specs ss (add_locations s s.locations plan)

  -- `BuildPlan`
  unfoldable pub build_plan : List ProviderSpec → Plan
  unfolding add_specs
  build_plan specs =
      add_specs specs (record { memory = empty; providers = nil_slice; collectors = [] })
