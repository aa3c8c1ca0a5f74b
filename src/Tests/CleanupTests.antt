-- ===== src/Tests/CleanupTests.antt =====
-- Runs of the clean-up plan of tools/cleanup/pkg/cleanup, and its theorems at concrete inputs.
use exasol_personal.Common.{
  ℕ, ◌*◌, ◌≡◌, ◌⊎◌, refl, true, false, none, some, List, [], ◌∷◌, Bytes, bytes_eq, codes, ltb,
  if◌then◌else◌, lookup, put, bytes_key, contains, IsDistinct,
}
use exasol_personal.Cleanup.{
  searched, DeploymentSummary, failed, summaries, Collector, ProviderSpec, should_use_provider,
  distinct_locations, resolved_locations, collect_all_providers, find_deployment,
}
use exasol_personal.Cleanup.Slices.{take, write_at, read, store, append}
use exasol_personal.Cleanup.Plan.{
  new_entry, judged, add_location, add_locations, add_specs, build_plan,
}
use exasol_personal.Cleanup.Index.{
  entry_at, matches_of, add_matches, search, search_all, collect_lookup_index,
  lookup_deployment_in_plan, found_by_all, succeeded, lookup_deployment_lem,
}
use exasol_personal.Cleanup.Scope.{scope_entries, build_plan_scope}
use exasol_personal.Cleanup.Lost.{lost_error}
use exasol_personal.Cleanup.Locations.{is_given, resolved_locations_lem}
use exasol_personal.Cleanup.Providers.{Agrees, find_deployment-Agrees}

-- twice the capacity, and 1 for the first entry
abbrev doubled : ℕ → ℕ
doubled n = if ltb 0 n then 2 * n else 1

abbrev summary : Bytes → DeploymentSummary
summary id = record {
  id = id;
  provider = codes "aws";
  region = codes "eu";
  created_at = 5;
  resources = 2;
}

-- in the region "us" the search fails
abbrev region_collector : Bytes → Collector
region_collector region = record {
  name = codes "aws";
  available = true;
  account_error = none;
  collected =
      if bytes_eq region (codes "us")
      then failed (codes "denied")
      else summaries (summary (codes "d1") ∷ summary (codes "d2") ∷ []);
}

abbrev aws : ProviderSpec
aws = record {
  name = codes "aws";
  locations = codes "us" ∷ codes "eu" ∷ [];
  resolve_owner = λ l. record { filter = []; display = codes "me"; source = []; err = none };
  build_collector = λ l filter legacy. region_collector l;
}

-- The failed search of "us" is shown as searched, the one of "eu" as it is.
scope_after :
    let plan = (collect_lookup_index (build_plan doubled false [] (aws ∷ []))).0 in
    read plan.memory plan.providers
    ≡ record (new_entry aws (codes "us")) { status = searched; reason = [] }
      ∷ record (new_entry aws (codes "eu")) { status = searched; reason = [] }
      ∷ []
unfolding collect_lookup_index search_all search store entry_at add_matches matches_of lookup put
    build_plan add_specs add_locations add_location append judged should_use_provider write_at read
    take
scope_after = refl

judged-us : (judged false [] aws (codes "us")).1 ≡ some (region_collector (codes "us"))
unfolding judged should_use_provider
judged-us = refl

lost_error_example :
    let plan = (collect_lookup_index (build_plan doubled false [] (aws ∷ []))).0 in
    entry_at 0 (read plan.memory plan.providers)
    ≡ some (record (new_entry aws (codes "us")) { status = searched; reason = [] })
lost_error_example =
    lost_error doubled false [] aws (codes "us") (codes "eu") [] [] (region_collector (codes "us"))
      refl refl judged-us

build_plan_scope_example :
    let plan = build_plan doubled false [] (aws ∷ []) in
    read plan.memory plan.providers ≡ scope_entries false [] (aws ∷ [])
build_plan_scope_example = build_plan_scope doubled false [] (aws ∷ [])

lookup_deployment_lem_example :
    let plan = build_plan doubled false [] (aws ∷ []) in
    lookup_deployment_in_plan plan (codes "d2")
    ≡ (found_by_all (codes "d2") plan.collectors, succeeded plan.collectors)
lookup_deployment_lem_example =
    lookup_deployment_lem (build_plan doubled false [] (aws ∷ [])) (codes "d2")

abbrev explicit : List Bytes
explicit = codes "eu" ∷ [] ∷ codes "us" ∷ codes "eu" ∷ []

two_locations : resolved_locations explicit [] ≡ codes "eu" ∷ codes "us" ∷ []
unfolding resolved_locations distinct_locations contains
two_locations = refl

resolved_locations_lem_example :
    (((y : Bytes) → is_given explicit y ≡ false) × (resolved_locations explicit [] ≡ []))
    ⊎ (((y : Bytes) × (is_given explicit y ≡ true))
        × IsDistinct (resolved_locations explicit [])
        × ((y : Bytes) → contains (resolved_locations explicit []) y ≡ is_given explicit y))
resolved_locations_lem_example = resolved_locations_lem explicit []

abbrev two_collectors : List Collector
two_collectors = region_collector (codes "us") ∷ region_collector (codes "eu") ∷ []

find_deployment-Agrees_example :
    Agrees
      (codes "d2")
      (collect_all_providers two_collectors)
      (find_deployment (codes "d2") two_collectors)
find_deployment-Agrees_example = find_deployment-Agrees (codes "d2") two_collectors
