-- ===== src/Cleanup.antt =====
-- The clean-up of cloud resources: the plan of what is searched and the index of what is found, of
-- tools/cleanup/pkg/cleanup/orchestration.go and provider.go. What a provider answers is a value of
-- its collector; times are nanoseconds since the zero time.
pub mod Slices
pub mod Plan
pub mod Index
pub mod Locations
pub mod Providers
pub mod Scope
pub mod Apart
pub mod Lost
use exasol_personal.Common.{
  ℕ, ◌+◌, Bool, true, false, ◌||◌, Option, none, some, List, [], ◌∷◌, ◌++◌, Bytes, bytes_eq, codes,
  length, ltb, if◌then◌else◌, contains, keep,
}

pub data ProviderStatus : Type 0 where
  searched skipped unavailable error : ProviderStatus

abbrev pub reason_not_selected : Bytes
reason_not_selected = codes "not selected"

pub record ScopeProvider : Type 0 where
  pub provider : Bytes
  pub location : Bytes
  pub owner : Bytes
  pub owner_source : Bytes
  pub status : ProviderStatus
  pub reason : Bytes

pub record OwnerResolution : Type 0 where
  pub filter : Bytes
  pub display : Bytes
  pub source : Bytes
  pub err : Option Bytes

-- `DeploymentSummary`, less its owner and its state, which only tables show
pub record DeploymentSummary : Type 0 where
  pub id : Bytes
  pub provider : Bytes
  pub region : Bytes
  pub created_at : ℕ
  pub resources : ℕ

-- The result of `CollectDeploymentSummaries`.
pub data Collected : Type 0 where
  failed : Bytes → Collected
  summaries : List DeploymentSummary → Collected

-- What a `ProviderCollector` answers: `IsAvailable`, the error of `GetAccountInfo`, and the summaries.
pub record Collector : Type 0 where
  pub name : Bytes
  pub available : Bool
  pub account_error : Option Bytes
  pub collected : Collected

pub record ProviderSpec : Type 0 where
  pub name : Bytes
  pub locations : List Bytes
  pub resolve_owner : Bytes → OwnerResolution
  pub build_collector : Bytes → Bytes → Bool → Collector

-- `shouldUseProvider`
unfoldable pub should_use_provider : Bytes → List Bytes → Bool
unfolding contains
should_use_provider name [] = true
should_use_provider name (p ∷ ps) = contains (p ∷ ps) name

-- the loop of `ResolvedLocations`, with the locations taken so far
unfoldable pub distinct_locations : List Bytes → List Bytes → List Bytes
unfolding contains
distinct_locations taken [] = taken
distinct_locations taken (x ∷ xs) =
    distinct_locations (if bytes_eq x [] || contains taken x then taken else taken ++ (x ∷ [])) xs

abbrev pub or_defaults : List Bytes → List Bytes → List Bytes
or_defaults [] defaults = defaults
or_defaults (x ∷ xs) defaults = x ∷ xs

-- `ResolvedLocations`
unfoldable pub resolved_locations : List Bytes → List Bytes → List Bytes
resolved_locations explicit defaults = or_defaults (distinct_locations [] explicit) defaults

-- `IsOlderThan`; an age that is not positive is 0
unfoldable pub is_older_than : ℕ → ℕ → ℕ → Bool
is_older_than created_at age now = if ltb 0 age then ltb (created_at + age) now else true

-- `FilterSummariesOlderThan`
unfoldable pub filter_summaries_older_than : List DeploymentSummary → ℕ → ℕ → List DeploymentSummary
unfolding is_older_than
filter_summaries_older_than ss age now =
    if ltb 0 age then keep (λ s. is_older_than s.created_at age now) ss else ss

-- what the loops of `CollectAllProviders` and `FindDeployment` count
pub record Counts : Type 0 where
  pub available_count : ℕ
  pub success_count : ℕ

pub data DiscoveryError : Type 0 where
  not_authenticated all_failed not_found : DiscoveryError

pub data Discovery {ℓ} (A : Type ℓ) : Type ℓ where
  found : A → Discovery A
  refused : DiscoveryError → Discovery A

abbrev pub checked {ℓ} : {A : Type ℓ} → Counts → Discovery A → Discovery A
checked n r =
    if ltb 0 n.available_count
    then (if ltb 0 n.success_count then r else refused all_failed)
    else refused not_authenticated

abbrev pub counted : Counts → Collected → Counts
counted n (failed e) = record n { available_count = n.available_count + 1 }
counted n (summaries s) = record {
  available_count = n.available_count + 1;
  success_count = n.success_count + 1;
}

abbrev pub summaries_of : Collected → List DeploymentSummary
summaries_of (failed e) = []
summaries_of (summaries s) = s

-- the loop of `CollectAllProviders`
unfoldable pub collect_from :
    Counts → List DeploymentSummary → List Collector → Discovery (List DeploymentSummary)
collect_from n all [] = checked n (found all)
collect_from n all (c ∷ cs) =
    let skip = collect_from n all cs in
    let add = collect_from (counted n c.collected) (all ++ summaries_of c.collected) cs in
    if c.available then add else skip

unfoldable pub no_counts : Counts
no_counts = record { available_count = 0; success_count = 0 }

unfoldable pub collect_all_providers : List Collector → Discovery (List DeploymentSummary)
unfolding collect_from no_counts
collect_all_providers cs = collect_from no_counts [] cs

unfoldable pub has_deployment : Bytes → List DeploymentSummary → Bool
has_deployment id [] = false
has_deployment id (s ∷ ss) = bytes_eq s.id id || has_deployment id ss

-- the loop of `FindDeployment`
unfoldable pub find_from : Counts → Bytes → List Collector → Discovery Collector
unfolding has_deployment
find_from n id [] = checked n (refused not_found)
find_from n id (c ∷ cs) =
    let skip = find_from n id cs in
    let later = find_from (counted n c.collected) id cs in
    if c.available
    then (if has_deployment id (summaries_of c.collected) then found c else later)
    else skip

unfoldable pub find_deployment : Bytes → List Collector → Discovery Collector
unfolding find_from no_counts
find_deployment id cs = find_from no_counts id cs
