-- ===== src/Cleanup/Lost.antt =====
-- What a search writes to the scope of a plan is lost where the slice of the scope has moved on to
-- another array: `CollectLookupIndex` of tools/cleanup/pkg/cleanup/orchestration.go.
use exasol_personal.Common.{
  ℕ, zero, suc, ◌≤◌, ◌≡◌, refl, sym, ap, subst, ◌∙◌, inl, inr, Bool, Option, none, some, List, [],
  ◌∷◌, ◌++◌, Bytes, Bool-cases, arith,
}
use exasol_personal.Cleanup.{searched, ScopeProvider, ProviderSpec, Collector, should_use_provider}
use exasol_personal.Cleanup.Slices.{take, read}
use exasol_personal.Cleanup.Plan.{new_entry, judged, owned, opened, build_plan}
use exasol_personal.Cleanup.Scope.{expected_locations, expected, build_plan-Shows}
use exasol_personal.Cleanup.Index.{entry_at, no_index, collect_lookup_index}
use exasol_personal.Cleanup.Apart.{search_all-first, build_plan-IsApart}

take-first : (n : ℕ) (xs : List ScopeProvider) → 1 ≤ n → entry_at 0 (take n xs) ≡ entry_at 0 xs
unfolding take entry_at
take-first zero xs h = absurd (omega arith)
take-first (suc n) [] h = refl
take-first (suc n) (x ∷ xs) h = refl

opened-searched :
    (entry : ScopeProvider) (c d : Collector) (owner_error : Option Bytes)
    → (owned entry d owner_error).1 ≡ some c
    → (owned entry d owner_error).0 ≡ record entry { status = searched; reason = [] }
opened-searched entry c d (some e) h = cc
opened-searched entry c d none h = go d.account_error h
  where
    go :
        (o : Option Bytes)
        → (opened entry d o).1 ≡ some c
        → (opened entry d o).0 ≡ record entry { status = searched; reason = [] }
    go none h = refl
    go (some e) h = cc

judged-searched :
    (legacy : Bool) (selected_providers : List Bytes) (spec : ProviderSpec) (k : Bytes)
    (c : Collector)
    → (judged legacy selected_providers spec k).1 ≡ some c
    → (judged legacy selected_providers spec k).0
      ≡ record (new_entry spec k) { status = searched; reason = [] }
unfolding judged
judged-searched legacy selected_providers spec k c h =
    elim (Bool-cases (should_use_provider spec.name selected_providers)) [
      | inl use_it ↦ rw use_it (
          opened-searched (new_entry spec k) c _ (spec.resolve_owner k).err
            (rw (judged, use_it) at h))
      | inr skip ↦ cc (rw (judged, skip) at h)
    ]

-- Where the runtime gives a slice of one entry the capacity 1: if the first provider has two
-- locations or more and the first of them is searched, the scope calls this one searched, with no
-- error, whatever its collector reports to `CollectLookupIndex`, be it an error.
pub lost_error :
    (grow : ℕ → ℕ) (legacy : Bool) (selected_providers : List Bytes) (spec : ProviderSpec)
    (k l : Bytes) (ls : List Bytes) (specs : List ProviderSpec) (c : Collector)
    → grow 0 ≡ 1
    → spec.locations ≡ k ∷ l ∷ ls
    → (judged legacy selected_providers spec k).1 ≡ some c
    → let plan =
        (collect_lookup_index (build_plan grow legacy selected_providers (spec ∷ specs))).0 in
      entry_at 0 (read plan.memory plan.providers)
      ≡ some (record (new_entry spec k) { status = searched; reason = [] })
unfolding collect_lookup_index read entry_at
lost_error grow legacy selected_providers spec k l ls specs c h e opened =
    let plan = build_plan grow legacy selected_providers (spec ∷ specs) in
    let apart = build_plan-IsApart grow legacy selected_providers spec k l ls specs h e in
    let shows = build_plan-Shows grow legacy selected_providers (spec ∷ specs) in
    let first : entry_at 0 (expected legacy selected_providers (spec ∷ specs))
        ≡ some (judged legacy selected_providers spec k).0 =
      subst
        (λ ms.
          entry_at 0 (
            expected_locations legacy selected_providers spec ms
            ++ expected legacy selected_providers specs)
          ≡ some (judged legacy selected_providers spec k).0)
        (sym e) refl in
    take-first plan.providers.length _ apart.long
    ∙ (search_all-first plan.providers.address plan.collectors plan.memory no_index apart.elsewhere
        ∙ (ap (λ xs. entry_at 0 xs) shows.shown
            ∙ (first
                ∙ ap (λ (x : ScopeProvider). some x)
                    (judged-searched legacy selected_providers spec k c opened))))
