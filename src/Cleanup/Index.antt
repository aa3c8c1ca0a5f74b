-- ===== src/Cleanup/Index.antt =====
-- `CollectLookupIndex` and `LookupDeploymentInPlan` of tools/cleanup/pkg/cleanup/orchestration.go.
use mathlib.Core.List.{append_assoc, append-nil}
use exasol_personal.Common.{
  ℕ, zero, suc, map, ◌+◌, ◌≡◌, refl, sym, ap, ◌∙◌, inl, inr, Option, none, some, List, [], ◌∷◌,
  ◌++◌, Bytes, bytes_eq, eq_of_bytes_eq, Bool, bytes_key, lookup, put, lookup-put_same,
  lookup-put_other, true, false, keep, arith, if◌then◌else◌, Bool-cases,
}
use exasol_personal.Cleanup.{
  searched, error, ScopeProvider, DeploymentSummary, Collected, failed, summaries, summaries_of,
  Collector,
}
use exasol_personal.Cleanup.Slices.{Memory, Pointer, store}
use exasol_personal.Cleanup.Plan.{Plan, ScopedCollector}

-- `ResolvedDeployment` is read off the summary.
pub record LookupMatch : Type 0 where
  pub collector : Collector
  pub summary : DeploymentSummary

abbrev pub Matches : Type 0
Matches = List (Bytes × List LookupMatch)

pub record LookupIndex : Type 0 where
  pub matches : Matches
  pub success_count : ℕ

abbrev pub entries_of : Option (List LookupMatch) → List LookupMatch
entries_of none = []
entries_of (some ms) = ms

-- `Matches[id]`, which is empty for an id that is missing
unfoldable pub matches_of : Bytes → Matches → List LookupMatch
unfolding lookup
matches_of id m = entries_of (lookup id m)

unfoldable pub add_matches : Collector → List DeploymentSummary → Matches → Matches
unfolding put matches_of
add_matches c [] m = m
add_matches c (s ∷ ss) m =
    add_matches c ss
      (put s.id (matches_of s.id m ++ (record { collector = c; summary = s } ∷ [])) m)

-- the status and the reason that an entry gets from a search
abbrev pub after_search : Collected → ScopeProvider → ScopeProvider
after_search (failed e) entry = record entry { status = error; reason = e }
after_search (summaries ss) entry = record entry { status = searched; reason = [] }

abbrev pub add_success : Collected → LookupIndex → Collector → LookupIndex
add_success (failed e) index c = index
add_success (summaries ss) index c = record {
  matches = add_matches c ss index.matches;
  success_count = index.success_count + 1;
}

-- the entry that a pointer leads to, if there is one
unfoldable pub entry_at : ℕ → List ScopeProvider → Option ScopeProvider
entry_at i [] = none
entry_at zero (x ∷ xs) = some x
entry_at (suc i) (x ∷ xs) = entry_at i xs

abbrev pub update_scope : Pointer → Collected → Option ScopeProvider → Memory → Memory
update_scope p c none m = m
update_scope p c (some x) m = store p (after_search c x) m

-- the body of the loop
unfoldable pub search : ScopedCollector → Memory → LookupIndex → Memory × LookupIndex
unfolding store entry_at add_matches
search s m index =
    let collected = s.collector.collected in
    (
      update_scope s.scope collected (entry_at s.scope.index (m.array s.scope.address)) m,
      add_success collected index s.collector,
    )

unfoldable pub search_all : List ScopedCollector → Memory → LookupIndex → Memory × LookupIndex
unfolding search
search_all [] m index = (m, index)
search_all (s ∷ ss) m index = let (m', index') = search s m index in search_all ss m' index'

abbrev pub no_index : LookupIndex
no_index = record { matches = []; success_count = 0 }

-- `CollectLookupIndex`: the plan with its memory as the searches leave it, and the index
unfoldable pub collect_lookup_index : Plan → Plan × LookupIndex
unfolding search_all
collect_lookup_index plan =
    let (m, index) = search_all plan.collectors plan.memory no_index in
    (record plan { memory = m }, index)

-- `LookupDeploymentInPlan`
unfoldable pub lookup_deployment_in_plan : Plan → Bytes → List LookupMatch × ℕ
unfolding collect_lookup_index matches_of
lookup_deployment_in_plan plan id =
    let (plan', index) = collect_lookup_index plan in
    (matches_of id index.matches, index.success_count)

-- The matches of an id, as the collectors report them.
abbrev pub found_by : Bytes → Collector → List LookupMatch
found_by id c =
    map (λ s. record { collector = c; summary = s })
      (keep (λ s. bytes_eq id s.id) (summaries_of c.collected))

abbrev pub found_by_all : Bytes → List ScopedCollector → List LookupMatch
found_by_all id [] = []
found_by_all id (s ∷ ss) = found_by id s.collector ++ found_by_all id ss

abbrev pub succeeded : List ScopedCollector → ℕ
succeeded [] = 0
succeeded (s ∷ ss) = (elim s.collector.collected [ failed e ↦ 0 | summaries ss ↦ 1 ]) + succeeded ss

abbrev match_of : Collector → DeploymentSummary → LookupMatch
match_of c s = record { collector = c; summary = s }

matches_of-put :
    (id k : Bytes) (x : LookupMatch) (m : Matches)
    → matches_of id (put k (matches_of k m ++ (x ∷ [])) m)
      ≡ matches_of id m ++ (if bytes_eq id k then x ∷ [] else [])
unfolding matches_of
matches_of-put id k x m = elim (Bool-cases (bytes_eq id k)) [
  | inl e ↦
      let same = eq_of_bytes_eq id k e in
      rw (e, same, lookup-put_same k (matches_of k m ++ (x ∷ [])) m) refl
  | inr e ↦
      rw (e, lookup-put_other id k (matches_of k m ++ (x ∷ [])) m e)
        (sym (append-nil (matches_of id m)))
]

matches_of-add_matches :
    (id : Bytes) (c : Collector) (ss : List DeploymentSummary) (m : Matches)
    → matches_of id (add_matches c ss m)
      ≡ matches_of id m ++ map (match_of c) (keep (λ s. bytes_eq id s.id) ss)
unfolding add_matches
matches_of-add_matches id c [] m = sym (append-nil (matches_of id m))
matches_of-add_matches id c (s ∷ ss) m =
    matches_of-add_matches id c ss (put s.id (matches_of s.id m ++ (match_of c s ∷ [])) m)
    ∙ (ap (λ l. l ++ map (match_of c) (keep (λ t. bytes_eq id t.id) ss))
          (matches_of-put id s.id (match_of c s) m)
        ∙ step (bytes_eq id s.id) (matches_of id m))
  where
    step :
        (b : Bool) (old : List LookupMatch)
        → (old ++ (if b then match_of c s ∷ [] else []))
            ++ map (match_of c) (keep (λ t. bytes_eq id t.id) ss)
          ≡ old
            ++ map
                (match_of c)
                (if b then s ∷ keep (λ t. bytes_eq id t.id) ss else keep (λ t. bytes_eq id t.id) ss)
    step true old = append_assoc old (match_of c s ∷ []) _
    step false old = append_assoc old [] _

search-index :
    (id : Bytes) (s : ScopedCollector) (m : Memory) (index : LookupIndex)
    → (matches_of id (search s m index).1.matches
        ≡ matches_of id index.matches ++ found_by id s.collector)
      × ((search s m index).1.success_count
          ≡ index.success_count + (elim s.collector.collected [ failed e ↦ 0 | summaries ss ↦ 1 ]))
unfolding search
search-index id s m index = go s.collector.collected
  where
    go :
        (d : Collected)
        → (matches_of id (add_success d index s.collector).matches
            ≡ matches_of id index.matches
              ++ map (match_of s.collector) (keep (λ t. bytes_eq id t.id) (summaries_of d)))
          × ((add_success d index s.collector).success_count
              ≡ index.success_count + (elim d [ failed e ↦ 0 | summaries ss ↦ 1 ]))
    go (failed e) = (sym (append-nil (matches_of id index.matches)), omega arith)
    go (summaries ss) = (matches_of-add_matches id s.collector ss index.matches, omega arith)

search_all-index :
    (id : Bytes) (ss : List ScopedCollector) (m : Memory) (index : LookupIndex)
    → (matches_of id (search_all ss m index).1.matches
        ≡ matches_of id index.matches ++ found_by_all id ss)
      × ((search_all ss m index).1.success_count ≡ index.success_count + succeeded ss)
unfolding search_all
search_all-index id [] m index = (sym (append-nil (matches_of id index.matches)), omega arith)
search_all-index id (s ∷ ss) m index =
    let (first, one) = search-index id s m index in
    let (rest, more) = search_all-index id ss (search s m index).0 (search s m index).1 in
    (
      rest
          ∙ (ap (λ l. l ++ found_by_all id ss) first
              ∙ append_assoc (matches_of id index.matches) (found_by id s.collector)
                  (found_by_all id ss)),
      omega (arith, one, more),
    )

-- What `LookupDeploymentInPlan` finds of a deployment is what the collectors of the plan that answered report of it, in
-- the order of the plan and of the reports, and nothing else; the count is that of the collectors
-- that answered.
pub lookup_deployment_lem :
    (plan : Plan) (id : Bytes)
    → lookup_deployment_in_plan plan id
      ≡ (found_by_all id plan.collectors, succeeded plan.collectors)
unfolding lookup_deployment_in_plan collect_lookup_index matches_of
lookup_deployment_lem plan id =
    let (e, f) = search_all-index id plan.collectors plan.memory no_index in
    let count : (search_all plan.collectors plan.memory no_index).1.success_count
        ≡ succeeded plan.collectors =
      omega (arith, f) in
    λ i. (e i, count i)
