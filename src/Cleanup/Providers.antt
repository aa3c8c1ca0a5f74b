-- ===== src/Cleanup/Providers.antt =====
-- `CollectAllProviders` and `FindDeployment` of tools/cleanup/pkg/cleanup/provider.go agree.
use exasol_personal.Common.{
  ◌≤◌, ◌≡◌, ◌⊎◌, refl, sym, subst, ◌∙◌, inl, inr, true, false, ◌||◌, List, [], ◌∷◌, ◌++◌, Bytes,
  ltb, Bool-cases, arith,
}
use exasol_personal.Cleanup.{
  DeploymentSummary, Collected, failed, summaries, Collector, Counts, not_found, Discovery, found,
  refused, counted, summaries_of, collect_from, no_counts, collect_all_providers, has_deployment,
  find_from, find_deployment,
}

-- What finding a deployment gives, by what collecting gives.
abbrev pub Agrees : Bytes → Discovery (List DeploymentSummary) → Discovery Collector → Type 0
Agrees id (refused e) f = f ≡ refused e
Agrees id (found all) f =
    ((has_deployment id all ≡ false) × (f ≡ refused not_found))
    ⊎ ((has_deployment id all ≡ true)
        × ((c : Collector) × (f ≡ found c)
            × (c.available ≡ true)
            × (has_deployment id (summaries_of c.collected) ≡ true)))

has_deployment-append :
    (id : Bytes) (xs ys : List DeploymentSummary)
    → has_deployment id (xs ++ ys) ≡ (has_deployment id xs || has_deployment id ys)
unfolding has_deployment
has_deployment-append id [] ys = refl
has_deployment-append id (x ∷ xs) ys = ground (arith, has_deployment-append id xs ys)

-- A deployment that was collected stays collected.
abbrev Holds : Bytes → Discovery (List DeploymentSummary) → Type 0
Holds id r = (all : List DeploymentSummary) × (r ≡ found all) × (has_deployment id all ≡ true)

collect_from-Holds :
    (id : Bytes) (n : Counts) (all : List DeploymentSummary) (cs : List Collector)
    → 1 ≤ n.available_count
    → 1 ≤ n.success_count
    → has_deployment id all ≡ true
    → Holds id (collect_from n all cs)
unfolding collect_from
collect_from-Holds id n all [] a s h = (all, ground arith, h)
collect_from-Holds id n all (c ∷ cs) a s h = elim (Bool-cases c.available) [
  | inl up ↦ rw up (
      collect_from-Holds id (counted n c.collected) (all ++ summaries_of c.collected) cs
        (more c.collected).0 (more c.collected).1
        (has_deployment-append id all (summaries_of c.collected) ∙ rw h refl))
  | inr down ↦ rw down (collect_from-Holds id n all cs a s h)
]
  where
    more : (d : Collected) → (1 ≤ (counted n d).available_count) × (1 ≤ (counted n d).success_count)
    more (failed e) = omega arith
    more (summaries ss) = omega arith

find_from-here :
    (id : Bytes) (n : Counts) (c : Collector) (cs : List Collector)
    → c.available ≡ true
    → has_deployment id (summaries_of c.collected) ≡ true
    → find_from n id (c ∷ cs) ≡ found c
unfolding find_from
find_from-here id n c cs up here = simp (up, here)

collect_from-up :
    (n : Counts) (all : List DeploymentSummary) (c : Collector) (cs : List Collector)
    → c.available ≡ true
    → collect_from n all (c ∷ cs)
      ≡ collect_from (counted n c.collected) (all ++ summaries_of c.collected) cs
unfolding collect_from
collect_from-up n all c cs up = simp (up)

find-Agrees :
    (id : Bytes) (n : Counts) (all : List DeploymentSummary) (cs : List Collector)
    → has_deployment id all ≡ false
    → Agrees id (collect_from n all cs) (find_from n id cs)
unfolding collect_from find_from
find-Agrees id n all [] h = elim (Bool-cases (ltb 0 n.available_count)) [
  | inl some_available ↦ elim (Bool-cases (ltb 0 n.success_count)) [
    | inl some_success ↦ rw (some_available, some_success) (inl (h, refl))
    | inr no_success ↦ rw (some_available, no_success) refl
  ]
  | inr none_available ↦ rw none_available refl
]
find-Agrees id n all (c ∷ cs) h = elim (Bool-cases c.available) [
  | inr down ↦ rw down (find-Agrees id n all cs h)
  | inl up ↦ elim (Bool-cases (has_deployment id (summaries_of c.collected))) [
    | inr other ↦
        rw (up, other)
          (find-Agrees id (counted n c.collected) (all ++ summaries_of c.collected) cs
            (has_deployment-append id all (summaries_of c.collected) ∙ rw (h, other) refl))
    | inl here ↦
        let (all', e, h') = collected_here c.collected here in
        subst (λ f. Agrees id (collect_from n all (c ∷ cs)) f)
          (sym (find_from-here id n c cs up here))
          (subst (λ r. Agrees id r (found c)) (sym (collect_from-up n all c cs up ∙ e))
            (inr (h', (c, refl, up, here))))
  ]
]
  where
    collected_here :
        (d : Collected)
        → has_deployment id (summaries_of d) ≡ true
        → Holds id (collect_from (counted n d) (all ++ summaries_of d) cs)
    collected_here (failed e) k = absurd (unfold has_deployment in cc k)
    collected_here (summaries ss) k =
        collect_from-Holds id (counted n (summaries ss)) (all ++ ss) cs (omega arith) (omega arith)
          (has_deployment-append id all ss ∙ rw (h, k) refl)

-- `FindDeployment` refuses with the error of `CollectAllProviders` where this one refuses; otherwise
-- it finds a deployment exactly when it is among the collected ones, and then gives a collector that
-- is available and reports it.
pub find_deployment-Agrees :
    (id : Bytes) (cs : List Collector)
    → Agrees id (collect_all_providers cs) (find_deployment id cs)
unfolding collect_all_providers find_deployment has_deployment
find_deployment-Agrees id cs = find-Agrees id no_counts [] cs refl
