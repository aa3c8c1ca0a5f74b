-- ===== src/Cleanup/Apart.antt =====
-- Pointers that do not lead to the first entry of a scope, and that a plan whose slice has grown has
-- only such ones: tools/cleanup/pkg/cleanup/orchestration.go.
use exasol_personal.Common.{
  ℕ, zero, suc, ◌+◌, ◌≤◌, ◌<◌, ◌≡◌, ◌⊎◌, refl, sym, ap, subst, ◌∙◌, inl, inr, Bool, false, Option,
  none, some, List, [], ◌∷◌, Bytes, ltb, ◌==◌, ==_iff, Bool-cases, arith, All,
}
use exasol_personal.Cleanup.{ScopeProvider, ProviderSpec, Collector}
use exasol_personal.Cleanup.Slices.{
  Memory, Slice, Pointer, empty, nil_slice, write_at, store, append,
}
use exasol_personal.Cleanup.Plan.{
  Plan, ScopedCollector, new_entry, judged, with_collector, add_location, add_locations, add_specs,
  build_plan,
}
use exasol_personal.Cleanup.Index.{
  LookupIndex, entry_at, after_search, update_scope, search, search_all,
}

-- The pointer does not lead to the first entry of the array at `a`.
abbrev pub Elsewhere : ℕ → Pointer → Type 0
Elsewhere a p = (p.address < a) ⊎ (1 ≤ p.index)

write_at-first :
    (n : ℕ) (x : ScopeProvider) (xs : List ScopeProvider)
    → 1 ≤ n
    → entry_at 0 (write_at n x xs) ≡ entry_at 0 xs
unfolding write_at entry_at
write_at-first zero x xs h = absurd (omega arith)
write_at-first (suc n) x [] h = refl
write_at-first (suc n) x (y ∷ xs) h = refl

store-first :
    (a : ℕ) (p : Pointer) (x : ScopeProvider) (m : Memory)
    → Elsewhere a p
    → entry_at 0 ((store p x m).array a) ≡ entry_at 0 (m.array a)
unfolding store
store-first a p x m h = elim (Bool-cases (a == p.address)) [
  | inl e ↦
      let same = (==_iff a p.address).0 e in
      rw e (first h same ∙ ap (λ b. entry_at 0 (m.array b)) (sym same))
  | inr e ↦ rw e refl
]
  where
    first :
        Elsewhere a p
        → a ≡ p.address
        → entry_at 0 (write_at p.index x (m.array p.address)) ≡ entry_at 0 (m.array p.address)
    first (inl below) same = absurd (omega (arith, same))
    first (inr later) same = write_at-first p.index x (m.array p.address) later

search-first :
    (a : ℕ) (s : ScopedCollector) (m : Memory) (index : LookupIndex)
    → Elsewhere a s.scope
    → entry_at 0 ((search s m index).0.array a) ≡ entry_at 0 (m.array a)
unfolding search
search-first a s m index h = go (entry_at s.scope.index (m.array s.scope.address))
  where
    go :
        (o : Option ScopeProvider)
        → entry_at 0 ((update_scope s.scope s.collector.collected o m).array a)
          ≡ entry_at 0 (m.array a)
    go none = refl
    go (some x) = store-first a s.scope (after_search s.collector.collected x) m h

pub search_all-first :
    (a : ℕ) (ss : List ScopedCollector) (m : Memory) (index : LookupIndex)
    → All (λ s. Elsewhere a s.scope) ss
    → entry_at 0 ((search_all ss m index).0.array a) ≡ entry_at 0 (m.array a)
unfolding search_all
search_all-first a [] m index h = refl
search_all-first a (s ∷ ss) m index h =
    search_all-first a ss (search s m index).0 (search s m index).1 h.1
    ∙ search-first a s m index h.0

-- No collector's pointer leads to the first entry of the scope that the plan shows.
pub record IsApart (plan : Plan) : Type 0 where
  pub fresh : plan.providers.address < plan.memory.next
  pub long : 1 ≤ plan.providers.length
  pub elsewhere : All (λ s. Elsewhere plan.providers.address s.scope) plan.collectors

later-Elsewhere :
    (a b : ℕ) (ss : List ScopedCollector)
    → a ≤ b
    → All (λ s. Elsewhere a s.scope) ss
    → All (λ s. Elsewhere b s.scope) ss
later-Elsewhere a b [] h all = tt
later-Elsewhere a b (s ∷ ss) h all = (go all.0, later-Elsewhere a b ss h all.1)
  where
    go : Elsewhere a s.scope → Elsewhere b s.scope
    go (inl below) = inl (omega arith)
    go (inr later) = inr later

with_collector-All :
    (a : ℕ) (o : Option Collector) (p : Pointer) (ss : List ScopedCollector)
    → Elsewhere a p
    → All (λ s. Elsewhere a s.scope) ss
    → All (λ s. Elsewhere a s.scope) (with_collector o p ss)
with_collector-All a none p ss h all = all
with_collector-All a (some c) p [] h all = (h, tt)
with_collector-All a (some c) p (s ∷ ss) h all = (all.0, with_collector-All a (some c) p ss h all.1)

append-later :
    (grow : ℕ → ℕ) (x : ScopeProvider) (m : Memory) (s : Slice)
    → s.address < m.next
    → let (m', s') = append grow x m s in
      (s.address ≤ s'.address) × (s'.address < m'.next) × (s'.length ≡ s.length + 1)
unfolding append
append-later grow x m s h = elim (Bool-cases (ltb s.length s.cap)) [
  | inl room ↦ rw room (omega arith, h, refl)
  | inr none_left ↦ rw none_left (omega arith, omega arith, refl)
]

append-full :
    (grow : ℕ → ℕ) (x : ScopeProvider) (m : Memory) (s : Slice)
    → s.cap ≤ s.length
    → let (m', s') = append grow x m s in
      (s'.address ≡ m.next) × (m'.next ≡ m.next + 1) × (s'.length ≡ s.length + 1)
unfolding append
append-full grow x m s h =
    let none_left : ltb s.length s.cap ≡ false = ground arith in rw none_left (refl, refl, refl)

module _ (grow : ℕ → ℕ) (legacy : Bool) (selected_providers : List Bytes) where
  add_location-IsApart :
      (spec : ProviderSpec) (l : Bytes) (plan : Plan)
      → IsApart plan
      → IsApart (add_location grow legacy selected_providers spec l plan)
  unfolding add_location store
  add_location-IsApart spec l plan h =
      let (later, below, longer) =
        append-later grow (new_entry spec l) plan.memory plan.providers h.fresh in
      let s = (append grow (new_entry spec l) plan.memory plan.providers).1 in
      record {
        fresh = below;
        long = omega (arith, longer, h.long);
        elsewhere =
            with_collector-All s.address (judged legacy selected_providers spec l).1 _
              plan.collectors (inr (omega (arith, longer, h.long)))
              (later-Elsewhere plan.providers.address s.address plan.collectors later h.elsewhere);
      }

  add_locations-IsApart :
      (spec : ProviderSpec) (ls : List Bytes) (plan : Plan)
      → IsApart plan
      → IsApart (add_locations grow legacy selected_providers spec ls plan)
  unfolding add_locations
  add_locations-IsApart spec [] plan h = h
  add_locations-IsApart spec (l ∷ ls) plan h =
      add_locations-IsApart spec ls (add_location grow legacy selected_providers spec l plan)
        (add_location-IsApart spec l plan h)

  add_specs-IsApart :
      (specs : List ProviderSpec) (plan : Plan)
      → IsApart plan
      → IsApart (add_specs grow legacy selected_providers specs plan)
  unfolding add_specs
  add_specs-IsApart [] plan h = h
  add_specs-IsApart (s ∷ ss) plan h =
      add_specs-IsApart ss (add_locations grow legacy selected_providers s s.locations plan)
        (add_locations-IsApart s s.locations plan h)

  abbrev start : Plan
  start = record { memory = empty; providers = nil_slice; collectors = [] }

  -- a plan whose one entry fills its array, and to whose first array all pointers lead
  record IsFull (plan : Plan) : Type 0 where
    one : plan.providers.length ≡ 1
    full : plan.providers.cap ≡ 1
    fresh : plan.providers.address < plan.memory.next
    behind : All (λ s. Elsewhere plan.memory.next s.scope) plan.collectors

  start-IsFull :
      (spec : ProviderSpec) (l : Bytes)
      → grow 0 ≡ 1
      → IsFull (add_location grow legacy selected_providers spec l start)
  unfolding add_location append store
  start-IsFull spec l h = record {
    one = refl;
    full = h;
    fresh = omega arith;
    behind =
        with_collector-All 2 (judged legacy selected_providers spec l).1 _ [] (inl (omega arith))
          tt;
  }

  full-IsApart :
      (spec : ProviderSpec) (l : Bytes) (plan : Plan)
      → IsFull plan
      → IsApart (add_location grow legacy selected_providers spec l plan)
  unfolding add_location store
  full-IsApart spec l plan h =
      let (moved, below, longer) =
        append-full grow (new_entry spec l) plan.memory plan.providers
          (omega (arith, h.one, h.full)) in
      record {
        fresh = omega (arith, moved, below);
        long = omega (arith, longer);
        elsewhere =
            with_collector-All _ (judged legacy selected_providers spec l).1 _ plan.collectors
              (inr (omega (arith, longer, h.one)))
              (later-Elsewhere plan.memory.next _ plan.collectors (omega (arith, moved)) h.behind);
      }

  -- The entry of the first location stays as `BuildPlan` wrote it.
  pub build_plan-IsApart :
      (spec : ProviderSpec) (k l : Bytes) (ls : List Bytes) (specs : List ProviderSpec)
      → grow 0 ≡ 1
      → spec.locations ≡ k ∷ l ∷ ls
      → IsApart (build_plan grow legacy selected_providers (spec ∷ specs))
  unfolding build_plan add_specs
  build_plan-IsApart spec k l ls specs h e = add_specs-IsApart specs _ (
      subst (λ ms. IsApart (add_locations grow legacy selected_providers spec ms start)) (sym e)
        two)
    where
      two : IsApart (add_locations grow legacy selected_providers spec (k ∷ l ∷ ls) start)
      two =
          unfold add_locations in
          add_locations-IsApart spec ls _ (
            full-IsApart spec l (add_location grow legacy selected_providers spec k start)
              (start-IsFull spec k h))
