-- ===== src/Ports/Choice.antt =====
-- `selectPort` (internal/deploy/local_ports.go) finds a port wherever there is one.
use exasol_personal.Common.{
  ℕ, suc, ◌+◌, ◌-◌, ◌≤◌, ◌<◌, ◌≡◌, refl, ap, sym, subst, ◌∙◌, ◌⊎◌, inl, inr, Bool, true, false,
  ◌||◌, Option, none, some, List, ltb, leb, if◌then◌else◌, arith, Bool-cases, Option-cases, nat_key,
  bytes_key,
}
use exasol_personal.Ports.{
  LocalService, Address, Allocator, Reserved, PortResult, resolved, refused, no_usable_port,
  first_port, first_of, port_of, try_port, select_port,
}
use exasol_personal.Ports.Search.{first_port_sound, first_port_complete}

-- The place of a port in the order in which ports are tried: upwards from the default port, and
-- then from the smallest port.
abbrev pub place : Allocator → ℕ → ℕ → ℕ
place al start q =
    if leb start q then q - start else (suc al.maximum_port - start) + (q - al.minimum_port)

-- A port of the range that passes, with none before it that does.
pub record IsFirst (al : Allocator) (start : ℕ) (passes : ℕ → Bool) (p : ℕ) : Type 0 where
  pub passed : passes p ≡ true
  pub low : al.minimum_port ≤ p
  pub high : p ≤ al.maximum_port
  pub first :
      (q : ℕ)
      → al.minimum_port ≤ q
      → q ≤ al.maximum_port
      → place al start q < place al start p
      → passes q ≡ false

abbrev NonePass : Allocator → (ℕ → Bool) → Type 0
NonePass al passes = (q : ℕ) → al.minimum_port ≤ q → q ≤ al.maximum_port → passes q ≡ false

module _ (al : Allocator) (start : ℕ) (passes : ℕ → Bool) (above : al.minimum_port ≤ start)
    (below : start ≤ al.maximum_port) where
  abbrev searched : Option ℕ
  searched =
      first_of (first_port passes start (suc al.maximum_port - start))
        (first_port passes al.minimum_port (start - al.minimum_port))

  found_above :
      (p : ℕ)
      → first_port passes start (suc al.maximum_port - start) ≡ some p
      → IsFirst al start passes p
  found_above p h =
      let (passed, from, to, before) =
        first_port_sound passes start (suc al.maximum_port - start) p h in
      record {
        passed = passed;
        low = omega arith;
        high = omega arith;
        first = λ q low high earlier.
            before q (ground (arith, earlier, from)) (ground (arith, earlier, from));
      }

  found_below :
      (p : ℕ)
      → first_port passes start (suc al.maximum_port - start) ≡ none
      → first_port passes al.minimum_port (start - al.minimum_port) ≡ some p
      → IsFirst al start passes p
  found_below p none_above h =
      let (passed, from, to, before) =
        first_port_sound passes al.minimum_port (start - al.minimum_port) p h in
      record {
        passed = passed;
        low = omega arith;
        high = omega arith;
        first = λ q low high earlier. elim (Bool-cases (leb start q)) [
          | inl up ↦
              first_port_complete passes start (suc al.maximum_port - start) none_above q
                (ground (arith, up)) (omega arith)
          | inr down ↦ before q low (ground (arith, earlier, down, to, from, above, below, low))
        ];
      }

  not_found :
      first_port passes start (suc al.maximum_port - start) ≡ none
      → first_port passes al.minimum_port (start - al.minimum_port) ≡ none
      → NonePass al passes
  not_found a b q low high = elim (Bool-cases (leb start q)) [
    | inl up ↦
        first_port_complete passes start (suc al.maximum_port - start) a q (ground (arith, up))
          (omega arith)
    | inr down ↦
        first_port_complete passes al.minimum_port (start - al.minimum_port) b q low
          (ground (arith, down, above))
  ]

  abbrev up_search : Option ℕ
  up_search = first_port passes start (suc al.maximum_port - start)

  abbrev down_search : Option ℕ
  down_search = first_port passes al.minimum_port (start - al.minimum_port)

  SearchEnd : Type 0
  SearchEnd =
      ((p : ℕ) × (searched ≡ some p) × IsFirst al start passes p)
      ⊎ ((searched ≡ none) × NonePass al passes)

  search_end :
      (up_search ≡ none) ⊎ ((p : ℕ) × (up_search ≡ some p))
      → (down_search ≡ none) ⊎ ((p : ℕ) × (down_search ≡ some p))
      → SearchEnd
  unfolding SearchEnd
  search_end (inr (p, h)) o = inl (p, rw h refl, found_above p h)
  search_end (inl h) (inr (p, k)) = inl (p, rw (h, k) refl, found_below p h k)
  search_end (inl h) (inl k) = inr (rw (h, k) refl, not_found h k)

-- Where the default port is in range, `selectPort` gives the first port of the range, in the order
-- of the search, that is not reserved and at which every address can be listened; it refuses only
-- where there is none.
pub select_port_lem :
    (al : Allocator) (service : LocalService) (addresses : List Address) (reserved : Reserved)
    → al.minimum_port ≤ service.default_host_port
    → service.default_host_port ≤ al.maximum_port
    → let passes = λ (q : ℕ). try_port al q addresses reserved in
      ((p : ℕ) × (select_port al service addresses reserved ≡ resolved p)
        × IsFirst al service.default_host_port passes p)
      ⊎ ((select_port al service addresses reserved ≡ refused (no_usable_port service.name))
          × ((q : ℕ) → al.minimum_port ≤ q → q ≤ al.maximum_port → passes q ≡ false))
unfolding select_port SearchEnd
select_port_lem al service addresses reserved low high =
    let passes = λ (q : ℕ). try_port al q addresses reserved in
    let start = service.default_host_port in
    elim (search_end al start passes low high (Option-cases _) (Option-cases _)) [
      | inl (p, h, first) ↦ inl (p, chosen (resolved p) (ap (port_of service) h), first)
      | inr (h, no_port) ↦
          inr (chosen (refused (no_usable_port service.name)) (ap (port_of service) h), no_port)
    ]
  where
    in_range :
        (ltb service.default_host_port al.minimum_port
          || ltb al.maximum_port service.default_host_port)
        ≡ false
    in_range = ground (arith, low, high)

    chosen :
        (r : PortResult ℕ)
        → port_of service
            (searched al service.default_host_port (λ q. try_port al q addresses reserved) low high)
          ≡ r
        → select_port al service addresses reserved ≡ r
    chosen r h = rw in_range h

out_of_range : Allocator → ℕ → Bool
out_of_range al start = ltb start al.minimum_port || ltb al.maximum_port start

resolved-injective : {p q : ℕ} → resolved p ≡ resolved q → p ≡ q
resolved-injective h = ground arith

-- What `selectPort` gives is the first port that can be used.
pub select_port_sound :
    (al : Allocator) (service : LocalService) (addresses : List Address) (reserved : Reserved)
    (p : ℕ)
    → select_port al service addresses reserved ≡ resolved p
    → IsFirst al service.default_host_port (λ q. try_port al q addresses reserved) p
unfolding select_port out_of_range
select_port_sound al service addresses reserved p h =
    elim (Bool-cases (out_of_range al service.default_host_port)) [
      | inl bad ↦ absurd (ground (arith, h, bad))
      | inr fine ↦
          elim (select_port_lem al service addresses reserved (ground (arith, fine))
            (ground (arith, fine))) [
              | inl (q, k, first) ↦
                  subst
                    (IsFirst al service.default_host_port (λ q. try_port al q addresses reserved))
                    (resolved-injective (sym k ∙ h)) first
              | inr (k, none_free) ↦ absurd (ground (arith, sym k ∙ h))
            ]
    ]
