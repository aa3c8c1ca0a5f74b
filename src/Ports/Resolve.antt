-- ===== src/Ports/Resolve.antt =====
-- `resolve` (internal/deploy/local_ports.go): the services get ports, and no two share one.
use exasol_personal.Common.{
  ℕ, ◌≤◌, ◌<◌, ◌≡◌, ◌≢◌, refl, sym, subst, ◌∙◌, ◌⊎◌, inl, none, some, List, [], Bytes, arith,
  lookup, nat_key, bytes_key, All,
}
use exasol_personal.Ports.{
  LocalService, Allocator, Mappings, Reserved, PortResult, resolved, refused, reserve_all,
  AllocationState, allocate_all, check_known, resolve,
}
use exasol_personal.Ports.Distinct.{IsExtension, reserve_all_lem}
use exasol_personal.Ports.Serves.{HasPort, ServesAll, all_Serves}

-- what `resolve` promises of its result
pub record IsResolution (al : Allocator) (m : Mappings) (services : List LocalService)
    (m' : Mappings) : Type 0 where
  pub served : All (λ (s : LocalService). HasPort m' s.name) services
  pub kept : (s : Bytes) (p : ℕ) → lookup s m ≡ some p → p ≢ 0 → lookup s m' ≡ some p
  pub chosen :
      (s : Bytes) (p : ℕ)
      → lookup s m' ≡ some p
      → p ≢ 0
      → (lookup s m ≡ some p) ⊎ ((al.minimum_port ≤ p) × (p ≤ al.maximum_port))
  pub distinct : (s t : Bytes) (p : ℕ) → lookup s m' ≡ some p → lookup t m' ≡ some p → p ≢ 0 → s ≡ t

module _ (al : Allocator) (m : Mappings) where
  -- the state in which the second loop begins
  abbrev start_of : Reserved → AllocationState
  start_of r = record { mappings = m; reserved = r; addresses = none }

  start_IsExtension : (r : Reserved) → reserve_all m [] ≡ resolved r → IsExtension al m m r
  start_IsExtension r h = record {
    covers = (reserve_all_lem m [] r h).1;
    keeps = λ s p e _. e;
    origin = λ s p e _. inl e;
  }

  end_IsResolution :
      (positive : 0 < al.minimum_port) (services : List LocalService) (r : Reserved)
      (a : AllocationState)
      → ServesAll al m positive services (start_of r) a
      → IsResolution al m services a.mappings
  end_IsResolution positive services r a x = record {
    served = x.all_served;
    kept = x.all_extension.keeps;
    chosen = x.all_extension.origin;
    distinct = λ s t p e f more. same_owner (
        sym (x.all_extension.covers.covered s p e more)
        ∙ x.all_extension.covers.covered t p f more);
  }
    where
      same_owner : {s t : Bytes} → some s ≡ some t → s ≡ t
      same_owner e = ground arith

-- If `resolve` gives mappings, then every service has a port in them, a port that was configured is
-- kept and any other is in the allocator's range, and no two services have the same port.
pub resolve-IsResolution :
    (al : Allocator) (services : List LocalService) (m m' : Mappings)
    → 0 < al.minimum_port
    → resolve al services m ≡ resolved m'
    → IsResolution al m services m'
unfolding resolve
resolve-IsResolution al services m m' positive h = reserved_go (reserve_all m []) refl
  where
    same_mappings : {a b : Mappings} → resolved a ≡ resolved b → a ≡ b
    same_mappings e = ground arith

    checked_go :
        (r : Reserved) (a : AllocationState)
        → reserve_all m [] ≡ resolved r
        → allocate_all al services (start_of al m r) ≡ resolved a
        → (c : PortResult (Unit {0})) → check_known services a.mappings ≡ c
        → IsResolution al m services m'
    checked_go r a k j (refused e) i = absurd (ground (arith, h, k, j, i))
    checked_go r a k j (resolved u) i =
        subst (IsResolution al m services) (same_mappings (ground (arith, h, k, j, i))) (
          end_IsResolution al m positive services r a
            (all_Serves al m positive services (start_of al m r) a (start_IsExtension al m r k) j))

    allocated_go :
        (r : Reserved)
        → reserve_all m [] ≡ resolved r
        → (a : PortResult AllocationState) → allocate_all al services (start_of al m r) ≡ a
        → IsResolution al m services m'
    allocated_go r k (refused e) j = absurd (ground (arith, h, k, j))
    allocated_go r k (resolved a) j = checked_go r a k j (check_known services a.mappings) refl

    reserved_go : (r : PortResult Reserved) → reserve_all m [] ≡ r → IsResolution al m services m'
    reserved_go (refused e) k = absurd (ground (arith, h, k))
    reserved_go (resolved r) k = allocated_go r k (allocate_all al services (start_of al m r)) refl
