-- ===== src/Ports/Serves.antt =====
-- The second loop of `resolve` (internal/deploy/local_ports.go): each service gets a port.
use exasol_personal.Common.{
  ℕ, zero, suc, ◌≤◌, ◌<◌, ◌≡◌, ◌≢◌, refl, sym, subst, ◌∙◌, inl, inr, true, false, Option, none,
  some, List, [], ◌∷◌, Bytes, bytes_eq, eq_of_bytes_eq, arith, Bool-cases, lookup, put, nat_key,
  bytes_key, lookup-put_same, lookup-put_other, All,
}
use exasol_personal.Ports.{
  LocalService, Address, Allocator, Mappings, Reserved, PortResult, resolved, refused, try_port,
  select_port, AllocationState, allocate, allocate_service, allocate_all, is_configured,
  addresses_of,
}
use exasol_personal.Ports.Choice.{select_port_sound}
use exasol_personal.Ports.Distinct.{IsExtension, IsExtension-put}

abbrev pub HasPort : Mappings → Bytes → Type 0
HasPort m s = (p : ℕ) × (lookup s m ≡ some p) × (p ≢ 0)

configured_port : (o : Option ℕ) → is_configured o ≡ true → (p : ℕ) × (o ≡ some p) × (p ≢ 0)
configured_port none h = absurd (ground arith)
configured_port (some zero) h = absurd (ground arith)
configured_port (some (suc p)) h = (suc p, refl, λ e. absurd (omega (arith, e)))

free_port :
    (al : Allocator) (p : ℕ) (addresses : List Address) (r : Reserved)
    → try_port al p addresses r ≡ true
    → lookup p r ≡ none
unfolding try_port
free_port al p addresses r h = go (lookup p r) refl
  where
    go : (o : Option Bytes) → lookup p r ≡ o → lookup p r ≡ none
    go none e = e
    go (some s) e = absurd (ground (arith, h, e))

module _ (al : Allocator) (m : Mappings) (positive : 0 < al.minimum_port) where
  -- the state extends `m`, the service has a port in it, and so do those that had one
  record Serves (service : LocalService) (a a' : AllocationState) : Type 0 where
    extension : IsExtension al m a'.mappings a'.reserved
    served : HasPort a'.mappings service.name
    kept : (s : Bytes) → HasPort a.mappings s → HasPort a'.mappings s

  allocated_Serves :
      (service : LocalService) (a : AllocationState) (addresses : List Address) (p : ℕ)
      → IsExtension al m a.mappings a.reserved
      → is_configured (lookup service.name a.mappings) ≡ false
      → select_port al service addresses a.reserved ≡ resolved p
      → Serves service a (record {
        mappings = put service.name p a.mappings;
        reserved = put p service.name a.reserved;
        addresses = some addresses;
      })
  allocated_Serves service a addresses p x new h =
      let first = select_port_sound al service addresses a.reserved p h in
      record {
        extension =
            IsExtension-put al m a.mappings a.reserved service.name p x new
              (free_port al p addresses a.reserved first.passed) (first.low, first.high);
        served = (p, lookup-put_same service.name p a.mappings, port_positive first.low);
        kept = λ s (q, has, more). elim (Bool-cases (bytes_eq s service.name)) [
          | inl here ↦ (
            p,
            subst (λ t. lookup t (put service.name p a.mappings) ≡ some p)
                (sym (eq_of_bytes_eq s service.name here))
                (lookup-put_same service.name p a.mappings),
            port_positive first.low,
          )
          | inr other ↦ (q, lookup-put_other s service.name p a.mappings other ∙ has, more)
        ];
      }
    where
      port_positive : al.minimum_port ≤ p → p ≢ 0
      port_positive low e = absurd (omega (arith, low, e, positive))

  allocate-Serves :
      (service : LocalService) (a a' : AllocationState)
      → IsExtension al m a.mappings a.reserved
      → is_configured (lookup service.name a.mappings) ≡ false
      → allocate al service a ≡ resolved a'
      → Serves service a a'
  unfolding allocate
  allocate-Serves service a a' x new h = go (addresses_of al a.addresses) refl
    where
      resolved_state : {b c : AllocationState} → resolved b ≡ resolved c → b ≡ c
      resolved_state e = ground arith

      chosen :
          (addresses : List Address) (r : PortResult ℕ)
          → addresses_of al a.addresses ≡ resolved addresses
          → select_port al service addresses a.reserved ≡ r
          → Serves service a a'
      chosen addresses (refused e) k j = absurd (ground (arith, h, k, j))
      chosen addresses (resolved p) k j =
          subst (Serves service a) (resolved_state (ground (arith, h, k, j)))
            (allocated_Serves service a addresses p x new j)

      go : (r : PortResult (List Address)) → addresses_of al a.addresses ≡ r → Serves service a a'
      go (refused e) k = absurd (ground (arith, h, k))
      go (resolved addresses) k =
          chosen addresses (select_port al service addresses a.reserved) k refl

  service_Serves :
      (service : LocalService) (a a' : AllocationState)
      → IsExtension al m a.mappings a.reserved
      → allocate_service al service a ≡ resolved a'
      → Serves service a a'
  unfolding allocate_service
  service_Serves service a a' x h =
      elim (Bool-cases (is_configured (lookup service.name a.mappings))) [
        | inr new ↦ allocate-Serves service a a' x new (ground (arith, h, new))
        | inl has ↦ subst (Serves service a) (same_state (ground (arith, h, has))) (record {
          extension = x;
          served = configured_port (lookup service.name a.mappings) has;
          kept = λ s p. p;
        })
      ]
    where
      same_state : resolved a ≡ resolved a' → a ≡ a'
      same_state e = ground arith

  pub record ServesAll (services : List LocalService) (a a' : AllocationState) : Type 0 where
    pub all_extension : IsExtension al m a'.mappings a'.reserved
    pub all_served : All (λ (s : LocalService). HasPort a'.mappings s.name) services
    pub all_kept : (s : Bytes) → HasPort a.mappings s → HasPort a'.mappings s

  pub all_Serves :
      (services : List LocalService) (a a' : AllocationState)
      → IsExtension al m a.mappings a.reserved
      → allocate_all al services a ≡ resolved a'
      → ServesAll services a a'
  unfolding allocate_all
  all_Serves [] a a' x h =
      subst (ServesAll [] a) (same_state h)
        (record { all_extension = x; all_served = tt; all_kept = λ s p. p })
    where
      same_state : resolved a ≡ resolved a' → a ≡ a'
      same_state e = ground arith
  all_Serves (service ∷ rest) a a' x h =
      go (allocate_service al service a) refl λ b. all_Serves rest b a'
    where
      go :
          (r : PortResult AllocationState)
          → allocate_service al service a ≡ r
          → ((b : AllocationState)
              → IsExtension al m b.mappings b.reserved
              → allocate_all al rest b ≡ resolved a'
              → ServesAll rest b a')
          → ServesAll (service ∷ rest) a a'
      go (refused e) k later = absurd (ground (arith, h, k))
      go (resolved b) k later =
          let one = service_Serves service a b x k in
          let more = later b one.extension (ground (arith, h, k)) in
          record {
            all_extension = more.all_extension;
            all_served = (more.all_kept service.name one.served, more.all_served);
            all_kept = λ s p. more.all_kept s (one.kept s p);
          }
