-- ===== src/Ports/Automatic.antt =====
-- The catalog of local services (internal/deploy/local_ports.go) gets a port where no port was
-- configured.
use exasol_personal.Common.{
  ℕ, ◌≤◌, ◌≡◌, refl, sym, ◌∙◌, inl, inr, true, List, [], ◌∷◌, codes, arith, lookup, put, nat_key,
  bytes_key,
}
use exasol_personal.Ports.{
  LocalService, Address, Network, new_local_port_allocator, local_service_catalog, resolved,
  listens_at_all, reserve_all, try_port, select_port, allocate, allocate_service, allocate_all,
  loopback_addresses, check_known, resolve,
}
use exasol_personal.Ports.Choice.{select_port_lem, IsFirst}

abbrev db_service : LocalService
db_service = record { name = codes "db"; guest_port = 8563; default_host_port = 8563 }

module _ (n : Network) (hosts : List Address) where
  resolves :
      (p : ℕ)
      → loopback_addresses (new_local_port_allocator n) ≡ resolved hosts
      → select_port (new_local_port_allocator n) db_service hosts [] ≡ resolved p
      → resolve (new_local_port_allocator n) local_service_catalog []
        ≡ resolved ((codes "db", p) ∷ [])
  unfolding resolve reserve_all allocate_all allocate_service allocate lookup put check_known
  resolves p found h = rw (allocate_all, allocate_service, allocate, found, h) refl

  listening : (p : ℕ) → try_port (new_local_port_allocator n) p hosts [] ≡ listens_at_all n p hosts
  unfolding try_port lookup
  listening p = refl

-- With nothing configured, the database gets the first port from 8563 on, and then from 1024 on, at
-- which every loopback address can be listened, if there is one.
pub resolve_automatic :
    (n : Network) (hosts : List Address) (q : ℕ)
    → loopback_addresses (new_local_port_allocator n) ≡ resolved hosts
    → 1024 ≤ q
    → q ≤ 65535
    → listens_at_all n q hosts ≡ true
    → (p : ℕ) × (resolve (new_local_port_allocator n) local_service_catalog []
        ≡ resolved ((codes "db", p) ∷ []))
      × IsFirst (new_local_port_allocator n) 8563 (λ q. listens_at_all n q hosts) p
unfolding try_port lookup
resolve_automatic n hosts q found low high free =
    elim (select_port_lem (new_local_port_allocator n) db_service hosts [] (omega arith)
      (omega arith)) [
        | inl (p, h, first) ↦ (p, resolves n hosts p found h, first)
        | inr (h, none_free) ↦
            absurd (ground (arith, sym free ∙ (sym (listening n hosts q) ∙ none_free q low high)))
      ]
