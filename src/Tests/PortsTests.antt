-- ===== src/Tests/PortsTests.antt =====
-- Runs of the port allocator (internal/deploy/local_ports.go), and its theorems at concrete inputs.
use exasol_personal.Common.{
  ℕ, ◌≤◌, ◌≡◌, refl, ◌⊎◌, true, false, not, ◌&&◌, some, List, [], ◌∷◌, Bytes, codes, ◌==◌, arith,
  lookup, put,
}
use exasol_personal.Ports.{
  LocalService, Address, Network, Allocator, new_local_port_allocator, Mappings, resolved, refused,
  same_port, no_usable_port, listens_at_all, reserve_all, loopback_addresses, first_port, try_port,
  select_port, allocate_all, allocate_service, allocate, check_known, resolve,
}
use exasol_personal.Ports.Choice.{IsFirst, select_port_lem}
use exasol_personal.Ports.Resolve.{IsResolution, resolve-IsResolution}

abbrev loopback : Address
loopback = record { ip = codes "127.0.0.1"; zone = []; is_loopback = true }

-- port 11 and port 8563 are taken
abbrev busy : Network
busy = record {
  localhost = some (loopback ∷ loopback ∷ []);
  listen = λ port a. not (port == 11) && not (port == 8563);
}

abbrev small : Allocator
small = record { network = busy; minimum_port = 10; maximum_port = 13 }

abbrev service : Bytes → ℕ → LocalService
service name port = record { name = name; guest_port = port; default_host_port = port }

abbrev two_services : List LocalService
two_services = service (codes "db") 11 ∷ service (codes "ui") 13 ∷ []

abbrev db_automatic : Mappings
db_automatic = (codes "ui", 12) ∷ (codes "db", 0) ∷ []

two_resolved :
    resolve small two_services db_automatic ≡ resolved ((codes "ui", 12) ∷ (codes "db", 13) ∷ [])
unfolding resolve reserve_all allocate_all allocate_service allocate select_port first_port try_port
    listens_at_all loopback_addresses check_known lookup put
two_resolved = refl

clash_refused :
    resolve small two_services ((codes "ui", 12) ∷ (codes "db", 12) ∷ [])
    ≡ refused (same_port (codes "ui") (codes "db") 12)
unfolding resolve reserve_all lookup put
clash_refused = refl

one_address : loopback_addresses (new_local_port_allocator busy) ≡ resolved (loopback ∷ [])
unfolding loopback_addresses
one_address = refl

select_port_lem_example :
    let passes = λ (q : ℕ). try_port small q (loopback ∷ []) [] in
    ((p : ℕ) × (select_port small (service (codes "db") 11) (loopback ∷ []) [] ≡ resolved p)
      × IsFirst small 11 passes p)
    ⊎ ((select_port small (service (codes "db") 11) (loopback ∷ []) []
          ≡ refused (no_usable_port (codes "db")))
        × ((q : ℕ) → 10 ≤ q → q ≤ 13 → passes q ≡ false))
select_port_lem_example =
    select_port_lem small (service (codes "db") 11) (loopback ∷ []) [] (omega arith) (omega arith)

resolve-IsResolution_example :
    IsResolution small db_automatic two_services ((codes "ui", 12) ∷ (codes "db", 13) ∷ [])
resolve-IsResolution_example =
    resolve-IsResolution small two_services db_automatic ((codes "ui", 12) ∷ (codes "db", 13) ∷ [])
      (omega arith) two_resolved
