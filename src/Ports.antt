-- ===== src/Ports.antt =====
-- The choice of host ports for the services of a local deployment: the allocator of
-- internal/deploy/local_ports.go. The texts that it reads and writes are left out: `resolve` begins
-- with the mappings that were read and ends with those that will be written.
pub mod Search
pub mod Choice
pub mod Distinct
pub mod Serves
pub mod Resolve
pub mod Automatic
use exasol_personal.Common.{
  ℕ, zero, suc, ◌+◌, ◌-◌, Bool, true, false, not, ◌&&◌, ◌||◌, Option, none, some, List, [], ◌∷◌,
  ◌++◌, Bytes, codes, bytes_eq, ltb, leb, ◌==◌, if◌then◌else◌, lookup, put, nat_key, bytes_key,
}

pub record LocalService : Type 0 where
  pub name : Bytes
  pub guest_port : ℕ
  pub default_host_port : ℕ

-- `localServiceCatalog`
abbrev pub local_service_catalog : List LocalService
local_service_catalog =
    record { name = codes "db"; guest_port = 8563; default_host_port = 8563 } ∷ []

-- an address that "localhost" resolves to
pub record Address : Type 0 where
  pub ip : Bytes
  pub zone : Bytes
  pub is_loopback : Bool

pub data PortError : Type 0 where
  same_port : Bytes → Bytes → ℕ → PortError
  lookup_failed : PortError
  no_loopback_addresses : PortError
  invalid_default_port : Bytes → ℕ → PortError
  no_usable_port : Bytes → PortError
  unknown_service : Bytes → PortError

pub data PortResult {ℓ} (A : Type ℓ) : Type ℓ where
  resolved : A → PortResult A
  refused : PortError → PortResult A

-- What the network answers: the addresses of "localhost", and whether one can listen at an address
-- and a port that this process does not hold already.
pub record Network : Type 0 where
  pub localhost : Option (List Address)
  pub listen : ℕ → Address → Bool

-- `localPortAllocator`, where Go functions are the network's answers
pub record Allocator : Type 0 where
  pub network : Network
  pub minimum_port : ℕ
  pub maximum_port : ℕ

abbrev pub new_local_port_allocator : Network → Allocator
new_local_port_allocator n = record { network = n; minimum_port = 1024; maximum_port = 65535 }

abbrev pub Mappings : Type 0
Mappings = List (Bytes × ℕ)

abbrev pub Reserved : Type 0
Reserved = List (ℕ × Bytes)

abbrev same_address : Address → Address → Bool
same_address a b = bytes_eq a.ip b.ip && bytes_eq a.zone b.zone

is_seen : Address → List Address → Bool
is_seen a [] = false
is_seen a (b ∷ bs) = same_address a b || is_seen a bs

-- The loop of `loopbackAddresses`: the addresses that are kept are the ones seen.
kept_loopbacks : List Address → List Address → List Address
unfolding is_seen
kept_loopbacks [] seen = seen
kept_loopbacks (a ∷ rest) seen =
    let skipped = kept_loopbacks rest seen in
    let added = kept_loopbacks rest (seen ++ (a ∷ [])) in
    if not a.is_loopback then skipped else if is_seen a seen then skipped else added

some_addresses : List Address → PortResult (List Address)
some_addresses [] = refused no_loopback_addresses
some_addresses (a ∷ hosts) = resolved (a ∷ hosts)

unfoldable pub loopback_addresses : Allocator → PortResult (List Address)
unfolding kept_loopbacks some_addresses
loopback_addresses al = elim al.network.localhost [
  | none ↦ refused lookup_failed
  | some hosts ↦ some_addresses (kept_loopbacks hosts [])
]

unfoldable pub listens_at_all : Network → ℕ → List Address → Bool
listens_at_all n port [] = true
listens_at_all n port (a ∷ hosts) = n.listen port a && listens_at_all n port hosts

abbrev pub is_reserved : ℕ → Reserved → Bool
is_reserved port reserved = elim (lookup port reserved) [ none ↦ false | some _ ↦ true ]

-- `tryPort`: listeners that were opened before a failure are closed again.
unfoldable pub try_port : Allocator → ℕ → List Address → Reserved → Bool
unfolding listens_at_all
try_port al port addresses reserved =
    if is_reserved port reserved then false else listens_at_all al.network port addresses

-- `for port := from; ...; port++` with `count` rounds: the first port that passes
unfoldable pub first_port : (ℕ → Bool) → ℕ → ℕ → Option ℕ
first_port passes from zero = none
first_port passes from (suc count) =
    let rest = first_port passes (suc from) count in if passes from then some from else rest

abbrev pub first_of : Option ℕ → Option ℕ → Option ℕ
first_of none o = o
first_of (some p) o = some p

abbrev pub port_of : LocalService → Option ℕ → PortResult ℕ
port_of service none = refused (no_usable_port service.name)
port_of service (some p) = resolved p

unfoldable pub select_port : Allocator → LocalService → List Address → Reserved → PortResult ℕ
unfolding first_port
select_port al service addresses reserved =
    let start = service.default_host_port in
    let passes = λ (port : ℕ). try_port al port addresses reserved in
    if ltb start al.minimum_port || ltb al.maximum_port start
    then refused (invalid_default_port service.name start)
    else port_of service (
        first_of (first_port passes start (suc al.maximum_port - start))
          (first_port passes al.minimum_port (start - al.minimum_port)))

-- whether a port is taken by another service
abbrev pub clashes : Option Bytes → Bytes → Option Bytes
clashes none service = none
clashes (some other) service = if bytes_eq other service then none else some other

abbrev reserved_or : Option Bytes → Bytes → ℕ → PortResult Reserved → PortResult Reserved
reserved_or none service port rest = rest
reserved_or (some other) service port rest = refused (same_port other service port)

-- The first loop of `resolve`, over the mappings in the order in which Go visits them.
unfoldable pub reserve_all : Mappings → Reserved → PortResult Reserved
reserve_all [] reserved = resolved reserved
reserve_all ((service, port) ∷ rest) reserved =
    let skipped = reserve_all rest reserved in
    let added = reserve_all rest (put port service reserved) in
    if port == 0
    then skipped
    else reserved_or (clashes (lookup port reserved) service) service port added

-- what the second loop keeps: `addresses` is nil before the first look-up
pub record AllocationState : Type 0 where
  pub mappings : Mappings
  pub reserved : Reserved
  pub addresses : Option (List Address)

abbrev pub addresses_of : Allocator → Option (List Address) → PortResult (List Address)
addresses_of al (some hosts) = resolved hosts
addresses_of al none = loopback_addresses al

abbrev pub is_configured : Option ℕ → Bool
is_configured none = false
is_configured (some port) = not (port == 0)

abbrev selected :
    AllocationState → LocalService → List Address → PortResult ℕ → PortResult AllocationState
selected a service addresses (refused e) = refused e
selected a service addresses (resolved port) = resolved (record {
  mappings = put service.name port a.mappings;
  reserved = put port service.name a.reserved;
  addresses = some addresses;
})

-- a service that has no port yet
unfoldable pub allocate : Allocator → LocalService → AllocationState → PortResult AllocationState
unfolding select_port
allocate al service a = elim (addresses_of al a.addresses) [
  | refused e ↦ refused e
  | resolved addresses ↦ selected a service addresses (select_port al service addresses a.reserved)
]

-- the body of the second loop
unfoldable pub allocate_service :
    Allocator → LocalService → AllocationState → PortResult AllocationState
unfolding allocate
allocate_service al service a =
    if is_configured (lookup service.name a.mappings) then resolved a else allocate al service a

unfoldable pub allocate_all :
    Allocator → List LocalService → AllocationState → PortResult AllocationState
allocate_all al [] a = resolved a
allocate_all al (service ∷ rest) a = elim (allocate_service al service a) [
  | refused e ↦ refused e
  | resolved a' ↦ allocate_all al rest a'
]

is_known : Bytes → List LocalService → Bool
is_known name [] = false
is_known name (s ∷ rest) = bytes_eq name s.name || is_known name rest

-- The last loop: a service that is not known needs a port.
unfoldable pub check_known : List LocalService → Mappings → PortResult (Unit {0})
unfolding is_known
check_known services [] = resolved tt
check_known services ((service, port) ∷ rest) =
    let others = check_known services rest in
    if not (is_known service services) && (port == 0)
    then refused (unknown_service service)
    else others

abbrev checked : AllocationState → PortResult (Unit {0}) → PortResult Mappings
checked a (refused e) = refused e
checked a (resolved u) = resolved a.mappings

abbrev allocated : List LocalService → PortResult AllocationState → PortResult Mappings
allocated services (refused e) = refused e
allocated services (resolved a) = checked a (check_known services a.mappings)

-- `resolve`, from the mappings that were read to those that are written
unfoldable pub resolve : Allocator → List LocalService → Mappings → PortResult Mappings
unfolding reserve_all allocate_all check_known
resolve al services mappings = elim (reserve_all mappings []) [
  | refused e ↦ refused e
  | resolved reserved ↦ allocated services (
      allocate_all al services
        (record { mappings = mappings; reserved = reserved; addresses = none }))
]
