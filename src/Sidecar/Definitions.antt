-- ===== src/Sidecar/Definitions.antt =====
-- What an accepted definition of a sidecar promises to those who run it: its ports, its environment,
-- its endpoints and its probe. internal/sidecar/validate.go and probe.go.
use exasol_personal.Common.{
  ℕ, suc, ◌≡◌, refl, Bool, true, false, not, ◌||◌, Option, none, some, List, [], ◌∷◌, map, Bytes,
  bytes_eq, All, contains, IsDistinct, arith,
}
use exasol_personal.Sidecar.Document.{
  Port, EnvVar, Endpoint, Probe, PortReference, HttpGetAction, Definition, Parsers, has_byte,
  validate_env, find_port, is_published, validate_probe_port, validate_timing, validate_handler,
  validate_probe, validate_container, names_port, validate_endpoints, validate_definition, env_name,
  endpoint_port, endpoint_twice, probe_port,
}
use exasol_personal.Sidecar.Accepted.{
  IsPort, port_names, Fresh, Fresh-IsDistinct, refuse_if-none, then_check-none, validate_ports_iff,
}

-- A name that the environment of a process can have.
abbrev pub IsEnvName : Bytes → Type 0
IsEnvName n = (bytes_eq n [] ≡ false) × (has_byte b'=' n ≡ false) × (has_byte 0 n ≡ false)

-- The port that a network probe refers to is published on the host.
abbrev Reaches : List Port → Option PortReference → Type 0
Reaches ports none = Unit {0}
Reaches ports (some r) = is_published (find_port r ports) ≡ true

abbrev http_port : Option HttpGetAction → Option PortReference
http_port none = none
http_port (some a) = some a.port

abbrev ReachesBy : List Port → Option Probe → Type 0
ReachesBy ports none = Unit {0}
ReachesBy ports (some p) = Reaches ports p.tcp_socket × Reaches ports (http_port p.http_get)

pub record IsServable (parsers : Parsers) (d : Definition) : Type 0 where
  pub ports : All (IsPort parsers) d.container.ports
  pub ports_distinct : IsDistinct (port_names d.container.ports)
  pub env_names : All (λ e. IsEnvName e.name) d.container.env
  pub env_distinct : IsDistinct (map (λ e. e.name) d.container.env)
  pub endpoints_named : All (λ e. names_port e.port d.container.ports ≡ true) d.endpoints
  pub endpoints_distinct : IsDistinct (map (λ e. e.port) d.endpoints)
  pub probe_reaches : ReachesBy d.container.ports d.container.readiness_probe

not-false : (b : Bool) → not b ≡ false → b ≡ true
not-false true h = refl
not-false false h = cc

pub validate_env_sound :
    (names : List Bytes) (i : ℕ) (es : List EnvVar)
    → validate_env names i es ≡ none
    → All (λ e. IsEnvName e.name) es × Fresh names (map (λ e. e.name) es)
unfolding validate_env
validate_env_sound names i [] h = (tt, tt)
validate_env_sound names i (e ∷ es) h =
    let (first, later) = then_check-none _ _ h in
    let (second, source) = then_check-none _ _ first in
    let (name_ok, value_ok) = then_check-none _ _ second in
    let name =
      refuse_if-none
        (bytes_eq e.name [] || has_byte b'=' e.name || has_byte 0 e.name || contains names e.name)
        (env_name i) name_ok in
    let (rest, fresh) = validate_env_sound (e.name ∷ names) (suc i) es later in
    (
      ((ground (arith, name), ground (arith, name), ground (arith, name)), rest),
      (ground (arith, name), fresh),
    )

validate_endpoints_sound :
    (ports : List Port) (declared : List Bytes) (i : ℕ) (es : List Endpoint)
    → validate_endpoints ports declared i es ≡ none
    → All (λ e. names_port e.port ports ≡ true) es × Fresh declared (map (λ e. e.port) es)
unfolding validate_endpoints
validate_endpoints_sound ports declared i [] h = (tt, tt)
validate_endpoints_sound ports declared i (e ∷ es) h =
    let (first, later) = then_check-none _ _ h in
    let (second, path) = then_check-none _ _ first in
    let (third, scheme) = then_check-none _ _ second in
    let (named, twice) = then_check-none _ _ third in
    let (rest, fresh) = validate_endpoints_sound ports (e.port ∷ declared) (suc i) es later in
    (
      (not-false (names_port e.port ports) (refuse_if-none _ (endpoint_port i) named), rest),
      (refuse_if-none _ (endpoint_twice i) twice, fresh),
    )

probe_port-Reaches :
    (r : PortReference) (ports : List Port)
    → validate_probe_port r ports ≡ none
    → Reaches ports (some r)
unfolding validate_probe_port
probe_port-Reaches r ports h = not-false _ (refuse_if-none _ probe_port h)

validate_probe_sound :
    (ports : List Port) (o : Option Probe) → validate_probe ports o ≡ none → ReachesBy ports o
unfolding validate_probe
validate_probe_sound ports none h = tt
validate_probe_sound ports (some p) h = go p.exec p.http_get p.tcp_socket h
  where
    go :
        (exec : Option (List Bytes)) (http : Option HttpGetAction) (tcp : Option PortReference)
        → validate_handler ports (validate_timing p) exec http tcp ≡ none
        → Reaches ports tcp × Reaches ports (http_port http)
    go (some c) none none h = (tt, tt)
    go none (some a) none h =
        let (timing, http_ok) = then_check-none _ _ h in
        let (first, port_ok) = then_check-none _ _ http_ok in
        (tt, probe_port-Reaches a.port ports port_ok)
    go none none (some r) h =
        let (timing, port_ok) = then_check-none _ _ h in (probe_port-Reaches r ports port_ok, tt)
    go none none none h = cc
    go (some c) (some a) none h = cc
    go (some c) none (some r) h = cc
    go none (some a) (some r) h = cc
    go (some c) (some a) (some r) h = cc

-- In an accepted definition each port is in its bounds and no port name comes twice; the names of
-- the environment are not empty, have no "=" and no NUL, and none comes twice; each endpoint names a
-- port of the container, none the same one; and the port of a network probe is published.
pub validate_definition-IsServable :
    (parsers : Parsers) (d : Definition)
    → validate_definition parsers d ≡ none
    → IsServable parsers d
unfolding validate_definition validate_container
validate_definition-IsServable parsers d h =
    let (container_ok, endpoints_ok) = then_check-none _ _ h in
    let (before, probe_ok) = then_check-none _ _ container_ok in
    let (before', ports_ok) = then_check-none _ _ before in
    let (before'', env_ok) = then_check-none _ _ before' in
    let (all, distinct) = (validate_ports_iff parsers d.container.ports).0 ports_ok in
    let (env, env_fresh) = validate_env_sound [] 0 d.container.env env_ok in
    let (named, fresh) = validate_endpoints_sound d.container.ports [] 0 d.endpoints endpoints_ok in
    record {
      ports = all;
      ports_distinct = distinct;
      env_names = env;
      env_distinct = Fresh-IsDistinct [] _ env_fresh;
      endpoints_named = named;
      endpoints_distinct = Fresh-IsDistinct [] _ fresh;
      probe_reaches = validate_probe_sound d.container.ports d.container.readiness_probe probe_ok;
    }
