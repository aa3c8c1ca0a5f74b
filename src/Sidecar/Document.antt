-- ===== src/Sidecar/Document.antt =====
-- The validation of a sidecar's definition: internal/sidecar/validate.go and probe.go. The parser of
-- image references and that of addresses are parameters.
pub mod Parts
pub use Parts.*
use exasol_personal.Common.{
  ℕ, zero, suc, ◌+◌, Bool, true, false, not, ◌&&◌, ◌||◌, Option, none, some, List, [], ◌∷◌, ◌++◌,
  Bytes, codes, bytes_eq, has_prefix, length, ltb, leb, ◌==◌, if◌then◌else◌, contains,
}

infixl 5 ◌then_check◌
abbrev pub ◌then_check◌ : Option Invalid → Option Invalid → Option Invalid
none then_check next = next
(some e) then_check next = some e

abbrev pub refuse_if : Bool → Invalid → Option Invalid
refuse_if true e = some e
refuse_if false e = none

unfoldable pub has_byte : ℕ → Bytes → Bool
has_byte b [] = false
has_byte b (c ∷ s) = c == b || has_byte b s

abbrev pub is_lower : ℕ → Bool
is_lower c = leb b'a' c && leb c b'z'

abbrev pub is_digit : ℕ → Bool
is_digit c = leb b'0' c && leb c b'9'

-- behind the first byte of a label: up to the end, which is no "-"
unfoldable pub label_rest : Bytes → Bool
label_rest [] = true
label_rest (c ∷ []) = is_lower c || is_digit c
label_rest (c ∷ d ∷ s) = (is_lower c || is_digit c || c == b'-') && label_rest (d ∷ s)

-- `dnsLabel`: [a-z0-9]([-a-z0-9]*[a-z0-9])?
unfoldable pub is_dns_label : Bytes → Bool
unfolding label_rest
is_dns_label [] = false
is_dns_label (c ∷ s) = (is_lower c || is_digit c) && label_rest s

unfoldable pub scheme_rest : Bytes → Bool
scheme_rest [] = true
scheme_rest (c ∷ s) =
    (is_lower c || is_digit c || c == b'+' || c == b'.' || c == b'-') && scheme_rest s

-- `urlScheme`: [a-z][a-z0-9+.-]*
unfoldable pub is_url_scheme : Bytes → Bool
unfolding scheme_rest
is_url_scheme [] = false
is_url_scheme (c ∷ s) = is_lower c && scheme_rest s

-- `reference.ParseNormalizedNamed` succeeds; `netip.ParseAddr` gives a loopback address; the text
-- that `String` gives of the address, where there is one
pub record Parsers : Type 0 where
  pub is_image : Bytes → Bool
  pub is_loopback : Bytes → Bool
  pub address : Bytes → Option Bytes

-- `validateEnv`, with the names seen so far and the index
abbrev pub check_reference : ℕ → Option SecretKeyRef → Option Invalid
check_reference i none = some (env_reference i)
check_reference i (some r) = refuse_if (bytes_eq r.name [] || bytes_eq r.key []) (env_reference i)

abbrev pub check_source : ℕ → Option Bytes → Option (Option SecretKeyRef) → Option Invalid
check_source i value none = none
check_source i none (some r) = check_reference i r
check_source i (some v) (some r) = some (env_both i)

abbrev pub value_has_nul : Option Bytes → Bool
value_has_nul none = false
value_has_nul (some v) = has_byte 0 v

unfoldable pub validate_env : List Bytes → ℕ → List EnvVar → Option Invalid
unfolding has_byte contains
validate_env names i [] = none
validate_env names i (e ∷ es) =
    let rest = validate_env (e.name ∷ names) (suc i) es in
    refuse_if
      (bytes_eq e.name [] || has_byte b'=' e.name || has_byte 0 e.name || contains names e.name)
      (env_name i)
    then_check refuse_if (value_has_nul e.value) (env_value i)
    then_check check_source i e.value e.value_from
    then_check rest

unfoldable pub first_nul : ℕ → List Bytes → Option ℕ
unfolding has_byte
first_nul i [] = none
first_nul i (v ∷ vs) = let rest = first_nul (suc i) vs in if has_byte 0 v then some i else rest

abbrev pub refuse_nul : (ℕ → Invalid) → Option ℕ → Option Invalid
refuse_nul e none = none
refuse_nul e (some i) = some (e i)

-- `validateEntrypoint`
unfoldable pub validate_entrypoint : Container → Option Invalid
unfolding first_nul
validate_entrypoint c =
    refuse_nul command_nul (first_nul 0 c.command)
    then_check refuse_nul args_nul (first_nul 0 c.args)

-- `PortReference.Port`
unfoldable pub find_port : PortReference → List Port → Option Port
find_port r [] = none
find_port r (p ∷ ps) =
    let rest = find_port r ps in
    if (if bytes_eq r.name [] then int_eq p.container_port r.number else bytes_eq p.name r.name)
    then some p
    else rest

abbrev pub is_published : Option Port → Bool
is_published none = false
is_published (some p) = not (int_eq p.host_port (pos 0))

-- `validateProbePort`
unfoldable pub validate_probe_port : PortReference → List Port → Option Invalid
unfolding find_port
validate_probe_port r ports = refuse_if (not (is_published (find_port r ports))) probe_port

unfoldable pub validate_exec : List Bytes → Option Invalid
unfolding first_nul
validate_exec [] = some exec_command
validate_exec (v ∷ vs) = refuse_nul exec_nul (first_nul 0 (v ∷ vs))

unfoldable pub validate_http_get : HttpGetAction → List Port → Option Invalid
unfolding validate_probe_port contains
validate_http_get a ports =
    refuse_if (not (bytes_eq a.path []) && not (has_prefix (codes "/") a.path)) http_path
    then_check refuse_if (not (contains ([] ∷ codes "HTTP" ∷ codes "HTTPS" ∷ []) a.scheme))
        http_scheme
    then_check validate_probe_port a.port ports

unfoldable pub validate_timing : Probe → Option Invalid
validate_timing p =
    refuse_if
      (is_below p.initial_delay_seconds 0
        || is_below p.period_seconds 0
        || is_below p.timeout_seconds 0
        || is_below p.failure_threshold 0)
      probe_timing

-- the `switch` of `Probe.validate`, for the probe's handlers; not exactly one is refused
abbrev pub validate_handler :
    List Port
    → Option Invalid
    → Option (List Bytes)
    → Option HttpGetAction
    → Option PortReference
    → Option Invalid
validate_handler ports timing (some command) none none = timing then_check validate_exec command
validate_handler ports timing none (some action) none =
    timing then_check validate_http_get action ports
validate_handler ports timing none none (some r) = timing then_check validate_probe_port r ports
validate_handler ports timing _ _ _ = some probe_handlers

unfoldable pub validate_probe : List Port → Option Probe → Option Invalid
unfolding validate_timing validate_exec validate_http_get validate_probe_port
validate_probe ports none = none
validate_probe ports (some p) =
    validate_handler ports (validate_timing p) p.exec p.http_get p.tcp_socket

-- the names behind a port
abbrev pub with_name : Bytes → List Bytes → List Bytes
with_name [] names = names
with_name (c ∷ s) names = (c ∷ s) ∷ names

module _ (parsers : Parsers) where
  -- `Port.Validate`
  unfoldable pub validate_port : ℕ → Port → Option Invalid
  validate_port i p =
      refuse_if (is_below p.container_port 1 || is_above p.container_port 65535) (container_port i)
      then_check refuse_if (is_below p.host_port 0 || is_above p.host_port 65535) (host_port i)
      then_check refuse_if (not (bytes_eq p.protocol []) && not (bytes_eq p.protocol (codes "TCP")))
          (protocol i)
      then_check refuse_if (not (bytes_eq p.host_ip []) && not (parsers.is_loopback p.host_ip))
          (host_ip i)

  -- `validatePorts`, with the names seen so far and the index
  unfoldable pub validate_ports : List Bytes → ℕ → List Port → Option Invalid
  unfolding validate_port is_dns_label contains
  validate_ports names i [] = none
  validate_ports names i (p ∷ ps) =
      let rest = validate_ports (with_name p.name names) (suc i) ps in
      refuse_if
        (not (bytes_eq p.name [])
          && (ltb 15 (length p.name) || not (is_dns_label p.name) || contains names p.name))
        (port_name i)
      then_check validate_port i p
      then_check rest

  -- `Container.Validate`
  unfoldable pub validate_container : Container → Option Invalid
  unfolding validate_entrypoint validate_env validate_ports validate_probe
  validate_container c =
      refuse_if
        (ltb 63 (length c.name) || not (is_dns_label c.name) || bytes_eq c.name (codes "database"))
        container_name
      then_check refuse_if (not (parsers.is_image c.image)) image
      then_check refuse_if
          (not (
            contains ([] ∷ codes "Always" ∷ codes "IfNotPresent" ∷ codes "Never" ∷ [])
              c.image_pull_policy))
          pull_policy
      then_check refuse_if
          (not (
            contains ([] ∷ codes "Always" ∷ codes "OnFailure" ∷ codes "Never" ∷ [])
              c.restart_policy))
          restart_policy
      then_check refuse_if (has_byte 0 c.working_dir) working_dir
      then_check validate_entrypoint c
      then_check validate_env [] 0 c.env
      then_check validate_ports [] 0 c.ports
      then_check validate_probe c.ports c.readiness_probe

unfoldable pub names_port : Bytes → List Port → Bool
names_port n [] = false
names_port n (p ∷ ps) = (not (bytes_eq p.name []) && bytes_eq p.name n) || names_port n ps

-- `validateEndpoints`, with the ports declared so far and the index
unfoldable pub validate_endpoints : List Port → List Bytes → ℕ → List Endpoint → Option Invalid
unfolding names_port contains is_url_scheme
validate_endpoints ports declared i [] = none
validate_endpoints ports declared i (e ∷ es) =
    let rest = validate_endpoints ports (e.port ∷ declared) (suc i) es in
    refuse_if (not (names_port e.port ports)) (endpoint_port i)
    then_check refuse_if (contains declared e.port) (endpoint_twice i)
    then_check refuse_if (not (is_url_scheme e.scheme)) (endpoint_scheme i)
    then_check refuse_if (not (bytes_eq e.path []) && not (has_prefix (codes "/") e.path))
        (endpoint_path i)
    then_check rest

-- `Definition.validate`
unfoldable pub validate_definition : Parsers → Definition → Option Invalid
unfolding validate_container validate_endpoints
validate_definition parsers d =
    validate_container parsers d.container
    then_check validate_endpoints d.container.ports [] 0 d.endpoints
