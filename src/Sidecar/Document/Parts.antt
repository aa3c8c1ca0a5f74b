-- ===== src/Sidecar/Document/Parts.antt =====
-- The parts of a sidecar's definition, of internal/sidecar/types.go and probe.go, and the errors of
-- its validation, with the index that the message names; the four timings of a probe share one.
use exasol_personal.Common.{ℕ, Bool, true, false, Option, List, Bytes, ltb, ◌==◌}

-- `negsuc n` is -(n + 1): a number of a document, as far as it is compared.
pub data ℤ : Type 0 where
  pos : ℕ → ℤ
  negsuc : ℕ → ℤ

abbrev pub is_below : ℤ → ℕ → Bool
is_below (pos k) n = ltb k n
is_below (negsuc k) n = true

abbrev pub is_above : ℤ → ℕ → Bool
is_above (pos k) n = ltb n k
is_above (negsuc k) n = false

abbrev pub int_eq : ℤ → ℤ → Bool
int_eq (pos a) (pos b) = a == b
int_eq (negsuc a) (negsuc b) = a == b
int_eq (pos a) (negsuc b) = false
int_eq (negsuc a) (pos b) = false

pub record Port : Type 0 where
  pub name : Bytes
  pub container_port : ℤ
  pub host_port : ℤ
  pub host_ip : Bytes
  pub protocol : Bytes

pub record SecretKeyRef : Type 0 where
  pub name : Bytes
  pub key : Bytes
  pub optional : Bool

-- `value_from` is nil, or a source whose reference may be nil.
pub record EnvVar : Type 0 where
  pub name : Bytes
  pub value : Option Bytes
  pub value_from : Option (Option SecretKeyRef)

pub record Endpoint : Type 0 where
  pub port : Bytes
  pub scheme : Bytes
  pub path : Bytes

pub record PortReference : Type 0 where
  pub number : ℤ
  pub name : Bytes

pub record HttpGetAction : Type 0 where
  pub path : Bytes
  pub port : PortReference
  pub scheme : Bytes

pub record Probe : Type 0 where
  pub exec : Option (List Bytes)
  pub http_get : Option HttpGetAction
  pub tcp_socket : Option PortReference
  pub initial_delay_seconds : ℤ
  pub period_seconds : ℤ
  pub timeout_seconds : ℤ
  pub failure_threshold : ℤ

pub record Container : Type 0 where
  pub name : Bytes
  pub image : Bytes
  pub image_pull_policy : Bytes
  pub command : List Bytes
  pub args : List Bytes
  pub working_dir : Bytes
  pub env : List EnvVar
  pub ports : List Port
  pub restart_policy : Bytes
  pub readiness_probe : Option Probe

-- `enabled` is nil where it is left out; the validation does not look at it.
pub record Definition : Type 0 where
  pub enabled : Option Bool
  pub container : Container
  pub endpoints : List Endpoint

pub data Invalid : Type 0 where
  container_name image pull_policy restart_policy working_dir : Invalid
  command_nul args_nul : ℕ → Invalid
  env_name env_value env_both env_reference : ℕ → Invalid
  port_name container_port host_port protocol host_ip : ℕ → Invalid
  endpoint_port endpoint_twice endpoint_scheme endpoint_path : ℕ → Invalid
  probe_handlers probe_timing exec_command http_path http_scheme probe_port : Invalid
  exec_nul : ℕ → Invalid
