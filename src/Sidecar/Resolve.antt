-- ===== src/Sidecar/Resolve.antt =====
-- `Resolve` and `resolveEnv` of internal/sidecar/resolve.go: the environment and the entry point of a
-- container with the values of its secrets. The texts that its redactor hides are kept as the list
-- of the sensitive values that it is made of.
use exasol_personal.Common.{
  Bool, false, Option, none, some, List, [], ◌∷◌, ◌++◌, map, Bytes, if◌then◌else◌, lookup, put,
  bytes_key,
}
use exasol_personal.Sidecar.Document.{
  SecretKeyRef, EnvVar, Container, Invalid, Parsers, has_byte, validate_container,
}
use exasol_personal.Sidecar.Defaults.{with_defaults}
use exasol_personal.Sidecar.Expand.{Values, expand}

pub record SecretValue : Type 0 where
  pub value : Bytes
  pub sensitive : Bool

abbrev pub Secret : Type 0
Secret = List (Bytes × SecretValue)

abbrev pub Secrets : Type 0
Secrets = List (Bytes × Secret)

abbrev pub key_of : Bytes → Option Secret → Option SecretValue
key_of key none = none
key_of key (some s) = lookup key s

-- `secrets[ref.Name][ref.Key]`
unfoldable pub secret_of : Secrets → SecretKeyRef → Option SecretValue
unfolding lookup
secret_of secrets r = key_of r.key (lookup r.name secrets)

-- Why `Resolve` gives no container; `nil_reference` is the panic on a source without a reference.
pub data Failure : Type 0 where
  invalid : Invalid → Failure
  unavailable : Bytes → Bytes → Failure
  value_nul : Bytes → Failure
  nil_reference : Failure

-- The value of a variable, with its secret if it has one; no value where the variable is dropped.
pub data Found : Type 0 where
  dropped : Found
  given : Bytes → Bool → Found
  failed : Failure → Found

abbrev pub from_secret : SecretKeyRef → Option SecretValue → Found
from_secret r (some s) = given s.value s.sensitive
from_secret r none = if r.optional then dropped else failed (unavailable r.name r.key)

abbrev pub literal_value : Option Bytes → Values → Bytes
literal_value none values = []
literal_value (some v) values = expand v values

abbrev pub from_source : Secrets → Values → Option Bytes → Option (Option SecretKeyRef) → Found
from_source secrets values value none = given (literal_value value values) false
from_source secrets values value (some none) = failed nil_reference
from_source secrets values value (some (some r)) = from_secret r (secret_of secrets r)

-- `resolveEnv`
unfoldable pub resolve_env : EnvVar → Secrets → Values → Found
unfolding expand secret_of
resolve_env e secrets values = from_source secrets values e.value e.value_from

-- What the loop over the environment has gathered.
pub record Environment : Type 0 where
  pub values : Values
  pub env : List EnvVar
  pub sensitive : List Bytes

abbrev pub add_value : Bytes → Bytes → Bool → Environment → Environment
add_value name value is_sensitive e = record {
  values = put name value e.values;
  env = e.env ++ (record { name = name; value = some value; value_from = none } ∷ []);
  sensitive = if is_sensitive then e.sensitive ++ (value ∷ []) else e.sensitive;
}

pub data Result {ℓ} (A : Type ℓ) : Type ℓ where
  refused : Failure → Result A
  resolved : A → Result A

-- the body of the loop, for what `resolveEnv` gives
unfoldable pub add_found : Bytes → Found → Environment → Result Environment
unfolding has_byte put
add_found name dropped e = resolved e
add_found name (failed f) e = refused f
add_found name (given value is_sensitive) e =
    if has_byte 0 value
    then refused (value_nul name)
    else resolved (add_value name value is_sensitive e)

abbrev pub continue {ℓ κ} : {A : Type ℓ} {B : Type κ} → (A → Result B) → Result A → Result B
continue f (refused e) = refused e
continue f (resolved a) = f a

unfoldable pub resolve_all : Secrets → List EnvVar → Environment → Result Environment
unfolding resolve_env add_found
resolve_all secrets [] e = resolved e
resolve_all secrets (v ∷ vs) e =
    continue (resolve_all secrets vs) (add_found v.name (resolve_env v secrets e.values) e)

pub record Resolved : Type 0 where
  pub container : Container
  pub sensitive : List Bytes

abbrev pub no_environment : Environment
no_environment = record { values = []; env = []; sensitive = [] }

module _ (parsers : Parsers) where
  abbrev pub with_environment : Container → Environment → Resolved
  with_environment c e = record {
    container = record (with_defaults parsers c) {
      env = e.env;
      command = map (λ s. expand s e.values) c.command;
      args = map (λ s. expand s e.values) c.args;
    };
    sensitive = e.sensitive;
  }

  abbrev pub resolve_valid : Container → Secrets → Option Invalid → Result Resolved
  resolve_valid c secrets (some e) = refused (invalid e)
  resolve_valid c secrets none =
      continue (λ e. resolved (with_environment c e)) (resolve_all secrets c.env no_environment)

  -- `Resolve`
  unfoldable pub resolve_container : Container → Secrets → Result Resolved
  unfolding validate_container resolve_all with_defaults expand
  resolve_container c secrets = resolve_valid c secrets (validate_container parsers c)
