-- ===== src/Tests/SidecarTests.antt =====
-- Runs of the sidecar documents of internal/sidecar, and the theorems on them at concrete inputs.
use exasol_personal.Common.{
  ◌≡◌, ◌↔◌, refl, true, none, some, List, [], ◌∷◌, Bytes, codes, bytes_eq, lookup, put, bytes_key,
  if◌then◌else◌, contains, text_leb, insert_text, All, IsDistinct, Bool-cases, inl, inr, false,
}
use exasol_personal.Sidecar.Expand.{
  Values, cut_bracket, expand_reference, turn, expand_with, expand,
}
use exasol_personal.Sidecar.Template.{Part, literal, named, print, value_of, expand-print}
use exasol_personal.Sidecar.Document.{
  pos, Port, Container, Definition, Parsers, has_byte, first_nul, label_rest, is_dns_label,
  scheme_rest, is_url_scheme, validate_env, validate_entrypoint, find_port, validate_probe_port,
  validate_http_get, validate_timing, validate_probe, validate_port, validate_ports,
  validate_container, names_port, validate_endpoints, validate_definition,
}
use exasol_personal.Sidecar.Defaults.{
  home, last_part, has_suffix, default_pull_policy, with_defaults, IsNetip,
}
use exasol_personal.Sidecar.Images.{Image, tagged}
use exasol_personal.Sidecar.Resolve.{
  Secrets, secret_of, resolve_env, add_found, resolve_all, resolve_container, resolved, Resolved,
}
use exasol_personal.Sidecar.Provided.{IsResolved, IsProvided}
use exasol_personal.Sidecar.Ready.{IsReady, resolve_container-validate, resolve_container_iff}
use exasol_personal.Sidecar.Accepted.{IsPort, port_names, validate_ports_iff}
use exasol_personal.Sidecar.Definitions.{IsServable, validate_definition-IsServable}
use exasol_personal.Sidecar.Catalog.{
  Entry, Entries, choices, resolve_entry, copy, entries_of, resolve_from, resolve_in, not_available,
  entry_of, first_offer, resolve_in_lem,
}

abbrev values : Values
values = (codes "HOST", codes "db") ∷ []

expanded : expand (codes "a$$b $(HOST):$(PORT) $(x $") values ≡ codes "a$b db:$(PORT) $(x $"
unfolding expand expand_with turn expand_reference cut_bracket lookup
expanded = refl

abbrev parts : List Part
parts = literal (codes "$5 at ") ∷ named (codes "HOST") ∷ named (codes "PORT") ∷ []

expand-print_example : expand (print parts) values ≡ value_of values parts
expand-print_example =
    expand-print values parts
      (tt, ((refl, (refl, (refl, (refl, tt)))), ((refl, (refl, (refl, (refl, tt)))), tt)))

abbrev parsers : Parsers
parsers = record {
  is_image = λ s. true;
  is_loopback = λ s. bytes_eq s home;
  address = λ s. if bytes_eq s home then some s else none;
}

abbrev web : Port
web = record {
  name = codes "http";
  container_port = pos 8080;
  host_port = pos 80;
  host_ip = codes "127.0.0.1";
  protocol = [];
}

ports_accepted : validate_ports parsers [] 0 (web ∷ []) ≡ none
unfolding validate_ports validate_port is_dns_label label_rest contains
ports_accepted = refl

validate_ports_iff_example :
    (validate_ports parsers [] 0 (web ∷ []) ≡ none)
    ↔ (All (IsPort parsers) (web ∷ []) × IsDistinct (port_names (web ∷ [])))
validate_ports_iff_example = validate_ports_iff parsers (web ∷ [])

abbrev ui : Definition
ui = record {
  enabled = none;
  container = record {
    name = codes "ui";
    image = codes "example/ui:1";
    image_pull_policy = [];
    command = [];
    args = codes "--db" ∷ codes "$(HOST)" ∷ [];
    working_dir = [];
    env = record { name = codes "HOST"; value = some (codes "db"); value_from = none } ∷ [];
    ports = web ∷ [];
    restart_policy = codes "Always";
    readiness_probe = some (record {
      exec = none;
      http_get = some (record {
        path = [];
        port = record { number = pos 0; name = codes "http" };
        scheme = [];
      });
      tcp_socket = none;
      initial_delay_seconds = pos 0;
      period_seconds = pos 0;
      timeout_seconds = pos 0;
      failure_threshold = pos 0;
    });
  };
  endpoints = record { port = codes "http"; scheme = codes "http"; path = codes "/" } ∷ [];
}

ui_accepted : validate_definition parsers ui ≡ none
unfolding validate_definition validate_container validate_entrypoint first_nul validate_env has_byte
    validate_ports validate_port is_dns_label label_rest contains validate_probe validate_timing
    validate_http_get validate_probe_port find_port validate_endpoints names_port is_url_scheme
    scheme_rest
ui_accepted = refl

validate_definition-IsServable_example : IsServable parsers ui
validate_definition-IsServable_example = validate_definition-IsServable parsers ui ui_accepted

abbrev entry_for : Bytes → Entry
entry_for arch = record {
  definition = ui;
  description = codes "a user interface";
  architectures = arch ∷ [];
}

abbrev two_catalogs : List Entries
two_catalogs =
    ((codes "ui", entry_for (codes "arm64")) ∷ [])
    ∷ ((codes "ui", entry_for (codes "amd64")) ∷ (codes "b", entry_for (codes "arm64")) ∷ [])
    ∷ []

not_resolved : resolve_in two_catalogs (codes "b") (codes "amd64") ≡ not_available []
unfolding resolve_in resolve_from resolve_entry entries_of copy choices insert_text text_leb
    contains lookup put
not_resolved = refl

resolve_in_lem_example :
    entry_of (resolve_in two_catalogs (codes "ui") (codes "amd64"))
    ≡ first_offer two_catalogs (codes "ui") (codes "amd64")
resolve_in_lem_example = resolve_in_lem two_catalogs (codes "ui") (codes "amd64")

address_loopback :
    (s t : Bytes) → parsers.address s ≡ some t → parsers.is_loopback t ≡ parsers.is_loopback s
address_loopback s t h = elim (Bool-cases (bytes_eq s home)) [
  | inl e ↦ let same : some s ≡ some t = rw e at h in cc same
  | inr e ↦ cc (rw e at h)
]

netip : IsNetip parsers
netip = record { empty = refl; loopback = address_loopback; home_loopback = refl }

pull_policies_of_images :
    (default_pull_policy (codes "example.org:5000/ui") ≡ codes "Always")
    × (default_pull_policy (codes "a/ui:1") ≡ codes "IfNotPresent")
    × (default_pull_policy (codes "ui:latest") ≡ codes "Always")
    × (default_pull_policy (codes "ui@sha256:1") ≡ codes "IfNotPresent")
unfolding default_pull_policy last_part has_suffix has_byte
pull_policies_of_images = (refl, refl, refl, refl)

abbrev registry_image : Image
registry_image = record {
  path = some (codes "example.org:5000/team");
  name = codes "ui";
  version = tagged (codes "2");
}

-- a container with a password and a variable that is dropped
abbrev client : Container
client = record ui.container {
  env =
      record {
        name = codes "PASSWORD";
        value = none;
        value_from =
            some (some (record { name = codes "db"; key = codes "sys"; optional = false }));
      }
      ∷ record {
        name = codes "CERT";
        value = none;
        value_from =
            some (some (record { name = codes "db"; key = codes "cert"; optional = true }));
      }
      ∷ record {
        name = codes "DSN";
        value = some (codes "sys/$(PASSWORD)$(CERT)");
        value_from = none;
      }
      ∷ [];
  args = codes "$(DSN)" ∷ [];
}

abbrev secrets : Secrets
secrets = (codes "db", (codes "sys", record { value = codes "p w"; sensitive = true }) ∷ []) ∷ []

abbrev client_resolved : Resolved
client_resolved = record {
  container = record (with_defaults parsers client) {
    env =
        record { name = codes "PASSWORD"; value = some (codes "p w"); value_from = none }
        ∷ record { name = codes "DSN"; value = some (codes "sys/p w$(CERT)"); value_from = none }
        ∷ [];
    command = [];
    args = codes "sys/p w$(CERT)" ∷ [];
  };
  sensitive = codes "p w" ∷ [];
}

client-resolved : resolve_container parsers client secrets ≡ resolved client_resolved
unfolding resolve_container resolve_all resolve_env add_found secret_of with_defaults expand
    expand_with turn expand_reference cut_bracket lookup put validate_container validate_entrypoint
    first_nul validate_env has_byte validate_ports validate_port is_dns_label label_rest contains
    validate_probe validate_timing validate_http_get validate_probe_port find_port
client-resolved = refl

resolve_container-validate_example : IsReady parsers client_resolved.container
resolve_container-validate_example =
    resolve_container-validate parsers netip client secrets client_resolved client-resolved

resolve_container_iff_example :
    IsResolved (resolve_container parsers client secrets)
    ↔ ((validate_container parsers client ≡ none) × All (IsProvided secrets) client.env)
resolve_container_iff_example = resolve_container_iff parsers client secrets
