-- ===== src/Sidecar/Defaults.antt =====
-- The defaults of a container: `Defaults` of internal/sidecar/types.go and `defaults` of probe.go.
use exasol_personal.Common.{
  ℕ, zero, suc, ◌≡◌, Bool, true, not, ◌||◌, Option, none, some, [], ◌∷◌, map, Bytes, codes,
  bytes_eq, ◌==◌, if◌then◌else◌,
}
use exasol_personal.Sidecar.Document.{
  ℤ, pos, negsuc, is_above, Port, HttpGetAction, Probe, Container, Parsers, has_byte,
}
use exasol_personal.Sidecar.Expand.{value_or}

abbrev pub home : Bytes
home = codes "127.0.0.1"

-- the default where the text is empty
abbrev pub or_text : Bytes → Bytes → Bytes
or_text d [] = d
or_text d (c ∷ s) = c ∷ s

abbrev pub or_number : ℕ → ℤ → ℤ
or_number d (pos zero) = pos d
or_number d (pos (suc n)) = pos (suc n)
or_number d (negsuc n) = negsuc n

abbrev pub default_http_get : Option HttpGetAction → Option HttpGetAction
default_http_get none = none
default_http_get (some a) =
    some (record a { path = or_text (codes "/") a.path; scheme = or_text (codes "HTTP") a.scheme })

-- `Probe.defaults`
unfoldable pub default_probe : Option Probe → Option Probe
default_probe none = none
default_probe (some p) = some (record p {
  period_seconds = or_number 10 p.period_seconds;
  timeout_seconds = or_number 1 p.timeout_seconds;
  failure_threshold = or_number 3 p.failure_threshold;
  http_get = default_http_get p.http_get;
})

-- what follows the last "/"
unfoldable pub last_part : Bytes → Bytes
unfolding has_byte
last_part [] = []
last_part (c ∷ s) =
    let rest = last_part s in if has_byte b'/' s then rest else (if c == b'/' then s else c ∷ s)

unfoldable pub has_suffix : Bytes → Bytes → Bool
has_suffix end [] = bytes_eq [] end
has_suffix end (c ∷ s) = bytes_eq (c ∷ s) end || has_suffix end s

unfoldable pub default_pull_policy : Bytes → Bytes
unfolding has_byte last_part has_suffix
default_pull_policy image =
    if has_byte b'@' image
    then codes "IfNotPresent"
    else (if not (has_byte b':' (last_part image)) || has_suffix (codes ":latest") (last_part image)
        then codes "Always"
        else codes "IfNotPresent")

module _ (parsers : Parsers) where
  abbrev pub normalized : Bytes → Bytes
  normalized ip = value_or ip (parsers.address ip)

  -- the body of the loop over the ports
  unfoldable pub default_port : Port → Port
  default_port p = record p {
    protocol = or_text (codes "TCP") p.protocol;
    host_ip = normalized (if is_above p.host_port 0 then or_text home p.host_ip else p.host_ip);
  }

  -- `Container.Defaults`
  unfoldable pub with_defaults : Container → Container
  unfolding default_probe default_pull_policy default_port
  with_defaults c = record c {
    restart_policy = or_text (codes "Always") c.restart_policy;
    readiness_probe = default_probe c.readiness_probe;
    image_pull_policy = or_text (default_pull_policy c.image) c.image_pull_policy;
    ports = map default_port c.ports;
  }

-- What netip documents: the empty text is no address, an address is printed as a text of the same
-- device, and 127.0.0.1 is one, of the loopback device.
pub record IsNetip (parsers : Parsers) : Type 0 where
  pub empty : parsers.address [] ≡ none
  pub loopback :
      (s t : Bytes) → parsers.address s ≡ some t → parsers.is_loopback t ≡ parsers.is_loopback s
  pub home_loopback : parsers.is_loopback home ≡ true
