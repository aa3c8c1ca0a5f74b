-- ===== src/Sidecar/DefaultsValid.antt =====
-- The defaults of internal/sidecar/types.go and probe.go keep ports and probes valid.
use exasol_personal.Common.{
  ℕ, zero, suc, ◌≡◌, ◌⊎◌, refl, sym, ap, subst, ◌∙◌, inl, inr, true, false, not, ◌&&◌, Option, none,
  some, List, [], ◌∷◌, map, Bytes, codes, bytes_eq, has_prefix, All, contains, Bool-cases, arith,
  IsDistinct,
}
use exasol_personal.Sidecar.Document.{
  ℤ, pos, negsuc, is_below, is_above, Port, PortReference, HttpGetAction, Probe, Parsers, Invalid,
  find_port, is_published, validate_probe_port, validate_http_get, validate_timing,
  validate_handler, validate_probe, validate_ports, http_path, http_scheme,
}
use exasol_personal.Sidecar.Accepted.{
  IsPort, port_names, refuse_if-none, then_check-none, validate_ports_iff,
}
use exasol_personal.Sidecar.Defaults.{
  home, or_text, or_number, default_http_get, default_probe, normalized, default_port, IsNetip,
}
use exasol_personal.Sidecar.Expand.{value_or}

module _ (parsers : Parsers) (netip : IsNetip parsers) where
  normalized-loopback :
      (s : Bytes)
      → (s ≡ []) ⊎ (parsers.is_loopback s ≡ true)
      → (normalized parsers s ≡ []) ⊎ (parsers.is_loopback (normalized parsers s) ≡ true)
  normalized-loopback s (inl e) = inl (ap (normalized parsers) e ∙ ap (value_or []) netip.empty)
  normalized-loopback s (inr e) = inr (go (parsers.address s) refl)
    where
      go : (o : Option Bytes) → parsers.address s ≡ o → parsers.is_loopback (value_or s o) ≡ true
      go none k = e
      go (some t) k = netip.loopback s t k ∙ e

  or_home-loopback :
      (s : Bytes)
      → (s ≡ []) ⊎ (parsers.is_loopback s ≡ true)
      → (or_text home s ≡ []) ⊎ (parsers.is_loopback (or_text home s) ≡ true)
  or_home-loopback [] h = inr netip.home_loopback
  or_home-loopback (c ∷ s) h = h

  or_tcp :
      (s : Bytes)
      → (s ≡ []) ⊎ (s ≡ codes "TCP")
      → (or_text (codes "TCP") s ≡ []) ⊎ (or_text (codes "TCP") s ≡ codes "TCP")
  or_tcp [] h = inr refl
  or_tcp (c ∷ s) h = h

  default_port-IsPort : (p : Port) → IsPort parsers p → IsPort parsers (default_port parsers p)
  unfolding default_port
  default_port-IsPort p h = record {
    named = h.named;
    container = h.container;
    host = h.host;
    tcp = or_tcp p.protocol h.tcp;
    loopback = elim (Bool-cases (is_above p.host_port 0)) [
      | inl e ↦
          rw e
            (normalized-loopback (or_text home p.host_ip) (or_home-loopback p.host_ip h.loopback))
      | inr e ↦ rw e (normalized-loopback p.host_ip h.loopback)
    ];
  }

  default_ports-IsPort :
      (ps : List Port)
      → All (IsPort parsers) ps
      → All (IsPort parsers) (map (default_port parsers) ps)
  default_ports-IsPort [] h = tt
  default_ports-IsPort (p ∷ ps) h = (default_port-IsPort p h.0, default_ports-IsPort ps h.1)

  port_names-default_ports :
      (ps : List Port) → port_names (map (default_port parsers) ps) ≡ port_names ps
  unfolding default_port
  port_names-default_ports [] = refl
  port_names-default_ports (p ∷ ps) = rw (port_names-default_ports ps) refl

  pub default_ports-valid :
      (ps : List Port)
      → validate_ports parsers [] 0 ps ≡ none
      → validate_ports parsers [] 0 (map (default_port parsers) ps) ≡ none
  default_ports-valid ps h =
      let (all, distinct) = (validate_ports_iff parsers ps).0 h in
      (validate_ports_iff parsers (map (default_port parsers) ps)).1
        (default_ports-IsPort ps all, subst IsDistinct (sym (port_names-default_ports ps)) distinct)

  -- a default leaves the port that a reference finds published, or not
  published-default_ports :
      (r : PortReference) (ps : List Port)
      → is_published (find_port r (map (default_port parsers) ps)) ≡ is_published (find_port r ps)
  unfolding find_port default_port
  published-default_ports r [] = refl
  published-default_ports r (p ∷ ps) = ground (arith, published-default_ports r ps)

  probe_port-default_ports :
      (r : PortReference) (ps : List Port)
      → validate_probe_port r (map (default_port parsers) ps) ≡ validate_probe_port r ps
  unfolding validate_probe_port
  probe_port-default_ports r ps = rw (published-default_ports r ps) refl

  default_scheme-valid :
      (s : Bytes)
      → not (contains ([] ∷ codes "HTTP" ∷ codes "HTTPS" ∷ []) s) ≡ false
      → not (contains ([] ∷ codes "HTTP" ∷ codes "HTTPS" ∷ []) (or_text (codes "HTTP") s)) ≡ false
  unfolding contains
  default_scheme-valid [] k = refl
  default_scheme-valid (c ∷ s) k = k

  http_get-valid :
      (a : HttpGetAction) (ps : List Port)
      → validate_http_get a ps ≡ none
      → validate_http_get
          (record a { path = or_text (codes "/") a.path; scheme = or_text (codes "HTTP") a.scheme })
          (map (default_port parsers) ps)
        ≡ none
  unfolding validate_http_get
  http_get-valid a ps h =
      let (first, port_ok) = then_check-none _ _ h in
      let (path_ok, scheme_ok) = then_check-none _ _ first in
      rw
        (
          path a.path (refuse_if-none _ http_path path_ok),
          default_scheme-valid a.scheme (refuse_if-none _ http_scheme scheme_ok),
          probe_port-default_ports a.port ps,
        )
        port_ok
    where
      path :
          (s : Bytes)
          → (not (bytes_eq s []) && not (has_prefix (codes "/") s)) ≡ false
          → (not (bytes_eq (or_text (codes "/") s) [])
              && not (has_prefix (codes "/") (or_text (codes "/") s)))
            ≡ false
      path [] k = refl
      path (c ∷ s) k = k

  below-or_number : (d : ℕ) (z : ℤ) → is_below (or_number d z) 0 ≡ is_below z 0
  below-or_number d (pos zero) = ground arith
  below-or_number d (pos (suc n)) = refl
  below-or_number d (negsuc n) = refl

  pub default_probe-valid :
      (ps : List Port) (o : Option Probe)
      → validate_probe ps o ≡ none
      → validate_probe (map (default_port parsers) ps) (default_probe o) ≡ none
  unfolding validate_probe default_probe validate_timing
  default_probe-valid ps none h = refl
  default_probe-valid ps (some p) h =
      rw
        (
          below-or_number 10 p.period_seconds,
          below-or_number 1 p.timeout_seconds,
          below-or_number 3 p.failure_threshold,
        )
        (go _ p.exec p.http_get p.tcp_socket h)
    where
      go :
          (timing : Option Invalid) (exec : Option (List Bytes)) (http : Option HttpGetAction)
          (tcp : Option PortReference)
          → validate_handler ps timing exec http tcp ≡ none
          → validate_handler (map (default_port parsers) ps) timing exec (default_http_get http) tcp
            ≡ none
      go timing (some c) none none k = k
      go timing none (some a) none k =
          let (timing_ok, action_ok) = then_check-none timing (validate_http_get a ps) k in
          rw timing_ok (http_get-valid a ps action_ok)
      go timing none none (some r) k = rw (probe_port-default_ports r ps) k
      go timing none none none k = cc
      go timing (some c) (some a) none k = cc
      go timing (some c) none (some r) k = cc
      go timing none (some a) (some r) k = cc
      go timing (some c) (some a) (some r) k = cc
