-- ===== src/Sidecar/Accepted.antt =====
-- What holds of a definition that is accepted: internal/sidecar/validate.go and probe.go.
use exasol_personal.Common.{
  ℕ, suc, ◌≤◌, ◌≡◌, ◌↔◌, ◌⊎◌, refl, ap, inl, inr, Bool, true, false, not, ◌&&◌, ◌||◌, Option, none,
  some, List, [], ◌∷◌, Bytes, codes, bytes_eq, bytes_eq_refl, eq_of_bytes_eq, length, ltb, All,
  Bool-cases, contains, IsDistinct, bytes_eq-false_comm, arith,
}
use exasol_personal.Sidecar.Document.{
  ℤ, pos, negsuc, is_below, is_above, Port, Invalid, Parsers, ◌then_check◌, refuse_if, is_dns_label,
  with_name, validate_port, validate_ports, port_name, container_port, host_port, protocol, host_ip,
}

-- The number lies between the two.
abbrev pub Within : ℕ → ℕ → ℤ → Type 0
Within lo hi (pos n) = (lo ≤ n) × (n ≤ hi)
Within lo hi (negsuc n) = ⊥

abbrev IsPortName : Bytes → Type 0
IsPortName [] = Unit {0}
IsPortName (c ∷ s) = (length (c ∷ s) ≤ 15) × (is_dns_label (c ∷ s) ≡ true)

pub record IsPort (parsers : Parsers) (p : Port) : Type 0 where
  pub named : IsPortName p.name
  pub container : Within 1 65535 p.container_port
  pub host : Within 0 65535 p.host_port
  pub tcp : (p.protocol ≡ []) ⊎ (p.protocol ≡ codes "TCP")
  pub loopback : (p.host_ip ≡ []) ⊎ (parsers.is_loopback p.host_ip ≡ true)

-- the names of the ports that have one
abbrev pub port_names : List Port → List Bytes
port_names [] = []
port_names (p ∷ ps) = with_name p.name (port_names ps)

pub refuse_if-none : (b : Bool) (e : Invalid) → refuse_if b e ≡ none → b ≡ false
refuse_if-none true e h = cc
refuse_if-none false e h = refl

pub then_check-none : (x y : Option Invalid) → (x then_check y) ≡ none → (x ≡ none) × (y ≡ none)
then_check-none none y h = (refl, h)
then_check-none (some e) y h = cc

Within-of_checks : (lo hi : ℕ) (z : ℤ) → (is_below z lo || is_above z hi) ≡ false → Within lo hi z
Within-of_checks lo hi (pos n) h = ground arith
Within-of_checks lo hi (negsuc n) h = cc

checks_of_Within : (lo hi : ℕ) (z : ℤ) → Within lo hi z → (is_below z lo || is_above z hi) ≡ false
checks_of_Within lo hi (pos n) h = ground arith
checks_of_Within lo hi (negsuc n) h = absurd h

either_of_check :
    (x y : Bytes) → (not (bytes_eq x []) && not (bytes_eq x y)) ≡ false → (x ≡ []) ⊎ (x ≡ y)
either_of_check x y h = elim (Bool-cases (bytes_eq x [])) [
  | inl e ↦ inl (eq_of_bytes_eq x [] e)
  | inr e ↦ inr (eq_of_bytes_eq x y (ground (arith, e, h)))
]

module _ (parsers : Parsers) where
  validate_port-IsPort :
      (i : ℕ) (p : Port) → IsPortName p.name → validate_port parsers i p ≡ none → IsPort parsers p
  unfolding validate_port
  validate_port-IsPort i p n h =
      let (first, h4) = then_check-none _ _ h in
      let (second, h3) = then_check-none _ _ first in
      let (h1, h2) = then_check-none _ _ second in
      record {
        named = n;
        container =
            Within-of_checks 1 65535 p.container_port (refuse_if-none _ (container_port i) h1);
        host = Within-of_checks 0 65535 p.host_port (refuse_if-none _ (host_port i) h2);
        tcp = either_of_check p.protocol (codes "TCP") (refuse_if-none _ (protocol i) h3);
        loopback = ip (refuse_if-none _ (host_ip i) h4);
      }
    where
      ip :
          (not (bytes_eq p.host_ip []) && not (parsers.is_loopback p.host_ip)) ≡ false
          → (p.host_ip ≡ []) ⊎ (parsers.is_loopback p.host_ip ≡ true)
      ip h = elim (Bool-cases (bytes_eq p.host_ip [])) [
        | inl e ↦ inl (eq_of_bytes_eq p.host_ip [] e)
        | inr e ↦ inr (ground (arith, e, h))
      ]

  IsPort-validate_port : (i : ℕ) (p : Port) → IsPort parsers p → validate_port parsers i p ≡ none
  unfolding validate_port
  IsPort-validate_port i p h =
      rw
        (
          checks_of_Within 1 65535 p.container_port h.container,
          checks_of_Within 0 65535 p.host_port h.host,
          tcp h.tcp,
          ip h.loopback,
        )
        refl
    where
      tcp :
          (p.protocol ≡ []) ⊎ (p.protocol ≡ codes "TCP")
          → (not (bytes_eq p.protocol []) && not (bytes_eq p.protocol (codes "TCP"))) ≡ false
      tcp (inl e) = rw e refl
      tcp (inr e) = rw e refl

      ip :
          (p.host_ip ≡ []) ⊎ (parsers.is_loopback p.host_ip ≡ true)
          → (not (bytes_eq p.host_ip []) && not (parsers.is_loopback p.host_ip)) ≡ false
      ip (inl e) = rw e refl
      ip (inr e) = ground (arith, e)

-- None of the texts is among the names, and none comes twice.
abbrev pub Fresh : List Bytes → List Bytes → Type 0
Fresh names [] = Unit {0}
Fresh names (x ∷ xs) = (contains names x ≡ false) × Fresh (x ∷ names) xs

Fresh-contains :
    (names : List Bytes) (y : Bytes) (xs : List Bytes)
    → Fresh names xs
    → contains names y ≡ true
    → contains xs y ≡ false
unfolding contains
Fresh-contains names y [] f h = refl
Fresh-contains names y (x ∷ xs) f h = elim (Bool-cases (bytes_eq x y)) [
  | inl e ↦
      let same = eq_of_bytes_eq x y e in let here = ap (contains names) same in cc (f.0, here, h)
  | inr e ↦ rw e (Fresh-contains (x ∷ names) y xs f.1 (ground (arith, h)))
]

pub Fresh-IsDistinct : (names xs : List Bytes) → Fresh names xs → IsDistinct xs
unfolding contains
Fresh-IsDistinct names [] f = tt
Fresh-IsDistinct names (x ∷ xs) f = (
  Fresh-contains (x ∷ names) x xs f.1 (ground (arith, bytes_eq_refl x)),
  Fresh-IsDistinct (x ∷ names) xs f.1,
)

-- no text of the second list is in the first
abbrev Apart : List Bytes → List Bytes → Type 0
Apart names [] = Unit {0}
Apart names (x ∷ xs) = (contains names x ≡ false) × Apart names xs

Apart-cons :
    (names : List Bytes) (y : Bytes) (xs : List Bytes)
    → Apart names xs
    → contains xs y ≡ false
    → Apart (y ∷ names) xs
unfolding contains
Apart-cons names y [] a h = tt
Apart-cons names y (x ∷ xs) a h =
    let other : bytes_eq x y ≡ false = ground (arith, h) in
    (rw (bytes_eq-false_comm x y other) a.0, Apart-cons names y xs a.1 (ground (arith, h)))

IsDistinct-Fresh : (names xs : List Bytes) → Apart names xs → IsDistinct xs → Fresh names xs
IsDistinct-Fresh names [] a d = tt
IsDistinct-Fresh names (x ∷ xs) a d =
    (a.0, IsDistinct-Fresh (x ∷ names) xs (Apart-cons names x xs a.1 d.0) d.1)

Apart-nil : (xs : List Bytes) → Apart [] xs
unfolding contains
Apart-nil [] = tt
Apart-nil (x ∷ xs) = (refl, Apart-nil xs)

module _ (parsers : Parsers) where
  -- the test of one name
  name_of_check :
      (names : List Bytes) (n : Bytes)
      → (not (bytes_eq n []) && (ltb 15 (length n) || not (is_dns_label n) || contains names n))
        ≡ false
      → IsPortName n × Fresh names (with_name n [])
  name_of_check names [] h = (tt, tt)
  name_of_check names (c ∷ s) h = ((ground (arith, h), ground (arith, h)), (ground (arith, h), tt))

  check_of_name :
      (names : List Bytes) (n : Bytes)
      → IsPortName n
      → Fresh names (with_name n [])
      → (not (bytes_eq n []) && (ltb 15 (length n) || not (is_dns_label n) || contains names n))
        ≡ false
  check_of_name names [] h f = refl
  check_of_name names (c ∷ s) h f = ground (arith, h.0, h.1, f.0)

  Fresh-with_name :
      (names : List Bytes) (n : Bytes) (rest : List Bytes)
      → Fresh names (with_name n [])
      → Fresh (with_name n names) rest
      → Fresh names (with_name n rest)
  Fresh-with_name names [] rest f g = g
  Fresh-with_name names (c ∷ s) rest f g = (f.0, g)

  with_name-Fresh :
      (names : List Bytes) (n : Bytes) (rest : List Bytes)
      → Fresh names (with_name n rest)
      → Fresh names (with_name n []) × Fresh (with_name n names) rest
  with_name-Fresh names [] rest f = (tt, f)
  with_name-Fresh names (c ∷ s) rest f = ((f.0, tt), f.1)

  validate_ports_sound :
      (names : List Bytes) (i : ℕ) (ps : List Port)
      → validate_ports parsers names i ps ≡ none
      → All (IsPort parsers) ps × Fresh names (port_names ps)
  unfolding validate_ports
  validate_ports_sound names i [] h = (tt, tt)
  validate_ports_sound names i (p ∷ ps) h =
      let (first, later) = then_check-none _ _ h in
      let (name_ok, port_ok) = then_check-none _ _ first in
      let (named, new) = name_of_check names p.name (refuse_if-none _ (port_name i) name_ok) in
      let (ports, fresh) = validate_ports_sound (with_name p.name names) (suc i) ps later in
      (
        (validate_port-IsPort parsers i p named port_ok, ports),
        Fresh-with_name names p.name (port_names ps) new fresh,
      )

  validate_ports_complete :
      (names : List Bytes) (i : ℕ) (ps : List Port)
      → All (IsPort parsers) ps
      → Fresh names (port_names ps)
      → validate_ports parsers names i ps ≡ none
  unfolding validate_ports
  validate_ports_complete names i [] all f = refl
  validate_ports_complete names i (p ∷ ps) all f =
      let (new, fresh) = with_name-Fresh names p.name (port_names ps) f in
      rw (check_of_name names p.name all.0.named new, IsPort-validate_port parsers i p all.0)
        (validate_ports_complete (with_name p.name names) (suc i) ps all.1 fresh)

-- The ports of a container are accepted if and only if each is in its bounds, 1 to 65535 for the
-- port of the container and 0 to 65535 for that of the host, over TCP and on a loopback address
-- where these are given, each name is a label of at most 15 bytes, and no name comes twice.
pub validate_ports_iff :
    (parsers : Parsers) (ps : List Port)
    → (validate_ports parsers [] 0 ps ≡ none)
      ↔ (All (IsPort parsers) ps × IsDistinct (port_names ps))
validate_ports_iff parsers ps = (
  λ h.
      let (all, fresh) = validate_ports_sound parsers [] 0 ps h in
      (all, Fresh-IsDistinct [] (port_names ps) fresh),
  λ h.
      validate_ports_complete parsers [] 0 ps h.0
        (IsDistinct-Fresh [] (port_names ps) (Apart-nil (port_names ps)) h.1),
)
