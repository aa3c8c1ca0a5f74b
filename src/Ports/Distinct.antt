-- ===== src/Ports/Distinct.antt =====
-- What `resolve` (internal/deploy/local_ports.go) makes of the mappings: no two services share a
-- port.
use exasol_personal.Common.{
  ℕ, ◌≤◌, ◌≡◌, ◌≢◌, refl, ap, sym, subst, ◌∙◌, ◌⊎◌, inl, inr, true, false, Option, none, some, [],
  ◌∷◌, Bytes, bytes_eq, eq_of_bytes_eq, ◌==◌, arith, Bool-cases, Option-cases, lookup, put, nat_key,
  bytes_key, lookup-put_same, lookup-put_other, same_sound_nat,
}
use exasol_personal.Ports.{
  Allocator, Mappings, Reserved, resolved, clashes, reserve_all, is_configured,
}

-- every port is reserved for the service that has it
pub record IsCovered (m : Mappings) (r : Reserved) : Type 0 where
  pub covered : (s : Bytes) (p : ℕ) → lookup s m ≡ some p → p ≢ 0 → lookup p r ≡ some s

-- reservations are only added
pub Grows : Reserved → Reserved → Type 0
Grows r r' = (p : ℕ) (s : Bytes) → lookup p r ≡ some s → lookup p r' ≡ some s

same_service : (o : Option Bytes) (s t : Bytes) → clashes o s ≡ none → o ≡ some t → s ≡ t
same_service none s t free h = absurd (ground arith)
same_service (some u) s t free h = elim (Bool-cases (bytes_eq u s)) [
  | inl yes_same ↦ sym (eq_of_bytes_eq u s yes_same) ∙ some-injective h
  | inr other ↦ absurd (ground (arith, free, other))
]
  where
    some-injective : {a b : Bytes} → some a ≡ some b → a ≡ b
    some-injective e = ground arith

put_free :
    (r : Reserved) (port : ℕ) (s : Bytes)
    → clashes (lookup port r) s ≡ none
    → Grows r (put port s r)
unfolding Grows
put_free r port s free p t h = elim (Bool-cases (p == port)) [
  | inl here ↦
      let e = same_sound_nat p port here in
      subst (λ q. lookup q (put port s r) ≡ some t) (sym e)
        (lookup-put_same port s r
          ∙ ap some (same_service (lookup port r) s t free (subst (λ q. lookup q r ≡ some t) e h)))
  | inr other ↦ lookup-put_other p port s r other ∙ h
]

IsCovered-cons :
    (s : Bytes) (port : ℕ) (m : Mappings) (r : Reserved)
    → (port ≢ 0 → lookup port r ≡ some s)
    → IsCovered m r
    → IsCovered ((s, port) ∷ m) r
unfolding lookup
IsCovered-cons s port m r head tail = record {
  covered = λ t p h positive. elim (Bool-cases (bytes_eq t s)) [
    | inl yes_same ↦
        let e = eq_of_bytes_eq t s yes_same in
        let port_is : port ≡ p = ground (arith, h, yes_same) in
        subst (λ q. lookup q r ≡ some t) port_is
          (head (λ z. positive (sym port_is ∙ z)) ∙ ap some (sym e))
    | inr other ↦ tail.covered t p (ground (arith, h, other)) positive
  ];
}

pub reserve_all_lem :
    (m : Mappings) (r r' : Reserved) → reserve_all m r ≡ resolved r' → Grows r r' × IsCovered m r'
unfolding reserve_all Grows lookup
reserve_all_lem [] r r' h = (
  λ p s e. subst (λ x. lookup p x ≡ some s) (resolved-injective h) e,
  record { covered = λ s p e positive. absurd (ground arith) },
)
  where
    resolved-injective : {a b : Reserved} → resolved a ≡ resolved b → a ≡ b
    resolved-injective e = ground arith
reserve_all_lem ((s, port) ∷ m) r r' h = elim (Bool-cases (port == 0)) [
  | inl is_zero ↦
      let (grows, covers) = reserve_all_lem m r r' (ground (arith, h, is_zero)) in
      (
        grows,
        IsCovered-cons s port m r' (λ positive. absurd (positive (same_sound_nat port 0 is_zero)))
            covers,
      )
  | inr positive ↦ elim (Option-cases (clashes (lookup port r) s)) [
    | inr (other, clash) ↦ absurd (ground (arith, h, positive, clash))
    | inl free ↦
        let (grows, covers) =
          reserve_all_lem m (put port s r) r' (ground (arith, h, positive, free)) in
        (
          λ p t e. grows p t (put_free r port s free p t e),
          IsCovered-cons s port m r' (λ _. grows port s (lookup-put_same port s r)) covers,
        )
  ]
]

pub some_port-injective : {p q : ℕ} → some p ≡ some q → p ≡ q
some_port-injective h = ground arith

-- What is known of the mappings `m'` while ports are allocated to `m`: the ports are reserved, the
-- ports of `m` are kept, and new ones are in range.
pub record IsExtension (al : Allocator) (m : Mappings) (m' : Mappings) (r : Reserved) : Type 0 where
  pub covers : IsCovered m' r
  pub keeps : (s : Bytes) (p : ℕ) → lookup s m ≡ some p → p ≢ 0 → lookup s m' ≡ some p
  pub origin :
      (s : Bytes) (p : ℕ)
      → lookup s m' ≡ some p
      → p ≢ 0
      → (lookup s m ≡ some p) ⊎ ((al.minimum_port ≤ p) × (p ≤ al.maximum_port))

is_configured-some : (o : Option ℕ) (p : ℕ) → o ≡ some p → p ≢ 0 → is_configured o ≡ true
is_configured-some none p h positive = absurd (ground arith)
is_configured-some (some q) p h positive = elim (Bool-cases (q == 0)) [
  | inl z ↦ absurd (positive (sym (some_port-injective h) ∙ same_sound_nat q 0 z))
  | inr n ↦ rw n refl
]

put_here :
    (t s : Bytes) (p q : ℕ) (m : Mappings)
    → bytes_eq t s ≡ true
    → lookup t (put s p m) ≡ some q
    → (t ≡ s) × (p ≡ q)
put_here t s p q m here h =
    let e = eq_of_bytes_eq t s here in
    (
      e,
      some_port-injective
          (sym (lookup-put_same s p m) ∙ subst (λ u. lookup u (put s p m) ≡ some q) e h),
    )

-- A service without a port gets one that is in range and that no service has.
pub IsExtension-put :
    (al : Allocator) (m m' : Mappings) (r : Reserved) (s : Bytes) (p : ℕ)
    → IsExtension al m m' r
    → is_configured (lookup s m') ≡ false
    → lookup p r ≡ none
    → (al.minimum_port ≤ p) × (p ≤ al.maximum_port)
    → IsExtension al m (put s p m') (put p s r)
unfolding Grows
IsExtension-put al m m' r s p x new free range = record {
  covers = record {
    covered = λ t q h positive. elim (Bool-cases (bytes_eq t s)) [
      | inl here ↦
          let (e, k) = put_here t s p q m' here h in
          subst (λ v. lookup v (put p s r) ≡ some t) k (lookup-put_same p s r ∙ ap some (sym e))
      | inr other ↦
          let old = sym (lookup-put_other t s p m' other) ∙ h in
          reservations_grow q t (x.covers.covered t q old positive)
    ];
  };
  keeps = λ t q h positive. elim (Bool-cases (bytes_eq t s)) [
    | inl here ↦
        let e = eq_of_bytes_eq t s here in
        let had = is_configured-some (lookup t m') q (x.keeps t q h positive) positive in
        absurd
          (true_is_not_false (sym (subst (λ u. is_configured (lookup u m') ≡ true) e had) ∙ new))
    | inr other ↦ lookup-put_other t s p m' other ∙ x.keeps t q h positive
  ];
  origin = λ t q h positive. elim (Bool-cases (bytes_eq t s)) [
    | inl here ↦ inr (in_range q (put_here t s p q m' here h).1)
    | inr other ↦ x.origin t q (sym (lookup-put_other t s p m' other) ∙ h) positive
  ];
}
  where
    reservations_grow : Grows r (put p s r)
    reservations_grow = put_free r p s (rw free refl)

    in_range : (q : ℕ) → p ≡ q → (al.minimum_port ≤ q) × (q ≤ al.maximum_port)
    in_range q e = subst (λ v. (al.minimum_port ≤ v) × (v ≤ al.maximum_port)) e range

    true_is_not_false : true ≢ false
    true_is_not_false e = ground arith
