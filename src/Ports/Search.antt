-- ===== src/Ports/Search.antt =====
-- The loop over ports of `selectPort` (internal/deploy/local_ports.go).
use exasol_personal.Common.{
  ℕ, zero, suc, ◌+◌, ◌≤◌, ◌<◌, ◌≡◌, subst, inl, inr, Bool, true, false, none, some, ltb, arith,
  Bool-cases, nat_key, bytes_key,
}
use exasol_personal.Ports.{first_port}

module _ (passes : ℕ → Bool) where
  -- what holds at `start` and above it holds from `start` on
  from_start :
      (start : ℕ)
      → passes start ≡ false
      → (q : ℕ) → start ≤ q
      → (start < q → passes q ≡ false)
      → passes q ≡ false
  from_start start h q low above = elim (Bool-cases (ltb start q)) [
    | inl later ↦ above (ground arith)
    | inr here ↦ subst (λ r. passes r ≡ false) (start_is q here low) h
  ]
    where
      start_is : (q : ℕ) → ltb start q ≡ false → start ≤ q → start ≡ q
      start_is q here low = ground arith

  -- The port that is found passes, is in range, and is the first of the range that passes.
  pub first_port_sound :
      (start count p : ℕ)
      → first_port passes start count ≡ some p
      → (passes p ≡ true)
        × (start ≤ p)
        × (p < start + count)
        × ((q : ℕ) → start ≤ q → q < p → passes q ≡ false)
  unfolding first_port
  first_port_sound start zero p h = absurd (ground arith)
  first_port_sound start (suc count) p h = elim (Bool-cases (passes start)) [
    | inl found ↦ first (ground (arith, h, found)) found
    | inr going ↦
        let (yes_p, low, high, before) =
          first_port_sound (suc start) count p (ground (arith, h, going)) in
        (
          yes_p,
          omega arith,
          omega arith,
          λ q from below. from_start start going q from (λ later. before q later below),
        )
  ]
    where
      first :
          start ≡ p
          → passes start ≡ true
          → (passes p ≡ true)
            × (start ≤ p)
            × (p < start + suc count)
            × ((q : ℕ) → start ≤ q → q < p → passes q ≡ false)
      first e found = (
        subst (λ q. passes q ≡ true) e found,
        omega (arith, e),
        omega (arith, e),
        λ q from below. absurd (omega (arith, e, from, below)),
      )

  -- Where none is found, no port of the range passes.
  pub first_port_complete :
      (start count : ℕ)
      → first_port passes start count ≡ none
      → (q : ℕ) → start ≤ q
      → q < start + count
      → passes q ≡ false
  unfolding first_port
  first_port_complete start zero h q low high = absurd (omega arith)
  first_port_complete start (suc count) h q low high = elim (Bool-cases (passes start)) [
    | inl found ↦ absurd (ground (arith, h, found))
    | inr going ↦ from_start start going q low λ later.
        first_port_complete (suc start) count (ground (arith, h, going)) q later (omega arith)
  ]
