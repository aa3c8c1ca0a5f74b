-- ===== src/Cleanup/Slices.antt =====
-- The slice that `BuildPlan` of tools/cleanup/pkg/cleanup/orchestration.go appends to while it keeps
-- pointers to its entries: a slice is a view of an array, and `append` makes a new array where the
-- old one is full.
use exasol_personal.Common.{ℕ, zero, suc, ◌+◌, List, [], ◌∷◌, ◌++◌, ltb, ◌==◌, if◌then◌else◌}
use exasol_personal.Cleanup.{ScopeProvider}

pub record Memory : Type 0 where
  pub array : ℕ → List ScopeProvider
  pub next : ℕ

pub record Slice : Type 0 where
  pub address : ℕ
  pub length : ℕ
  pub cap : ℕ

pub record Pointer : Type 0 where
  pub address : ℕ
  pub index : ℕ

abbrev pub empty : Memory
empty = record { array = λ a. []; next = 1 }

-- the slice `nil`
abbrev pub nil_slice : Slice
nil_slice = record { address = 0; length = 0; cap = 0 }

unfoldable pub take : ℕ → List ScopeProvider → List ScopeProvider
take zero xs = []
take (suc n) [] = []
take (suc n) (x ∷ xs) = x ∷ take n xs

-- the slots of an array after one of them is written, be it the first behind those in use
unfoldable pub write_at : ℕ → ScopeProvider → List ScopeProvider → List ScopeProvider
write_at zero x [] = x ∷ []
write_at zero x (y ∷ ys) = x ∷ ys
write_at (suc n) x [] = []
write_at (suc n) x (y ∷ ys) = y ∷ write_at n x ys

-- the entries that a slice shows
unfoldable pub read : Memory → Slice → List ScopeProvider
unfolding take
read m s = take s.length (m.array s.address)

abbrev pub set_array : ℕ → List ScopeProvider → Memory → Memory
set_array a xs m = record m { array = λ b. if b == a then xs else m.array b }

-- `*p = x`
unfoldable pub store : Pointer → ScopeProvider → Memory → Memory
unfolding write_at
store p x m = set_array p.address (write_at p.index x (m.array p.address)) m

-- `append(s, x)`; `grow` is the capacity that the runtime chooses where the slice is full
unfoldable pub append : (ℕ → ℕ) → ScopeProvider → Memory → Slice → Memory × Slice
unfolding read write_at
append grow x m s =
    if ltb s.length s.cap
    then (
      set_array s.address (write_at s.length x (m.array s.address)) m,
      record s { length = s.length + 1 },
    )
    else (
      record (set_array m.next (read m s ++ (x ∷ [])) m) { next = m.next + 1 },
      record { address = m.next; length = s.length + 1; cap = grow s.length },
    )
