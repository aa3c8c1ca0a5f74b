-- ===== src/Polling/Backoff.antt =====
-- The pause between two attempts: its bounds, its growth, and that no product wraps round.
use exasol_personal.Common.{ℕ, zero, suc, ◌*◌, ◌^◌, ◌≤◌, ◌≡◌, ◌∙◌, arith, if◌then◌else◌, leb}
use native.Mathlib.Nat.{pow-succ', mul_assoc}
use exasol_personal.Polling.{next_backoff, duration}

-- the longest pause for which a doubled one still is an `int`
abbrev pub max_limit : ℕ
max_limit = 0x4000000000000000

-- the pause before the attempt after `n` attempts
unfoldable pub backoff_after : ℕ → ℕ → ℕ → ℕ
backoff_after max_backoff zero backoff = backoff
backoff_after max_backoff (suc n) backoff =
    next_backoff (backoff_after max_backoff n backoff) max_backoff

-- the smaller of the two
abbrev pub least : ℕ → ℕ → ℕ
least a b = if leb a b then a else b

next_backoff-double : (b m : ℕ) → b ≤ m → m ≤ max_limit → next_backoff b m ≡ least (2 * b) m
unfolding next_backoff
next_backoff-double b m h k = ground arith

pow-double : (n b : ℕ) → 2 ^ suc n * b ≡ 2 * (2 ^ n * b)
pow-double n b = rw (pow-succ' 2 n) (mul_assoc 2 (2 ^ n) b)

-- With a first pause of at most the longest one, and the longest at most 2 ^ 62: the pause before
-- attempt n + 1 is the first one doubled n times, cut to the longest.
pub backoff_after_lem :
    (b m : ℕ) → b ≤ m → m ≤ max_limit → (n : ℕ) → backoff_after m n b ≡ least (2 ^ n * b) m
unfolding backoff_after
backoff_after_lem b m h k zero = ground arith
backoff_after_lem b m h k (suc n) = rw (backoff_after_lem b m h k n) (
    next_backoff-double (least (2 ^ n * b) m) m (ground arith) k
    ∙ rw (pow-double n b) (ground arith))

-- A pause that is not zero never gets shorter and never passes the longest one.
pub next_backoff_bounds :
    (b m : ℕ) → b ≤ m → m ≤ max_limit → (b ≤ next_backoff b m) × (next_backoff b m ≤ m)
unfolding next_backoff
next_backoff_bounds b m h k = ground arith

-- the longest pause, in seconds, that `time.Duration` can hold
abbrev pub max_pause : ℕ
max_pause = 9223372036

pub duration-max_pause : (b : ℕ) → b ≤ max_pause → duration b ≡ 1000000000 * b
unfolding duration
duration-max_pause b h = ground arith
