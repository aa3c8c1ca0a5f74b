-- ===== src/Signals/Counting.antt =====
-- Where the handler of a guarded cleanup is, and how often it has run: internal/util/signal_handler.go.
use exasol_personal.Common.{
  ℕ, suc, ◌+◌, ◌≤◌, ◌<◌, ◌≡◌, ◌≢◌, refl, none, some, List, [], ◌∷◌, ◌++◌, ◌==◌, if◌then◌else◌,
  lookup, put, nat_key, arith,
}
use exasol_personal.Signals.{SignalHandler, remove}
use exasol_personal.Signals.System.{
  Phase, fresh, guarded, cleaning, finished, Ran, handler, final, System,
}

-- how often the handler `c` is among the registered or taken ones
abbrev pub times : ℕ → List (ℕ × ℕ) → ℕ
times c [] = 0
times c ((id, h) ∷ m) = (if h == c then 1 else 0) + times c m

-- how often it has run
abbrev pub times_run : ℕ → List Ran → ℕ
times_run c [] = 0
times_run c (handler h ∷ l) = (if h == c then 1 else 0) + times_run c l
times_run c (final f ∷ l) = times_run c l

-- what the caller itself still has to run, and what is to be run in all
abbrev pub owed : Phase → ℕ
owed fresh = 0
owed (guarded none) = 1
owed (guarded (some _)) = 0
owed cleaning = 1
owed finished = 0

abbrev pub wanted : Phase → ℕ
wanted fresh = 0
wanted _ = 1

-- The ids are below `n`.
abbrev pub Below : ℕ → List (ℕ × ℕ) → Type 0
Below n [] = Unit {0}
Below n ((j, h) ∷ m) = (j < n) × Below n m

-- The id `id` stands for the handler `c`, and no other does.
abbrev pub Agrees : ℕ → ℕ → List (ℕ × ℕ) → Type 0
Agrees c id [] = Unit {0}
Agrees c id ((j, h) ∷ m) = ((j == id) ≡ (h == c)) × Agrees c id m

abbrev pub Tied : ℕ → Phase → SignalHandler → Type 0
Tied c (guarded (some id)) s = Agrees c id s.once_handlers × (id < s.next_handler_id)
Tied c fresh s = times c s.once_handlers ≡ 0
Tied c (guarded none) s = times c s.once_handlers ≡ 0
Tied c cleaning s = times c s.once_handlers ≡ 0
Tied c finished s = times c s.once_handlers ≡ 0

pub record IsGuarded (c : ℕ) (s : System) : Type 0 where
  pub below : Below s.signals.next_handler_id s.signals.once_handlers
  pub tied : Tied c s.phase s.signals
  pub once :
      times c s.signals.once_handlers + times c s.pending + times_run c s.log + owed s.phase
      ≡ wanted s.phase

pub Below-suc : (n : ℕ) (m : List (ℕ × ℕ)) → Below n m → Below (suc n) m
Below-suc n [] b = tt
Below-suc n ((j, h) ∷ m) b = (omega arith, Below-suc n m b.1)

pub Below-put : (n h : ℕ) (m : List (ℕ × ℕ)) → Below n m → Below (suc n) (put n h m)
unfolding put
Below-put n h [] b = (omega arith, tt)
Below-put n h ((j, k) ∷ m) b = ground (arith, b.0, Below-suc n m b.1, Below-put n h m b.1)

pub Below-remove : (n id : ℕ) (m : List (ℕ × ℕ)) → Below n m → Below n (remove id m)
unfolding remove
Below-remove n id [] b = tt
Below-remove n id ((j, k) ∷ m) b = ground (arith, b.0, Below-remove n id m b.1)

module _ (c : ℕ) where
  pub times-put :
      (n h : ℕ) (m : List (ℕ × ℕ))
      → Below n m
      → times c (put n h m) ≡ (if h == c then 1 else 0) + times c m
  unfolding put
  times-put n h [] b = refl
  times-put n h ((j, k) ∷ m) b = ground (arith, b.0, times-put n h m b.1)

  pub Agrees-put :
      (id n h : ℕ) (m : List (ℕ × ℕ))
      → Below n m
      → id < n
      → h ≢ c
      → Agrees c id m
      → Agrees c id (put n h m)
  unfolding put
  Agrees-put id n h [] b lt ne a = ground arith
  Agrees-put id n h ((j, k) ∷ m) b lt ne a =
      ground (arith, b.0, a.0, Agrees-put id n h m b.1 lt ne a.1)

  pub Agrees-put_new :
      (n : ℕ) (m : List (ℕ × ℕ)) → Below n m → times c m ≡ 0 → Agrees c n (put n c m)
  unfolding put
  Agrees-put_new n [] b e = ground arith
  Agrees-put_new n ((j, k) ∷ m) b e = ground (arith, b.0, Agrees-put_new n m b.1)

  pub Agrees-remove : (id k : ℕ) (m : List (ℕ × ℕ)) → Agrees c id m → Agrees c id (remove k m)
  unfolding remove
  Agrees-remove id k [] a = tt
  Agrees-remove id k ((j, h) ∷ m) a = ground (arith, a.0, Agrees-remove id k m a.1)

  pub times-remove_other :
      (id k : ℕ) (m : List (ℕ × ℕ)) → Agrees c id m → k ≢ id → times c (remove k m) ≡ times c m
  unfolding remove
  times-remove_other id k [] a ne = refl
  times-remove_other id k ((j, h) ∷ m) a ne = ground (arith, a.0, times-remove_other id k m a.1 ne)

  pub times-remove_self : (id : ℕ) (m : List (ℕ × ℕ)) → Agrees c id m → times c (remove id m) ≡ 0
  unfolding remove
  times-remove_self id [] a = refl
  times-remove_self id ((j, h) ∷ m) a = ground (arith, a.0, times-remove_self id m a.1)

  pub times-remove_none :
      (k : ℕ) (m : List (ℕ × ℕ)) → times c m ≡ 0 → times c (remove k m) ≡ times c m
  unfolding remove
  times-remove_none k [] e = refl
  times-remove_none k ((j, h) ∷ m) e = ground (arith, times-remove_none k m)

  pub times-lookup-none :
      (id : ℕ) (m : List (ℕ × ℕ)) → Agrees c id m → lookup id m ≡ none → times c m ≡ 0
  unfolding lookup
  times-lookup-none id [] a e = refl
  times-lookup-none id ((j, h) ∷ m) a e = ground (arith, a.0, times-lookup-none id m a.1)

  pub times-lookup-some :
      (id h : ℕ) (m : List (ℕ × ℕ)) → Agrees c id m → lookup id m ≡ some h → 1 ≤ times c m
  unfolding lookup
  times-lookup-some id h [] a e = cc
  times-lookup-some id h ((j, k) ∷ m) a e = ground (arith, a.0, times-lookup-some id h m a.1)

  pub times-middle :
      (id h : ℕ) (m n : List (ℕ × ℕ))
      → times c (m ++ ((id, h) ∷ n)) ≡ (if h == c then 1 else 0) + times c (m ++ n)
  times-middle id h [] n = refl
  times-middle id h ((j, k) ∷ m) n = omega (arith, times-middle id h m n)
