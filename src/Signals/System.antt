-- ===== src/Signals/System.antt =====
-- The dispatcher among the goroutines that use it: the worker that handles signals, one caller of
-- `EnsureOnInterrupt`, whose cleanup is the handler `c`, and all others. A step is what one of them
-- does between two points at which another may come in.
use exasol_personal.Common.{
  ℕ, suc, ◌<◌, ◌≡◌, ◌≢◌, true, Option, none, some, List, [], ◌∷◌, ◌++◌, if◌then◌else◌,
}
use exasol_personal.Signals.{
  SignalHandler, int_mod, initial, register_once, deregister, take_handlers, start, begin_stop,
  end_stop,
}

-- How far the caller has come: what `EnsureOnInterrupt` returned holds the id of its handler, or is
-- the cleanup itself (`guarded none`); it was called and the cleanup is still to be run; it is done.
pub data Phase : Type 0 where
  fresh : Phase
  guarded : Option ℕ → Phase
  cleaning finished : Phase

pub data Ran : Type 0 where
  handler final : ℕ → Ran

pub record System : Type 0 where
  pub signals : SignalHandler
  -- what the worker has taken and not yet run
  pub pending : List (ℕ × ℕ)
  pub final_due : Option ℕ
  pub phase : Phase
  -- what has run, the last first
  pub log : List Ran

abbrev pub boot : System
boot = record { signals = initial; pending = []; final_due = none; phase = fresh; log = [] }

-- `EnsureOnInterrupt`, up to its return
unfoldable pub ensure_on_interrupt : ℕ → SignalHandler → SignalHandler × Phase
unfolding register_once
ensure_on_interrupt c s = let (s', id) = register_once c s in (s', guarded id)

-- The function that `EnsureOnInterrupt` returned, up to the cleanup.
unfoldable pub call_returned : Option ℕ → SignalHandler → SignalHandler × Phase
unfolding deregister
call_returned none s = (s, cleaning)
call_returned (some id) s =
    let (s', not_run) = deregister (some id) s in (s', if not_run then cleaning else finished)

-- The next id does not wrap round, as none of the first 2 ^ 64 - 1 does.
abbrev pub HasRoom : System → Type 0
HasRoom s = suc s.signals.next_handler_id < int_mod

module _ (c : ℕ) where
  pub data Step (s : System) : System → Type 0 where
    -- the caller
    ensures :
        s.phase ≡ fresh
        → HasRoom s
        → Step s (record s {
          signals = (ensure_on_interrupt c s.signals).0;
          phase = (ensure_on_interrupt c s.signals).1;
        })
    returns :
        (g : Option ℕ)
        → s.phase ≡ guarded g
        → Step s (record s {
          signals = (call_returned g s.signals).0;
          phase = (call_returned g s.signals).1;
        })
    cleans : s.phase ≡ cleaning → Step s (record s { phase = finished; log = handler c ∷ s.log })
    -- the worker
    takes :
        s.signals.started ≡ true
        → s.pending ≡ []
        → s.final_due ≡ none
        → Step s (record s {
          signals = (take_handlers s.signals).0;
          pending = (take_handlers s.signals).1;
          final_due = (take_handlers s.signals).2;
        })
    runs :
        (before after : List (ℕ × ℕ)) (id h : ℕ)
        → s.pending ≡ before ++ ((id, h) ∷ after)
        → Step s (record s { pending = before ++ after; log = handler h ∷ s.log })
    runs_final :
        (f : ℕ)
        → s.pending ≡ []
        → s.final_due ≡ some f
        → Step s (record s { final_due = none; log = final f ∷ s.log })
    -- all others
    registers :
        (h : ℕ) → h ≢ c → HasRoom s → Step s (record s { signals = (register_once h s.signals).0 })
    deregisters :
        (g : Option ℕ)
        → s.phase ≢ guarded g
        → Step s (record s { signals = (deregister g s.signals).0 })
    starts :
        (f : Option ℕ) (next : SignalHandler)
        → start f s.signals ≡ some next
        → Step s (record s { signals = next })
    begins_stop : Step s (record s { signals = begin_stop s.signals })
    ends_stop :
        s.pending ≡ [] → s.final_due ≡ none → Step s (record s { signals = end_stop s.signals })

  pub data Reach : System → Type 0 where
    here : Reach boot
    next : {s t : System} → Reach s → Step s t → Reach t
