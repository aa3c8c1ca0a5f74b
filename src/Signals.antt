-- ===== src/Signals.antt =====
-- The process-wide signal dispatcher of internal/util/signal_handler.go: its state, each section of
-- code that it runs under its mutex as one function, and the handlers as values that the functions
-- put into order. A handler is named by a number: what it does is not looked at.
pub mod System
pub mod Counting
pub mod Sections
pub mod Once
pub mod Final
use exasol_personal.Common.{
  ℕ, zero, suc, ◌%◌, Bool, true, false, Option, none, some, List, [], ◌∷◌, ◌==◌, if◌then◌else◌,
  lookup, put, nat_key,
}

-- the variable `signalHandler`; of `cancel` only whether it is nil
pub record SignalHandler : Type 0 where
  pub next_handler_id : ℕ
  pub once_handlers : List (ℕ × ℕ)
  pub final_handler : Option ℕ
  pub started : Bool

abbrev pub initial : SignalHandler
initial = record { next_handler_id = 0; once_handlers = []; final_handler = none; started = false }

-- `delete(m, k)`
unfoldable pub remove : ℕ → List (ℕ × ℕ) → List (ℕ × ℕ)
remove k [] = []
remove k ((j, h) ∷ m) = let rest = remove k m in if j == k then rest else (j, h) ∷ rest

-- The ids are Go ints of 64 bits, which wrap round; a negative one is read modulo 2 ^ 64.
abbrev pub int_mod : ℕ
int_mod = 0x10000000000000000

abbrev pub next_id : ℕ → ℕ
next_id id = suc id % int_mod

-- `RegisterOnceSignalHandler`: the id that the deregister function has, or `none` with
-- `errNoSignalHandlerInitialization`
unfoldable pub register_once : ℕ → SignalHandler → SignalHandler × Option ℕ
register_once handler s = elim s.final_handler [
  | none ↦ (s, none)
  | some _ ↦ (
    record s {
      next_handler_id = next_id s.next_handler_id;
      once_handlers = put s.next_handler_id handler s.once_handlers;
    },
    some s.next_handler_id,
  )
]

abbrev pub found : Option ℕ → Bool
found none = false
found (some _) = true

-- the deregister function that was returned with this id, or with the error
unfoldable pub deregister : Option ℕ → SignalHandler → SignalHandler × Bool
unfolding remove lookup
deregister none s = (s, true)
deregister (some id) s =
    if found (lookup id s.once_handlers)
    then (record s { once_handlers = remove id s.once_handlers }, true)
    else (s, false)

-- What `handleSignal` takes under the mutex, to run it afterwards.
unfoldable pub take_handlers : SignalHandler → SignalHandler × List (ℕ × ℕ) × Option ℕ
take_handlers s = (record s { once_handlers = [] }, s.once_handlers, s.final_handler)

-- `StartSignalHandlerWithChannel`; `none` is the panic
unfoldable pub start : Option ℕ → SignalHandler → Option SignalHandler
start final s =
    if s.started then none else some (record s { final_handler = final; started = true })

-- The two sections of `StopSignalHandler`; between them it waits for the worker to end.
unfoldable pub begin_stop : SignalHandler → SignalHandler
begin_stop s = record s { final_handler = none }

unfoldable pub end_stop : SignalHandler → SignalHandler
end_stop s = record s { started = false }
