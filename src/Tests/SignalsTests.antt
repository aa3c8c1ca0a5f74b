-- ===== src/Tests/SignalsTests.antt =====
-- Runs of the signal dispatcher of internal/util/signal_handler.go, and its theorems at concrete
-- inputs. The guarded cleanup is the handler 5, another handler is 6, the final handler 9.
use exasol_personal.Common.{◌≡◌, refl, true, none, some, [], ◌∷◌, ◌++◌, lookup, put, nat_key, arith}
use exasol_personal.Signals.{
  SignalHandler, initial, register_once, deregister, remove, take_handlers, start,
}
use exasol_personal.Signals.System.{
  finished, handler, final, System, ensure_on_interrupt, call_returned, ensures, returns, takes,
  runs, runs_final, starts, Reach, here, next,
}
use exasol_personal.Signals.Once.{RunsOnce, cleanup_once}
use exasol_personal.Signals.Final.{
  handle_signal, handle_signals, handle_signals_lem, run_handlers, finals,
}

abbrev running : SignalHandler
running = record initial { final_handler = some 9; started = true }

-- A signal came while the cleanup was guarded, and the caller returned afterwards.
abbrev interrupted : System
interrupted = record {
  signals = record running { next_handler_id = 1 };
  pending = [];
  final_due = none;
  phase = finished;
  log = final 9 ∷ handler 5 ∷ [];
}

Reach-interrupted : Reach 5 interrupted
unfolding start ensure_on_interrupt call_returned take_handlers register_once deregister put lookup
    remove
Reach-interrupted =
    next
      (next
        (next
          (next (next (next here (starts (some 9) running refl)) (ensures refl (omega arith)))
            (takes refl refl refl))
          (runs [] [] 0 5 refl))
        (runs_final 9 refl refl))
      (returns (some 0) refl)

cleanup_once_example : RunsOnce 5 interrupted
cleanup_once_example = cleanup_once 5 interrupted Reach-interrupted

abbrev two_registered : SignalHandler
two_registered = record running { next_handler_id = 2; once_handlers = (0, 5) ∷ (1, 6) ∷ [] }

two_signals : (handle_signals 2 two_registered).1 ≡ handler 5 ∷ handler 6 ∷ final 9 ∷ final 9 ∷ []
unfolding handle_signals handle_signal take_handlers
two_signals = refl

handle_signals_lem_example :
    (handle_signals 2 two_registered).1 ≡ run_handlers two_registered.once_handlers ++ finals 9 2
handle_signals_lem_example = handle_signals_lem 1 9 two_registered refl

abbrev without_final : SignalHandler
without_final = record initial { started = true }

start-without_final : start none initial ≡ some without_final
unfolding start
start-without_final = refl
