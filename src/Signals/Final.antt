-- ===== src/Signals/Final.antt =====
-- What the worker runs on each signal, and what a dispatcher without a final handler refuses:
-- internal/util/signal_handler.go.
use mathlib.Core.List.{append_assoc}
use exasol_personal.Common.{
  ℕ, zero, suc, ◌≡◌, refl, ap, ◌∙◌, Option, none, some, List, [], ◌∷◌, ◌++◌, ◌≤◌, arith,
}
use exasol_personal.Signals.{SignalHandler, register_once, deregister, remove, take_handlers, start}
use exasol_personal.Signals.Counting.{times}
use exasol_personal.Signals.System.{Ran, handler, final}

-- the loop over the taken handlers: a map is walked in any order, here in that of the list
abbrev pub run_handlers : List (ℕ × ℕ) → List Ran
run_handlers [] = []
run_handlers ((id, h) ∷ m) = handler h ∷ run_handlers m

abbrev pub run_final : Option ℕ → List Ran
run_final none = []
run_final (some f) = final f ∷ []

-- `handleSignal`: the state, and what it runs, the first first
unfoldable pub handle_signal : SignalHandler → SignalHandler × List Ran
unfolding take_handlers
handle_signal s =
    let (s', taken, final_handler) = take_handlers s in
    (s', run_handlers taken ++ run_final final_handler)

-- the worker's loop over a number of signals
unfoldable pub handle_signals : ℕ → SignalHandler → SignalHandler × List Ran
handle_signals zero s = (s, [])
handle_signals (suc n) s =
    let (s', ran) = handle_signal s in let (s'', more) = handle_signals n s' in (s'', ran ++ more)

abbrev pub finals : ℕ → ℕ → List Ran
finals f zero = []
finals f (suc n) = final f ∷ finals f n

handle_signals-empty :
    (n f : ℕ) (s : SignalHandler)
    → s.once_handlers ≡ []
    → s.final_handler ≡ some f
    → (handle_signals n s).1 ≡ finals f n
unfolding handle_signals handle_signal
handle_signals-empty zero f s e e' = refl
handle_signals-empty (suc n) f s e e' =
    let rest = (handle_signals n (record s { once_handlers = [] })).1 in
    ap (λ (m : List (ℕ × ℕ)). (run_handlers m ++ run_final s.final_handler) ++ rest) e
    ∙ (ap (λ (o : Option ℕ). run_final o ++ rest) e'
        ∙ ap (◌∷◌ (final f)) (handle_signals-empty n f (record s { once_handlers = [] }) refl e'))

-- A dispatcher with a final handler to which nothing is registered between the signals runs the
-- once-handlers on the first one only, but the final handler on each of them.
pub handle_signals_lem :
    (n f : ℕ) (s : SignalHandler)
    → s.final_handler ≡ some f
    → (handle_signals (suc n) s).1 ≡ run_handlers s.once_handlers ++ finals f (suc n)
unfolding handle_signals handle_signal
handle_signals_lem n f s e =
    let first = run_handlers s.once_handlers in
    ap (λ (r : List Ran). (first ++ run_final s.final_handler) ++ r)
      (handle_signals-empty n f (record s { once_handlers = [] }) refl e)
    ∙ (ap (λ (o : Option ℕ). (first ++ run_final o) ++ finals f n) e
        ∙ append_assoc first (final f ∷ []) (finals f n))

-- What a program may do with the dispatcher, stopping it left out.
pub data Call : Type 0 where
  register : ℕ → Call
  call_deregister : Option ℕ → Call
  signal : Call

abbrev pub call : Call → SignalHandler → SignalHandler
call (register h) s = (register_once h s).0
call (call_deregister g) s = (deregister g s).0
call signal s = (handle_signal s).0

abbrev pub calls : List Call → SignalHandler → SignalHandler
calls [] s = s
calls (c ∷ cs) s = calls cs (call c s)

times-remove-le : (h k : ℕ) (m : List (ℕ × ℕ)) → times h (remove k m) ≤ times h m
unfolding remove
times-remove-le h k [] = omega arith
times-remove-le h k ((j, i) ∷ m) = ground (arith, times-remove-le h k m)

-- A call on a dispatcher with no final handler leaves it without one and adds no handler.
call-without_final :
    (c : Call) (h : ℕ) (s : SignalHandler)
    → s.final_handler ≡ none
    → ((call c s).final_handler ≡ none)
      × (times h (call c s).once_handlers ≤ times h s.once_handlers)
unfolding register_once deregister handle_signal
call-without_final (register i) h s e = rw (register_once, e) (refl, omega arith)
call-without_final (call_deregister none) h s e = (e, omega arith)
call-without_final (call_deregister (some id)) h s e =
    ground (arith, times-remove-le h id s.once_handlers)
call-without_final signal h s e = (e, omega arith)

calls-without_final :
    (cs : List Call) (h : ℕ) (s : SignalHandler)
    → s.final_handler ≡ none
    → ((calls cs s).final_handler ≡ none)
      × (times h (calls cs s).once_handlers ≤ times h s.once_handlers)
calls-without_final [] h s e = (e, omega arith)
calls-without_final (c ∷ cs) h s e =
    let (none_now, no_more) = call-without_final c h s e in
    let (none_later, no_more_later) = calls-without_final cs h (call c s) none_now in
    (none_later, omega arith)

-- After a start with the final handler nil, whatever is registered, deregistered and signalled:
-- each registration fails and changes nothing, and no handler is registered more often than at the
-- start.
pub register_without_final :
    (s t : SignalHandler) (cs : List Call) (h : ℕ)
    → start none s ≡ some t
    → (register_once h (calls cs t) ≡ (calls cs t, none))
      × (times h (calls cs t).once_handlers ≤ times h s.once_handlers)
unfolding start register_once
register_without_final s t cs h e =
    let started : (t.final_handler ≡ none) × (t.once_handlers ≡ s.once_handlers) = ground arith in
    let (none_later, no_more) = calls-without_final cs h t started.0 in
    let same = ap (times h) started.1 in (rw (register_once, none_later) refl, omega arith)
