-- ===== src/Signals/Sections.antt =====
-- The sections of the dispatcher's code keep the place of a guarded cleanup's handler:
-- internal/util/signal_handler.go.
use exasol_personal.Common.{
  ℕ, suc, ◌+◌, ◌<◌, ◌≡◌, ◌≢◌, refl, sym, ap, inl, inr, Option, none, some, lookup, put, nat_key,
  arith, Bool-cases, Option-cases,
}
use exasol_personal.Signals.{
  SignalHandler, int_mod, next_id, register_once, found, deregister, remove,
}
use exasol_personal.Signals.System.{
  HasRoom, Phase, fresh, guarded, cleaning, finished, System, ensure_on_interrupt, call_returned,
}
use exasol_personal.Signals.Counting.{
  times, times_run, Below, Tied, IsGuarded, Below-put, Below-remove, times-put, Agrees-put,
  Agrees-put_new, Agrees-remove, times-remove_other, times-remove_self, times-remove_none,
  times-lookup-none, times-lookup-some,
}

next_id-suc : (n : ℕ) → suc n < int_mod → next_id n ≡ suc n
next_id-suc n room = omega arith

module _ (c : ℕ) where
  -- what a section of the dispatcher's code leaves as it is
  pub record Keeps (p : Phase) (s t : SignalHandler) : Type 0 where
    pub below : Below t.next_handler_id t.once_handlers
    pub tied : Tied c p t
    pub amount : times c t.once_handlers ≡ times c s.once_handlers

  pub register_once-Keeps :
      (h : ℕ) (p : Phase) (s : SignalHandler)
      → h ≢ c
      → suc s.next_handler_id < int_mod
      → Below s.next_handler_id s.once_handlers
      → Tied c p s
      → Keeps p s (register_once h s).0
  unfolding register_once
  register_once-Keeps h p s ne room b t = go s.final_handler refl p t
    where
      fewer : times c (put s.next_handler_id h s.once_handlers) ≡ times c s.once_handlers
      fewer = ground (arith, times-put c s.next_handler_id h s.once_handlers b)

      kept :
          (p : Phase)
          → Tied c p s
          → Tied c p (record s {
            next_handler_id = suc s.next_handler_id;
            once_handlers = put s.next_handler_id h s.once_handlers;
          })
      kept fresh t = omega (arith, fewer)
      kept (guarded none) t = omega (arith, fewer)
      kept (guarded (some id)) t =
          (Agrees-put c id s.next_handler_id h s.once_handlers b t.1 ne t.0, omega arith)
      kept cleaning t = omega (arith, fewer)
      kept finished t = omega (arith, fewer)

      go :
          (f : Option ℕ)
          → s.final_handler ≡ f
          → (p : Phase) → Tied c p s
          → Keeps p s (register_once h s).0
      go none e p t = rw (register_once, e) (record { below = b; tied = t; amount = refl })
      go (some f) e p t =
          rw (register_once, e, next_id-suc s.next_handler_id room)
            (record {
              below = Below-put s.next_handler_id h s.once_handlers b;
              tied = kept p t;
              amount = fewer;
            })

  pub deregister-Keeps :
      (g : Option ℕ) (p : Phase) (s : SignalHandler)
      → p ≢ guarded g
      → Below s.next_handler_id s.once_handlers
      → Tied c p s
      → Keeps p s (deregister g s).0
  unfolding deregister
  deregister-Keeps none p s ne b t = record { below = b; tied = t; amount = refl }
  deregister-Keeps (some id) p s ne b t = elim (Bool-cases (found (lookup id s.once_handlers))) [
    | inl there ↦ rw there (record {
      below = Below-remove s.next_handler_id id s.once_handlers b;
      tied = (kept p ne t).0;
      amount = (kept p ne t).1;
    })
    | inr gone ↦ rw gone (record { below = b; tied = t; amount = refl })
  ]
    where
      kept :
          (p : Phase)
          → p ≢ guarded (some id)
          → Tied c p s
          → Tied c p (record s { once_handlers = remove id s.once_handlers })
            × (times c (remove id s.once_handlers) ≡ times c s.once_handlers)
      kept fresh ne t = let e = times-remove_none c id s.once_handlers t in (omega arith, e)
      kept (guarded none) ne t =
          let e = times-remove_none c id s.once_handlers t in (omega arith, e)
      kept (guarded (some k)) ne t = (
        (Agrees-remove c k id s.once_handlers t.0, t.1),
        times-remove_other c k id s.once_handlers t.0
            (λ e. ne (ap (λ (j : ℕ). guarded (some j)) (sym e))),
      )
      kept cleaning ne t = let e = times-remove_none c id s.once_handlers t in (omega arith, e)
      kept finished ne t = let e = times-remove_none c id s.once_handlers t in (omega arith, e)

  -- `EnsureOnInterrupt` makes the caller responsible for one run.
  pub ensure-IsGuarded :
      (s : System)
      → s.phase ≡ fresh
      → HasRoom s
      → IsGuarded c s
      → IsGuarded c (record s {
        signals = (ensure_on_interrupt c s.signals).0;
        phase = (ensure_on_interrupt c s.signals).1;
      })
  unfolding ensure_on_interrupt register_once
  ensure-IsGuarded s e room g = go s.signals.final_handler refl
    where
      none_yet : times c s.signals.once_handlers + times c s.pending + times_run c s.log ≡ 0
      none_yet = let once = rw e at (g.once) in omega arith

      go :
          (f : Option ℕ)
          → s.signals.final_handler ≡ f
          → IsGuarded c (record s {
            signals = (ensure_on_interrupt c s.signals).0;
            phase = (ensure_on_interrupt c s.signals).1;
          })
      go none e' =
          rw (ensure_on_interrupt, register_once, e')
            (record {
              below = g.below;
              tied = omega (arith, none_yet);
              once = omega (arith, none_yet);
            })
      go (some f) e' =
          rw (ensure_on_interrupt, register_once, e', next_id-suc s.signals.next_handler_id room)
            (record {
              below = Below-put s.signals.next_handler_id c s.signals.once_handlers g.below;
              tied = (
                Agrees-put_new c s.signals.next_handler_id s.signals.once_handlers g.below
                    (omega (arith, none_yet)),
                omega arith,
              );
              once = ground (
                arith,
                none_yet,
                times-put c s.signals.next_handler_id c s.signals.once_handlers g.below,
              );
            })

  pub return-IsGuarded :
      (r : Option ℕ) (s : System)
      → s.phase ≡ guarded r
      → IsGuarded c s
      → IsGuarded c (record s {
        signals = (call_returned r s.signals).0;
        phase = (call_returned r s.signals).1;
      })
  unfolding call_returned deregister
  return-IsGuarded none s e g = record {
    below = g.below;
    tied = rw e at (g.tied);
    once = rw e at (g.once);
  }
  return-IsGuarded (some id) s e g = elim (Option-cases (lookup id s.signals.once_handlers)) [
    | inl gone ↦
        let none_left = times-lookup-none c id s.signals.once_handlers tied.0 gone in
        rw (gone) (record { below = g.below; tied = none_left; once = ground (arith, once) })
    | inr (h, there) ↦
        let one = times-lookup-some c id h s.signals.once_handlers tied.0 there in
        let removed = times-remove_self c id s.signals.once_handlers tied.0 in
        rw there (record {
          below = Below-remove s.signals.next_handler_id id s.signals.once_handlers g.below;
          tied = removed;
          once = ground (arith, once);
        })
  ]
    where
      tied : Tied c (guarded (some id)) s.signals
      tied = rw e at (g.tied)

      once : times c s.signals.once_handlers + times c s.pending + times_run c s.log + 0 ≡ 1
      once = rw e at (g.once)
