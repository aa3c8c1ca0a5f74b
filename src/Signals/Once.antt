-- ===== src/Signals/Once.antt =====
-- A cleanup guarded by `EnsureOnInterrupt` runs once: on a signal or on return.
use exasol_personal.Common.{
  ℕ, ◌+◌, ◌≤◌, ◌≡◌, refl, ap, subst, Bool, true, false, Option, none, some, [], nat_key, arith,
}
use exasol_personal.Signals.{SignalHandler, take_handlers, start, begin_stop, end_stop}
use exasol_personal.Signals.System.{
  Phase, fresh, guarded, cleaning, finished, System, Step, ensures, returns, cleans, takes, runs,
  runs_final, registers, deregisters, starts, begins_stop, ends_stop, Reach, here, next,
}
use exasol_personal.Signals.Counting.{
  times, times_run, owed, wanted, Below, Tied, IsGuarded, times-middle,
}
use exasol_personal.Signals.Sections.{
  Keeps, register_once-Keeps, deregister-Keeps, ensure-IsGuarded, return-IsGuarded,
}

module _ (c : ℕ) where
  -- a step that concerns only the registered handlers of others
  others-IsGuarded :
      (s : System) (t : SignalHandler)
      → IsGuarded c s
      → Keeps c s.phase s.signals t
      → IsGuarded c (record s { signals = t })
  others-IsGuarded s t g k = record {
    below = k.below;
    tied = k.tied;
    once = omega (arith, g.once, k.amount);
  }

  emptied-Tied :
      (p : Phase) (s : SignalHandler) → Tied c p s → Tied c p (record s { once_handlers = [] })
  emptied-Tied fresh s t = refl
  emptied-Tied (guarded none) s t = refl
  emptied-Tied (guarded (some id)) s t = (tt, t.1)
  emptied-Tied cleaning s t = refl
  emptied-Tied finished s t = refl

  -- what concerns neither the handlers nor the ids
  aside-Keeps :
      (p : Phase) (s : SignalHandler) (f : Option ℕ) (b : Bool)
      → Below s.next_handler_id s.once_handlers
      → Tied c p s
      → Keeps c p s (record s { final_handler = f; started = b })
  aside-Keeps p s f b below t = record { below = below; tied = kept p t; amount = refl }
    where
      kept : (p : Phase) → Tied c p s → Tied c p (record s { final_handler = f; started = b })
      kept fresh t = t
      kept (guarded none) t = t
      kept (guarded (some id)) t = t
      kept cleaning t = t
      kept finished t = t

  Step-IsGuarded : {s t : System} → Step c s t → IsGuarded c s → IsGuarded c t
  unfolding take_handlers start begin_stop end_stop
  Step-IsGuarded {s} (ensures e room) g = ensure-IsGuarded c s e room g
  Step-IsGuarded {s} (returns r e) g = return-IsGuarded c r s e g
  Step-IsGuarded {s} (cleans e) g = record {
    below = g.below;
    tied = rw e at (g.tied);
    once = let once = rw e at (g.once) in ground (arith, once);
  }
  Step-IsGuarded {s} (takes on idle none_due) g = record {
    below = tt;
    tied = emptied-Tied s.phase s.signals g.tied;
    once = omega (arith, g.once, ap (times c) idle);
  }
  Step-IsGuarded {s} (runs before after id h e) g = record {
    below = g.below;
    tied = g.tied;
    once = ground (arith, g.once, ap (times c) e, times-middle c id h before after);
  }
  Step-IsGuarded (runs_final f e e') g = record { below = g.below; tied = g.tied; once = g.once }
  Step-IsGuarded {s} (registers h ne room) g =
      others-IsGuarded s _ g (register_once-Keeps c h s.phase s.signals ne room g.below g.tied)
  Step-IsGuarded {s} (deregisters r ne) g =
      others-IsGuarded s _ g (deregister-Keeps c r s.phase s.signals ne g.below g.tied)
  Step-IsGuarded {s} (starts f t e) g = others-IsGuarded s t g (
      subst (Keeps c s.phase s.signals) (started e)
        (aside-Keeps s.phase s.signals f true g.below g.tied))
    where
      started :
          start f s.signals ≡ some t → record s.signals { final_handler = f; started = true } ≡ t
      started e = ground arith
  Step-IsGuarded {s} begins_stop g =
      others-IsGuarded s _ g (aside-Keeps s.phase s.signals none s.signals.started g.below g.tied)
  Step-IsGuarded {s} (ends_stop idle none_due) g =
      others-IsGuarded s _ g
        (aside-Keeps s.phase s.signals s.signals.final_handler false g.below g.tied)

  Reach-IsGuarded : {s : System} → Reach c s → IsGuarded c s
  Reach-IsGuarded here = record { below = tt; tied = refl; once = refl }
  Reach-IsGuarded (next r st) = Step-IsGuarded st (Reach-IsGuarded r)

-- Of how often the cleanup has run, by how far its caller has come.
abbrev pub RunsOnce : ℕ → System → Type 0
RunsOnce c s =
    (times_run c s.log ≤ 1)
    × (s.phase ≡ fresh → times_run c s.log ≡ 0)
    × (s.phase ≡ cleaning → times_run c s.log ≡ 0)
    × (s.phase ≡ finished → times c s.pending ≡ 0 → times_run c s.log ≡ 1)

-- A cleanup guarded by one call of `EnsureOnInterrupt`, in every order in which its caller, the
-- worker and the other users of the dispatcher can come, as long as no id of a handler wraps round:
-- it has run at most once, not before it is guarded, not before the caller runs it where the
-- deregistration said that it did not run, and exactly once when the returned function is done and
-- no taken handler of it is left to run.
pub cleanup_once : (c : ℕ) (s : System) → Reach c s → RunsOnce c s
cleanup_once c s r =
    let g = Reach-IsGuarded c r in
    (
      at_most s.phase g.once,
      λ e. let once = rw e at (g.once) in omega arith,
      λ e. let once = rw e at (g.once) in omega arith,
      λ e idle. let once = rw e at (g.once) in let tied = rw e at (g.tied) in omega arith,
    )
  where
    at_most :
        (p : Phase)
        → times c s.signals.once_handlers + times c s.pending + times_run c s.log + owed p
          ≡ wanted p
        → times_run c s.log ≤ 1
    at_most fresh h = omega arith
    at_most (guarded none) h = omega arith
    at_most (guarded (some id)) h = omega arith
    at_most cleaning h = omega arith
    at_most finished h = omega arith
