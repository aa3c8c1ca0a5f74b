-- ===== src/Workflow/Commands/Held.antt =====
-- What a command leaves where every write of the state file succeeds: a world that holds a state,
-- and what the recording of a failure (internal/deploy/deploymentControl.go) makes of it.
use exasol_personal.Common.{
  ◌≡◌, refl, Bool, true, false, Option, none, some, [], arith, if◌then◌else◌, Bytes, ℕ,
}
use exasol_personal.Errors.{Error, ok, Operation}
use exasol_personal.Workflow.State.{
  State, interrupted, get_workflow_state, set_workflow_state, get-set_workflow_state,
}
use exasol_personal.Workflow.World.{
  World, holds, read_state, saved, set_and_write, Environment, probe_liveness, Liveness,
  liveness_unknown, runtime_running, runtime_stopped,
}
use exasol_personal.Workflow.Failure.{
  as_unavailable, prior_restored, stop_and_restore, port_restored, mark_operation_interrupted,
  restore_after_unavailable_port, restore_local_state_after_failure, record_lifecycle_failure,
}

-- The state in memory is the one on disk, and no write will fail.
pub record Synced (w : World) : Type 0 where
  pub on_disk : read_state w.disk ≡ ok w.memory
  pub no_faults : w.writes ≡ []

-- the world after `s` was written
abbrev pub world_of : State → World
world_of s = record {
  memory = set_workflow_state s;
  disk = holds (set_workflow_state s);
  writes = [];
}

pub written_to : (s : State) (w : World) → w.writes ≡ [] → set_and_write s w ≡ (none, world_of s)
unfolding set_and_write
written_to s w h = ground (arith, h)

pub saved-Synced : (w : World) → Synced w → saved w ≡ get_workflow_state w.memory
unfolding saved
saved-Synced w y = ground (arith, y.on_disk)

-- the state `t` is saved, and memory and disk agree
pub record Holds (t : State) (w : World) : Type 0 where
  pub synced : Synced w
  pub state : get_workflow_state w.memory ≡ ok t

pub Holds-world_of : (s : State) → Holds s (world_of s)
unfolding read_state
Holds-world_of s = record {
  synced = record { on_disk = refl; no_faults = refl };
  state = (get-set_workflow_state s).0;
}

pub Holds-set_and_write : (s : State) (w : World) → w.writes ≡ [] → Holds s (set_and_write s w).1
Holds-set_and_write s w h = rw (written_to s w h) (Holds-world_of s)

-- the command has left a state that `L` allows
pub record Left {ℓ} (L : State → Type ℓ) (r : Option Error × World) : Type ℓ where
  pub state : State
  pub held : Holds state r.1
  pub allowed : L state

pub restore_port_Left :
    (prior : State) (L : State → Type 0)
    → L prior
    → (e : Error) (w : World) (u : Bytes × ℕ) → as_unavailable e ≡ some u
    → w.writes ≡ []
    → Left L (restore_after_unavailable_port prior e w)
unfolding restore_after_unavailable_port port_restored
restore_port_Left prior L undone e w u p h =
    rw p (record { state = prior; held = Holds-set_and_write prior w h; allowed = undone })

module _ (env : Environment) (o : Operation) (prior : State) (L : State → Type 0) (undone : L prior)
    (cut : (e : Error) → L (interrupted e o)) where
  pub mark_Left :
      (e : Error) (w : World) → w.writes ≡ [] → Left L (mark_operation_interrupted o e w)
  unfolding mark_operation_interrupted
  mark_Left e w h = record {
    state = interrupted e o;
    held = Holds-set_and_write (interrupted e o) w h;
    allowed = cut e;
  }

  prior_Left : (e : Error) (w : World) → w.writes ≡ [] → Left L (prior_restored o prior e w)
  unfolding prior_restored
  prior_Left e w h = record {
    state = prior;
    held = Holds-set_and_write prior w h;
    allowed = undone;
  }

  stop_Left :
      (l : Liveness) (e : Error) (w : World)
      → w.writes ≡ []
      → Left L (stop_and_restore env l o prior e w)
  unfolding stop_and_restore
  stop_Left runtime_running e w h = go env.stop_runtime
    where
      go :
          (r : Option Error)
          → Left L (elim r [
            | some f ↦ mark_operation_interrupted o e w
            | none ↦ prior_restored o prior e w
          ])
      go none = prior_Left e w h
      go (some f) = mark_Left e w h
  stop_Left runtime_stopped e w h = prior_Left e w h
  stop_Left liveness_unknown e w h = prior_Left e w h

  pub if_Left :
      (b : Bool) (r s : Option Error × World) → Left L r → Left L s → Left L (if b then r else s)
  if_Left true r s x y = x
  if_Left false r s x y = y

  local_Left :
      (e : Error) (w : World)
      → w.writes ≡ []
      → Left L (restore_local_state_after_failure env o prior e w)
  unfolding restore_local_state_after_failure
  local_Left e w h =
      if_Left _ _ _ (mark_Left e w h) (stop_Left (probe_liveness env env.running_after).0 e w h)

  -- A failed operation leaves the state before it, or is marked as interrupted.
  pub failure_Left :
      (e : Error) (w : World) → w.writes ≡ [] → Left L (record_lifecycle_failure env o prior e w)
  unfolding record_lifecycle_failure
  failure_Left e w h = go (as_unavailable e) refl
    where
      go :
          (u : Option (Bytes × ℕ))
          → as_unavailable e ≡ u
          → Left L (elim u [
            | some u ↦ restore_after_unavailable_port prior e w
            | none ↦
                if env.is_local
                then restore_local_state_after_failure env o prior e w
                else mark_operation_interrupted o e w
          ])
      go (some u) p = restore_port_Left prior L undone e w u p h
      go none p = if_Left env.is_local _ _ (local_Left e w h) (mark_Left e w h)
