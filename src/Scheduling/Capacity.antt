-- ===== src/Scheduling/Capacity.antt =====
-- crates/gloam-commands/src/framework.rs with concurrent tasks: spawning, and futures that end, in any
-- order.
use gloam_macro_commands.Common.{
  ℕ, ◌+◌, ◌≤◌, ◌≡◌, refl, sym, ap, subst, ◌∙◌, arith, Bool, Option, List, [], ◌∷◌, ◌++◌, length,
  All, All-append,
}
use gloam_macro_commands.Error.{Result, ok, err}
use gloam_macro_commands.Dispatch.{PreparedDispatch}
use gloam_macro_commands.Scheduling.{dispatch_event, spawn_result, Semaphores, Task, drop_permits}
use gloam_macro_commands.Scheduling.Permits.{drop_permits-available}
use gloam_macro_commands.Discord.{GatewayEvent}
use gloam_macro_commands.Dispatch.{Framework, prepare_dispatch}
use gloam_macro_commands.Dispatch.Slots.{prepare_dispatch-Uses}
use gloam_macro_commands.Scheduling.Spawning.{
  started, in_use, in_use-append, HoldsSlot, All-remove, length-in_use, spawn_prepared-conserves,
  spawn_prepared-HoldsSlot,
}

-- The semaphores and the futures that have not ended.
pub record Scheduler (S : Type 0) : Type 0 where
  pub slots : S
  pub running : List Task

module _ {S : Type 0} {W : Type 0} (semaphores : Semaphores S) (framework : Framework W) where
  pub data Step : Scheduler S → Scheduler S → Type 0 where
    dispatched :
        (s : Scheduler S) (has_runtime : Bool) (event : GatewayEvent) (shard_id : Option ℕ)
        (response_state : ℕ)
        → Step s (record {
          slots =
              (dispatch_event semaphores framework has_runtime event shard_id response_state
                s.slots).0;
          running =
              started
                (dispatch_event semaphores framework has_runtime event shard_id response_state
                  s.slots).1
              ++ s.running;
        })
    ended :
        (s : Scheduler S) (before after : List Task) (task : Task)
        → s.running ≡ before ++ task ∷ after
        → Step s (record {
          slots = drop_permits semaphores task.permits s.slots;
          running = before ++ after;
        })

  pub data Reach (s : Scheduler S) : Scheduler S → Type 0 where
    here : Reach s s
    next : {t u : Scheduler S} → Reach s t → Step t u → Reach s u

  dispatch_event-conserves :
      (has_runtime : Bool) (event : GatewayEvent) (shard_id : Option ℕ) (response_state : ℕ) (s : S)
      (b : ℕ)
      → (let x = dispatch_event semaphores framework has_runtime event shard_id response_state s in
          semaphores.available_permits b x.0 + in_use b (started x.1)
          ≡ semaphores.available_permits b s)
  unfolding dispatch_event
  dispatch_event-conserves has_runtime event shard_id response_state s b =
      by_result (prepare_dispatch framework event shard_id response_state)
    where
      by_result :
          (r : Result (PreparedDispatch W))
          → semaphores.available_permits b (spawn_result semaphores has_runtime r s).0
              + in_use b (started (spawn_result semaphores has_runtime r s).1)
            ≡ semaphores.available_permits b s
      by_result (ok p) =
          spawn_prepared-conserves semaphores framework.command_slots has_runtime p s b
      by_result (err e) = omega arith

  dispatch_event-HoldsSlot :
      (has_runtime : Bool) (event : GatewayEvent) (shard_id : Option ℕ) (response_state : ℕ) (s : S)
      → All (HoldsSlot framework.command_slots) (
          started
            (dispatch_event semaphores framework has_runtime event shard_id response_state s).1)
  unfolding dispatch_event
  dispatch_event-HoldsSlot has_runtime event shard_id response_state s =
      by_result (prepare_dispatch framework event shard_id response_state) refl
    where
      by_result :
          (r : Result (PreparedDispatch W))
          → prepare_dispatch framework event shard_id response_state ≡ r
          → All
              (HoldsSlot framework.command_slots)
              (started (spawn_result semaphores has_runtime r s).1)
      by_result (ok p) e =
          spawn_prepared-HoldsSlot semaphores framework.command_slots has_runtime p s
            (prepare_dispatch-Uses framework event shard_id response_state p e)
      by_result (err e) h = tt

  -- The permits of every semaphore are free or held by a running future.
  abbrev Conserved : Scheduler S → Scheduler S → Type 0
  Conserved s t =
      (b : ℕ)
      → semaphores.available_permits b t.slots + in_use b t.running
        ≡ semaphores.available_permits b s.slots + in_use b s.running

  Step-Conserved : {s t : Scheduler S} → Step s t → Conserved s t
  Step-Conserved (dispatched s has_runtime event shard_id response_state) b =
      let kept = dispatch_event-conserves has_runtime event shard_id response_state s.slots b in
      let split =
        in_use-append b
          (started
            (dispatch_event semaphores framework has_runtime event shard_id response_state
              s.slots).1)
          s.running in
      omega arith
  Step-Conserved (ended s before after task e) b =
      let given = drop_permits-available semaphores task.permits s.slots b in
      let whole = ap (in_use b) e ∙ in_use-append b before (task ∷ after) in
      let rest = in_use-append b before after in omega arith

  Step-HoldsSlot :
      {s t : Scheduler S}
      → Step s t
      → All (HoldsSlot framework.command_slots) s.running
      → All (HoldsSlot framework.command_slots) t.running
  Step-HoldsSlot (dispatched s has_runtime event shard_id response_state) h =
      All-append (HoldsSlot framework.command_slots)
        (started
          (dispatch_event semaphores framework has_runtime event shard_id response_state s.slots).1)
        s.running (dispatch_event-HoldsSlot has_runtime event shard_id response_state s.slots) h
  Step-HoldsSlot (ended s before after task e) h =
      All-remove (HoldsSlot framework.command_slots) before task after
        (subst (All (HoldsSlot framework.command_slots)) e h)

  Reach-HoldsSlot :
      {s t : Scheduler S}
      → Reach s t
      → All (HoldsSlot framework.command_slots) s.running
      → All (HoldsSlot framework.command_slots) t.running
  Reach-HoldsSlot here h = h
  Reach-HoldsSlot (next r st) h = Step-HoldsSlot st (Reach-HoldsSlot r h)

  -- In every state reached, the permits of each semaphore are free or held by a running future:
  -- none leaks, whichever dispatches were refused and in whatever order the futures ended.
  pub Reach-conserves :
      {s t : Scheduler S}
      → Reach s t
      → (b : ℕ)
      → semaphores.available_permits b t.slots + in_use b t.running
        ≡ semaphores.available_permits b s.slots + in_use b s.running
  Reach-conserves here b = refl
  Reach-conserves (next r st) b = Step-Conserved st b ∙ Reach-conserves r b

  -- From a start without running futures, never more commands and autocomplete handlers run at once
  -- than the framework's semaphore has permits at the start.
  pub Reach-capacity :
      {s t : Scheduler S}
      → s.running ≡ []
      → Reach s t
      → length t.running ≤ semaphores.available_permits framework.command_slots s.slots
  Reach-capacity {s} {t} e r =
      let start : All (HoldsSlot framework.command_slots) s.running =
        subst (All (HoldsSlot framework.command_slots)) (sym e) tt in
      let counted = length-in_use framework.command_slots t.running (Reach-HoldsSlot r start) in
      let kept = Reach-conserves r framework.command_slots in
      let none_used : in_use framework.command_slots s.running ≡ 0 =
        ap (in_use framework.command_slots) e in
      omega arith
