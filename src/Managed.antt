-- ===== src/Managed.antt =====
-- crates/gloam-commands/src/framework.rs, `drive_shards`: the managed Gateway loop. What the shards
-- deliver and which futures have ended are inputs of a round.
pub mod Announcements
pub mod Synchronization
use gloam_macro_commands.Common.{
  ℕ, String, Bool, true, false, Option, none, some, List, [], ◌∷◌, ◌++◌, str_eq, if◌then◌else◌,
}
use gloam_macro_commands.Error.{Result, ok, err, map_ok, command_task}
use gloam_macro_commands.Exec.{Exec, pure, lift, after, ◌>>=◌, ◌>>◌}
use gloam_macro_commands.Discord.{
  TypedEvent, interaction_create, ready, other_event, GatewayEvent, dispatch, other_gateway_event,
}
use gloam_macro_commands.Registration.{
  CreateCommand, Registration, unmanaged, Overwrite, synchronize,
}
use gloam_macro_commands.Dispatch.{
  Framework, PreparedDispatch, ignored, unregistered, command, autocomplete, prepare_dispatch,
}
use gloam_macro_commands.Scheduling.{Semaphores, Task, try_execute}

-- What `JoinSet::try_join_next` yields for a future that has ended: its result, or a task error.
pub data Joined : Type 0 where
  finished : Result (Unit {0}) → Joined
  task_error : (cause : ℕ) → Joined

-- Errors of commands were handled in their lifecycle; a task error ends the loop.
unfoldable pub reap_completed_commands : List Joined → Result (Unit {0})
reap_completed_commands [] = ok tt
reap_completed_commands (finished result ∷ rest) = reap_completed_commands rest
reap_completed_commands (task_error cause ∷ rest) = err (command_task cause)

unfoldable pub ready_id : TypedEvent → Option ℕ
ready_id (ready application_id) = some application_id
ready_id (interaction_create i) = none
ready_id other_event = none

unfoldable pub ready_application_id : GatewayEvent → Result (Option ℕ)
unfolding ready_id
ready_application_id other_gateway_event = ok none
ready_application_id (dispatch name typed) =
    if str_eq name "READY" then map_ok ready_id typed else ok none

-- One round of the loop: the futures that have ended, and what the shards delivered. The address
-- `response_state` is that of the state of a context created in the round.
pub record Round : Type 0 where
  pub completed : List Joined
  pub event : Result GatewayEvent
  pub shard_id : ℕ
  pub response_state : ℕ

-- The world of the REST client, the semaphores, the spawned futures, the loop's flag, and (for the
-- theorems only) the application ids for which the commands were synchronized.
pub record Managed (V S : Type 0) : Type 0 where
  pub world : V
  pub slots : S
  pub commands : List Task
  pub synchronized : Bool
  pub synchronizations : List ℕ

-- `self.registration == Registration::None`.
abbrev pub is_unmanaged : Registration → Bool
is_unmanaged unmanaged = true
is_unmanaged _ = false

module _ {W V S B : Type 0} (semaphores : Semaphores S) (from : CreateCommand → B)
    (rest : Overwrite B → Exec V (List ℕ)) (framework : Framework W) where
  -- `self.synchronize_commands(rest, application_id).await?`.
  unfoldable pub synchronize_commands : ℕ → Exec (Managed V S) (Unit {0})
  unfolding synchronize
  synchronize_commands application_id m =
      let (world, result) =
        synchronize from rest framework.registration application_id framework.registry m.world in
      (
        record m { world = world; synchronizations = m.synchronizations ++ application_id ∷ [] },
        map_ok (λ _. tt) result,
      )

  unfoldable pub mark_synchronized : Exec (Managed V S) (Unit {0})
  mark_synchronized m = (record m { synchronized = true }, ok tt)

  unfoldable pub synchronize_ready : Option ℕ → Exec (Managed V S) (Unit {0})
  unfolding synchronize_commands mark_synchronized
  synchronize_ready none = pure tt
  synchronize_ready (some application_id) = do
    synchronize_commands application_id
    mark_synchronized

  unfoldable pub synchronize_once : Bool → GatewayEvent → Exec (Managed V S) (Unit {0})
  unfolding ready_application_id synchronize_ready
  synchronize_once true event = pure tt
  synchronize_once false event = do
    application_id ← lift (ready_application_id event)
    synchronize_ready application_id

  -- `if let Some(future) = command.try_execute()? { commands.spawn(future) }`.
  unfoldable pub spawn_if_started :
      String → S × Result (Option (List ℕ)) → Exec (Managed V S) (Unit {0})
  spawn_if_started name (slots, ok (some permits)) m = (
    record m {
      slots = slots;
      commands = record { command_name = name; permits = permits } ∷ m.commands;
    },
    ok tt,
  )
  spawn_if_started name (slots, ok none) m = (record m { slots = slots }, ok tt)
  spawn_if_started name (slots, err e) m = (record m { slots = slots }, err e)

  unfoldable pub execute_prepared : PreparedDispatch W → Exec (Managed V S) (Unit {0})
  unfolding spawn_if_started try_execute
  execute_prepared ignored m = (m, ok tt)
  execute_prepared (unregistered name) m = (m, ok tt)
  execute_prepared (command p) m =
      spawn_if_started p.command_name
        (try_execute semaphores p.policy.command_slots p.command_slots m.slots) m
  execute_prepared (autocomplete p) m =
      spawn_if_started p.command_name (try_execute semaphores none p.command_slots m.slots) m

  -- What a round does with its event.
  unfoldable pub handle_event : GatewayEvent → ℕ → ℕ → Exec (Managed V S) (Unit {0})
  unfolding synchronize_once execute_prepared
  handle_event event shard_id response_state m =
      (do
        synchronize_once m.synchronized event
        prepared ← lift (prepare_dispatch framework event (some shard_id) response_state)
        execute_prepared prepared)
        m

  unfoldable pub drive_round : Round → Exec (Managed V S) (Unit {0})
  unfolding reap_completed_commands handle_event
  drive_round round = do
    lift (reap_completed_commands round.completed)
    event ← lift round.event
    handle_event event round.shard_id round.response_state

  unfoldable pub drive_rounds : List Round → List Joined → Exec (Managed V S) (Unit {0})
  unfolding drive_round
  drive_rounds [] completed = lift (reap_completed_commands completed)
  drive_rounds (round ∷ rounds) completed = do drive_round round; drive_rounds rounds completed

  -- The loop over the rounds until the shards end; `completed` has ended by then.
  unfoldable pub drive_shards : List Round → List Joined → V → S → Managed V S × Result (Unit {0})
  unfolding drive_rounds
  drive_shards rounds completed world slots = drive_rounds rounds completed (record {
    world = world;
    slots = slots;
    commands = [];
    synchronized = is_unmanaged framework.registration;
    synchronizations = [];
  })
