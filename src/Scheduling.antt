-- ===== src/Scheduling.antt =====
-- crates/gloam-commands/src/framework.rs: execution slots, `try_execute` and `spawn_prepared`. A
-- semaphore is tokio's, named by its address.
pub mod Permits
pub mod Spawning
pub mod Capacity
pub mod Limits
use gloam_macro_commands.Common.{
  ℕ, zero, suc, ◌+◌, ◌≡◌, String, Bool, true, false, Option, none, some, List, [], ◌∷◌, ◌++◌,
  nat_eq, if◌then◌else◌,
}
use gloam_macro_commands.Error.{Result, ok, err, no_async_runtime, command_scheduler_closed}
use gloam_macro_commands.Discord.{GatewayEvent}
use gloam_macro_commands.Builder.{FrameworkBuilder, build}
use gloam_macro_commands.Dispatch.{
  Framework, prepare_dispatch, PreparedCommand, PreparedAutocomplete, PreparedDispatch, ignored,
  unregistered, command, autocomplete,
}

-- The answers of `Semaphore::try_acquire_owned`.
pub data Acquired : Type 0 where
  permit no_permits closed : Acquired

-- One permit of the semaphore `a`, seen at the semaphore `b`.
abbrev pub one_at : ℕ → ℕ → ℕ
one_at a b = if nat_eq a b then 1 else 0

-- tokio's semaphores on a state `S`, with what tokio documents: a new one, at an address of its own,
-- has the permits it is created with and leaves the others as they are; an acquired permit is taken from its
-- semaphore and dropping a permit gives it back; a refused call takes nothing, and `NoPermits` is
-- answered only without permits.
pub record Semaphores (S : Type 0) : Type 0 where
  pub available_permits : ℕ → S → ℕ
  pub create : (address permits : ℕ) → S → S
  pub try_acquire : ℕ → S → S × Acquired
  pub release : ℕ → S → S
  pub created :
      (a n : ℕ) (s : S) (b : ℕ)
      → available_permits b (create a n s) ≡ (if nat_eq a b then n else available_permits b s)
  pub acquired :
      (a : ℕ) (s t : S)
      → try_acquire a s ≡ (t, permit)
      → (b : ℕ) → available_permits b t + one_at a b ≡ available_permits b s
  pub exhausted : (a : ℕ) (s t : S) → try_acquire a s ≡ (t, no_permits) → available_permits a s ≡ 0
  pub refused :
      (a : ℕ) (s t : S) (answer : Acquired)
      → try_acquire a s ≡ (t, answer)
      → (answer ≡ permit → ⊥)
      → (b : ℕ) → available_permits b t ≡ available_permits b s
  pub released :
      (a : ℕ) (s : S) (b : ℕ)
      → available_permits b (release a s) ≡ available_permits b s + one_at a b

-- The semaphore of a framework that was built.
unfoldable pub create_slots :
    {W S : Type 0}
    → Semaphores S
    → (address permits : ℕ) → S
    → Result (Framework W)
    → S × Result (Framework W)
create_slots semaphores address permits s (err e) = (s, err e)
create_slots semaphores address permits s (ok f) = (semaphores.create address permits s, ok f)

-- `FrameworkBuilder::build` with the semaphore that it creates for the framework's commands.
unfoldable pub build_slots :
    {W S : Type 0}
    → Semaphores S
    → FrameworkBuilder W
    → (command_slots : ℕ) → S
    → S × Result (Framework W)
unfolding build create_slots
build_slots semaphores b command_slots s =
    create_slots semaphores command_slots b.max_concurrent_commands s (build b command_slots)

-- A spawned future, with the permits that it holds until it ends.
pub record Task : Type 0 where
  pub command_name : String
  pub permits : List ℕ

pub data DispatchOutcome : Type 0 where
  outcome_ignored : DispatchOutcome
  outcome_unregistered : (name : String) → DispatchOutcome
  at_capacity : (name : String) → DispatchOutcome
  spawned : Task → DispatchOutcome

-- What the answer of `try_execute` means for the dispatch.
unfoldable pub outcome :
    {S : Type 0} → String → S × Result (Option (List ℕ)) → S × Result DispatchOutcome
outcome name (s, ok (some permits)) =
    (s, ok (spawned (record { command_name = name; permits = permits })))
outcome name (s, ok none) = (s, ok (at_capacity name))
outcome name (s, err e) = (s, err e)

module _ {S : Type 0} (semaphores : Semaphores S) where
  -- Dropping permits.
  unfoldable pub drop_permits : List ℕ → S → S
  drop_permits [] s = s
  drop_permits (a ∷ rest) s = drop_permits rest (semaphores.release a s)

  -- One `match` on `try_acquire_owned`, while `held` is held: an early return drops it.
  unfoldable pub match_acquired : ℕ → List ℕ → S × Acquired → S × Result (Option (List ℕ))
  unfolding drop_permits
  match_acquired a held (t, permit) = (t, ok (some (a ∷ held)))
  match_acquired a held (t, no_permits) = (drop_permits held t, ok none)
  match_acquired a held (t, closed) = (drop_permits held t, err command_scheduler_closed)

  unfoldable pub acquire_next : ℕ → List ℕ → S → S × Result (Option (List ℕ))
  unfolding match_acquired
  acquire_next a held s = match_acquired a held (semaphores.try_acquire a s)

  -- What follows the command's own permit.
  unfoldable pub acquire_global : ℕ → S × Result (Option (List ℕ)) → S × Result (Option (List ℕ))
  unfolding acquire_next
  acquire_global a (s, ok (some held)) = acquire_next a held s
  acquire_global a (s, ok none) = (s, ok none)
  acquire_global a (s, err e) = (s, err e)

  -- `PreparedCommand::try_execute`: the permits of the future, if it can start.
  unfoldable pub try_execute : Option ℕ → ℕ → S → S × Result (Option (List ℕ))
  unfolding acquire_global
  try_execute none command_slots s = acquire_global command_slots (s, ok (some []))
  try_execute (some policy_slots) command_slots s =
      acquire_global command_slots (acquire_next policy_slots [] s)

  -- `Handle::try_current` finds a runtime or not.
  unfoldable pub spawn_prepared :
      {W : Type 0} → (has_runtime : Bool) → PreparedDispatch W → S → S × Result DispatchOutcome
  unfolding try_execute outcome
  spawn_prepared has_runtime ignored s = (s, ok outcome_ignored)
  spawn_prepared has_runtime (unregistered name) s = (s, ok (outcome_unregistered name))
  spawn_prepared has_runtime (command p) s =
      if has_runtime
      then outcome p.command_name (try_execute p.policy.command_slots p.command_slots s)
      else (s, err no_async_runtime)
  spawn_prepared has_runtime (autocomplete p) s =
      if has_runtime
      then outcome p.command_name (try_execute none p.command_slots s)
      else (s, err no_async_runtime)

  -- `self.spawn_prepared(self.prepare_dispatch(…)?)`.
  unfoldable pub spawn_result :
      {W : Type 0} → Bool → Result (PreparedDispatch W) → S → S × Result DispatchOutcome
  unfolding spawn_prepared
  spawn_result has_runtime (ok p) s = spawn_prepared has_runtime p s
  spawn_result has_runtime (err e) s = (s, err e)

  -- `Framework::dispatch`, and `dispatch_shard` with a shard.
  unfoldable pub dispatch_event :
      {W : Type 0}
      → Framework W
      → (has_runtime : Bool) → GatewayEvent
      → (shard_id : Option ℕ) → (response_state : ℕ) → S
      → S × Result DispatchOutcome
  unfolding spawn_result
  dispatch_event framework has_runtime event shard_id response_state =
      spawn_result has_runtime (prepare_dispatch framework event shard_id response_state)
