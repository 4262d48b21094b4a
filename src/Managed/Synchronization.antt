-- ===== src/Managed/Synchronization.antt =====
-- crates/gloam-commands/src/framework.rs, `drive_shards`: when the managed loop publishes the
-- commands.
use gloam_macro_commands.Common.{
  ℕ, ◌≤◌, ◌≡◌, refl, ap, subst, ◌∙◌, inl, inr, arith, String, Bool, true, false, Option, none, some,
  List, [], ◌∷◌, length, length-append, Bool-cases,
}
use gloam_macro_commands.Error.{Result, ok, err}
use gloam_macro_commands.Exec.{Exec, lift, after, ◌>>=◌}
use gloam_macro_commands.Discord.{GatewayEvent}
use gloam_macro_commands.Registration.{
  Registration, global, guild, unmanaged, CreateCommand, Overwrite, synchronize,
}
use gloam_macro_commands.Dispatch.{
  Framework, PreparedDispatch, ignored, unregistered, command, autocomplete, prepare_dispatch,
}
use gloam_macro_commands.Scheduling.{Semaphores, try_execute}
use gloam_macro_commands.Managed.{
  Joined, Round, Managed, is_unmanaged, ready_application_id, reap_completed_commands,
  synchronize_once, synchronize_ready, spawn_if_started, execute_prepared, handle_event,
  drive_round, drive_rounds, drive_shards,
}
use gloam_macro_commands.Managed.Announcements.{
  announced, announced_event, announced_lem, published, announced_by, first_ready, or_else-nil,
  Keeps, Announces, refuses, passes, done, then-Announces, keeps-Announces,
}

module _ {W V S B : Type 0} (semaphores : Semaphores S) (from : CreateCommand → B)
    (rest : Overwrite B → Exec V (List ℕ)) (framework : Framework W) where
  spawn-Keeps :
      (name : String) (r : S × Result (Option (List ℕ))) (m : Managed V S)
      → Keeps m (spawn_if_started semaphores from rest framework name r m).0
  unfolding spawn_if_started
  spawn-Keeps name (s, ok (some permits)) m = (refl, refl)
  spawn-Keeps name (s, ok none) m = (refl, refl)
  spawn-Keeps name (s, err e) m = (refl, refl)

  execute-Keeps :
      (p : PreparedDispatch W) (m : Managed V S)
      → Keeps m (execute_prepared semaphores from rest framework p m).0
  unfolding execute_prepared
  execute-Keeps ignored m = (refl, refl)
  execute-Keeps (unregistered name) m = (refl, refl)
  execute-Keeps (command p) m =
      spawn-Keeps p.command_name
        (try_execute semaphores p.policy.command_slots p.command_slots m.slots) m
  execute-Keeps (autocomplete p) m =
      spawn-Keeps p.command_name (try_execute semaphores none p.command_slots m.slots) m

  synchronize_ready-Announces :
      (application_id : ℕ) (m : Managed V S)
      → m.synchronized ≡ false
      → Announces
          (application_id ∷ [])
          m
          (synchronize_ready semaphores from rest framework (some application_id) m)
  unfolding synchronize_ready
  synchronize_ready-Announces application_id m f =
      by_answer
        (synchronize from rest framework.registration application_id framework.registry m.world).1
        refl
    where
      by_answer :
          (r : Result (List ℕ))
          → (synchronize from rest framework.registration application_id framework.registry
              m.world).1
            ≡ r
          → Announces
              (application_id ∷ [])
              m
              (synchronize_ready semaphores from rest framework (some application_id) m)
      by_answer (ok answer) e = rw e record {
        settled = λ h. cc;
        bounded =
            λ _. let l = length-append m.synchronizations (application_id ∷ []) in omega arith;
        exact = λ _ _. (refl, refl);
      }
      by_answer (err x) e = rw e record {
        settled = λ h. cc;
        bounded =
            λ _. let l = length-append m.synchronizations (application_id ∷ []) in omega arith;
        exact = λ _ h. cc;
      }

  synchronize_once-Announces :
      (event : GatewayEvent) (m : Managed V S) (b : Bool)
      → m.synchronized ≡ b
      → Announces
          (announced (ready_application_id event))
          m
          (synchronize_once semaphores from rest framework b event m)
  unfolding synchronize_once
  synchronize_once-Announces event m true h = done _ m h
  synchronize_once-Announces event m false h = by_ready (ready_application_id event)
    where
      by_ready :
          (r : Result (Option ℕ))
          → Announces (announced r) m (
              after {S = Managed V S}
                (m, r)
                (λ application_id. synchronize_ready semaphores from rest framework application_id))
      by_ready (err e) = refuses [] m e
      by_ready (ok none) = passes m
      by_ready (ok (some application_id)) = synchronize_ready-Announces application_id m h

  handle_event-Announces :
      (event : GatewayEvent) (shard_id response_state : ℕ) (m : Managed V S)
      → Announces
          (announced (ready_application_id event))
          m
          (handle_event semaphores from rest framework event shard_id response_state m)
  unfolding handle_event
  handle_event-Announces event shard_id response_state m =
      let first = synchronize_once semaphores from rest framework m.synchronized event m in
      subst
        (λ ids.
          Announces ids m
            (handle_event semaphores from rest framework event shard_id response_state m))
        (or_else-nil _)
        (then-Announces (announced (ready_application_id event)) [] m first _
          (synchronize_once-Announces event m m.synchronized refl)
          (spawns first.0 (prepare_dispatch framework event (some shard_id) response_state)))
    where
      spawns :
          (m : Managed V S) (r : Result (PreparedDispatch W))
          → Announces [] m
              (after {S = Managed V S} (m, r) (execute_prepared semaphores from rest framework))
      spawns m (ok p) = keeps-Announces m _ (execute-Keeps p m)
      spawns m (err e) = refuses [] m e

  drive_round-Announces :
      (round : Round) (m : Managed V S)
      → Announces (announced_by round) m (drive_round semaphores from rest framework round m)
  unfolding drive_round
  drive_round-Announces round m = reaped (reap_completed_commands round.completed)
    where
      delivered :
          (r : Result GatewayEvent)
          → Announces
              (elim r [ err e ↦ [] | ok event ↦ announced_event event ])
              m
              (after {S = Managed V S}
                (m, r)
                (λ event.
                  handle_event semaphores from rest framework event round.shard_id
                    round.response_state))
      delivered (ok event) =
          subst
            (λ ids. Announces ids m (
              handle_event semaphores from rest framework event round.shard_id round.response_state
                m))
            (announced_lem event)
            (handle_event-Announces event round.shard_id round.response_state m)
      delivered (err e) = refuses [] m e

      reaped :
          (r : Result (Unit {0}))
          → Announces (announced_by round) m (
              after {S = Managed V S}
                (m, r)
                (λ _. lift round.event >>= λ event.
                  handle_event semaphores from rest framework event round.shard_id
                    round.response_state))
      reaped (ok tt) = delivered round.event
      reaped (err e) = refuses (announced_by round) m e

  drive_rounds-Announces :
      (rounds : List Round) (completed : List Joined) (m : Managed V S)
      → Announces
          (first_ready rounds)
          m
          (drive_rounds semaphores from rest framework rounds completed m)
  unfolding drive_rounds
  drive_rounds-Announces [] completed m = by_end (reap_completed_commands completed)
    where
      by_end : (r : Result (Unit {0})) → Announces [] m (m, r)
      by_end (ok tt) = passes m
      by_end (err e) = refuses [] m e
  drive_rounds-Announces (round ∷ rounds) completed m =
      then-Announces (announced_by round) (first_ready rounds) m
        (drive_round semaphores from rest framework round m) _ (drive_round-Announces round m)
        (drive_rounds-Announces rounds completed _)

  abbrev begin : V → S → Managed V S
  begin world slots = record {
    world = world;
    slots = slots;
    commands = [];
    synchronized = is_unmanaged framework.registration;
    synchronizations = [];
  }

  -- The managed loop synchronizes the commands at most once, whatever is delivered and however it
  -- ends.
  pub drive_shards-once :
      (rounds : List Round) (completed : List Joined) (world : V) (slots : S)
      → length
          (drive_shards semaphores from rest framework rounds completed world
            slots).0.synchronizations
        ≤ 1
  unfolding drive_shards
  drive_shards-once rounds completed world slots =
      let whole = drive_rounds-Announces rounds completed (begin world slots) in
      elim (Bool-cases (is_unmanaged framework.registration)) [
        | inl off ↦
            let none_made = (whole.settled off).1 in omega (arith, ap (λ l. length l) none_made)
        | inr on ↦ whole.bounded on
      ]

  -- A managed loop that ends without an error has synchronized the commands for the application of
  -- the first READY event that was delivered, and not at all without one or where registration is
  -- left to others.
  pub drive_shards-synchronizations :
      (rounds : List Round) (completed : List Joined) (world : V) (slots : S)
      → (drive_shards semaphores from rest framework rounds completed world slots).1 ≡ ok tt
      → (drive_shards semaphores from rest framework rounds completed world
          slots).0.synchronizations
        ≡ published framework.registration (first_ready rounds)
  unfolding drive_shards
  drive_shards-synchronizations rounds completed world slots e =
      let whole = drive_rounds-Announces rounds completed (begin world slots) in
      elim (Bool-cases (is_unmanaged framework.registration)) [
        | inl off ↦ (whole.settled off).1 ∙ nothing framework.registration off
        | inr on ↦ (whole.exact on e).0 ∙ everything framework.registration on
      ]
    where
      nothing : (r : Registration) → is_unmanaged r ≡ true → [] ≡ published r (first_ready rounds)
      nothing unmanaged off = refl
      nothing global off = cc
      nothing (guild id) off = cc

      everything :
          (r : Registration)
          → is_unmanaged r ≡ false
          → first_ready rounds ≡ published r (first_ready rounds)
      everything unmanaged on = cc
      everything global on = refl
      everything (guild id) on = refl
