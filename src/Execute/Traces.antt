-- ===== src/Execute/Traces.antt =====
-- crates/gloam-commands/src/framework.rs, `execute_command`: the records that one execution emits
-- and its result, on every branch.
use gloam_macro_commands.Common.{
  ◌≡◌, refl, inl, inr, Option, none, some, List, [], ◌∷◌, ◌++◌, arith,
}
use mathlib.Core.List.{append_assoc}
use gloam_macro_commands.Error.{Result, ok, err, Result-cases}
use gloam_macro_commands.Observability.{
  Observation, command_started, command_succeeded, command_failed, command_error_handled,
  command_error_handler_failed,
}
use gloam_macro_commands.Context.{Context}
use gloam_macro_commands.Policy.{CommandPolicy, Host, State, evaluate}
use gloam_macro_commands.Policy.Reservation.{evaluate-trace}
use gloam_macro_commands.Command.{CommandHandler}
use gloam_macro_commands.Execute.{
  CommandHook, CommandErrorHandler, observe, run_before, run_after, run_handler, run_pipeline,
  finish, execute_command,
}

-- How an execution ends, from the result of the pipeline and, where an error handler is
-- configured, from the handler's: the records, and the result of the command's task.
abbrev pub ending :
    Context → Result (Unit {0}) → Option (Result (Unit {0})) → List Observation × Result (Unit {0})
ending c (ok _) handled = (command_succeeded c.command_path ∷ [], ok tt)
ending c (err e) none = (command_failed c.command_path ∷ [], err e)
ending c (err e) (some (ok _)) =
    (command_failed c.command_path ∷ command_error_handled c.command_path ∷ [], ok tt)
ending c (err e) (some (err e')) =
    (command_failed c.command_path ∷ command_error_handler_failed c.command_path ∷ [], err e')

module _ {W : Type 0} (c : Context) where
  run_before-trace :
      (hs : List (CommandHook W)) (s : State W) → (run_before hs c s).0.trace ≡ s.trace
  unfolding run_before
  run_before-trace [] s = refl
  run_before-trace (h ∷ hs) s =
      ground (arith, run_before-trace hs (record s { world = (h c s.world).0 }))

  run_after-trace :
      (hs : List (CommandHook W)) (r : Result (Unit {0})) (s : State W)
      → (run_after hs c r s).0.trace ≡ s.trace
  unfolding run_after
  run_after-trace [] r s = refl
  run_after-trace (h ∷ hs) r s = run_after-trace hs _ (record s { world = (h c s.world).0 })

  run_pipeline-trace :
      (host : Host W) (handler : CommandHandler W) (policy : CommandPolicy W)
      (before_hooks after_hooks : List (CommandHook W)) (s : State W)
      → (run_pipeline host handler policy c before_hooks after_hooks s).0.trace ≡ s.trace
  unfolding run_pipeline run_handler
  run_pipeline-trace host handler policy before_hooks after_hooks s =
      let s' = (evaluate host policy c s).0 in
      let s'' = (run_before before_hooks c s').0 in
      ground (
        arith,
        evaluate-trace host policy c s,
        run_before-trace before_hooks s',
        run_after-trace after_hooks (handler c s''.world).1
            (record s'' { world = (handler c s''.world).0 }),
      )

  -- What the configured error handler answers to the error in the world that the pipeline left.
  abbrev pub answer :
      Option (CommandErrorHandler W) → W → Result (Unit {0}) → Option (Result (Unit {0}))
  answer none w r = none
  answer (some h) w (ok _) = none
  answer (some h) w (err e) = some (h c e w).1

  finish_lem :
      (error_handler : Option (CommandErrorHandler W)) (done : State W × Result (Unit {0}))
      (base : List Observation)
      → done.0.trace ≡ base
      → let end = ending c done.1 (answer error_handler done.0.world done.1) in
        ((finish error_handler c done).0.trace ≡ base ++ end.0)
        × ((finish error_handler c done).1 ≡ end.1)
  unfolding finish
  finish_lem none (s, ok tt) base h = (rw h, refl)
  finish_lem (some k) (s, ok tt) base h = (rw h, refl)
  finish_lem none (s, err e) base h = (rw h, refl)
  finish_lem (some k) (s, err e) base h = elim (Result-cases (k c e s.world).1) [
    | inl good ↦ rw (good, h) (append_assoc base _ _, refl)
    | inr (e', bad) ↦ rw (bad, h) (append_assoc base _ _, refl)
  ]

  -- An execution emits the start of the command, then exactly one ending: success, failure, or
  -- failure followed by the outcome of the error handler, which also decides the result; no policy,
  -- hook or handler adds a record.
  pub execute_command-trace :
      (host : Host W) (handler : CommandHandler W) (policy : CommandPolicy W)
      (before_hooks after_hooks : List (CommandHook W))
      (error_handler : Option (CommandErrorHandler W)) (s : State W)
      → let done =
          run_pipeline host handler policy c before_hooks after_hooks
            (observe (command_started c.command_path) s) in
        let end = ending c done.1 (answer error_handler done.0.world done.1) in
        let result =
          execute_command host handler policy c before_hooks after_hooks error_handler s in
        (result.0.trace ≡ (s.trace ++ command_started c.command_path ∷ []) ++ end.0)
        × (result.1 ≡ end.1)
  unfolding execute_command
  execute_command-trace host handler policy before_hooks after_hooks error_handler s =
      let s' = observe (command_started c.command_path) s in
      finish_lem error_handler (run_pipeline host handler policy c before_hooks after_hooks s')
        s'.trace (run_pipeline-trace host handler policy before_hooks after_hooks s')
