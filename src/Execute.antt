-- ===== src/Execute.antt =====
-- crates/gloam-commands/src/{framework,lifecycle}.rs, `execute_command`: policy, before hooks,
-- handler, after hooks and the central error handler.
pub mod Lifecycle
pub mod Traces
use gloam_macro_commands.Common.{
  String, Bool, Option, none, some, List, [], ◌∷◌, ◌++◌, if◌then◌else◌,
}
use gloam_macro_commands.Error.{Error, Result, ok, err, is_ok}
use gloam_macro_commands.Exec.{Exec, pure, after, ◌>>=◌, ◌>>◌}
use gloam_macro_commands.Observability.{
  Observation, command_started, command_succeeded, command_failed, command_error_handled,
  command_error_handler_failed,
}
use gloam_macro_commands.Context.{Context}
use gloam_macro_commands.Policy.{CommandPolicy, Host, State, foreign, evaluate}
use gloam_macro_commands.Command.{CommandHandler}

abbrev pub CommandHook : Type 0 → Type 0
CommandHook W = Context → Exec W (Unit {0})

abbrev pub CommandErrorHandler : Type 0 → Type 0
CommandErrorHandler W = Context → Error → Exec W (Unit {0})

module _ {W : Type 0} where
  abbrev pub observe : Observation → State W → State W
  observe o s = record s { trace = s.trace ++ o ∷ [] }

  -- An error stops the later before hooks.
  unfoldable pub run_before : List (CommandHook W) → Context → Exec (State W) (Unit {0})
  run_before [] c = pure tt
  run_before (hook ∷ hooks) c = foreign (hook c) >> run_before hooks c

  -- Every after hook runs; `result` keeps the first error.
  unfoldable pub run_after :
      List (CommandHook W) → Context → Result (Unit {0}) → State W → State W × Result (Unit {0})
  run_after [] c result s = (s, result)
  run_after (hook ∷ hooks) c result s =
      let (s', hook_result) = foreign (hook c) s in
      run_after hooks c (if is_ok result then hook_result else result) s'

  unfoldable pub run_handler :
      CommandHandler W → List (CommandHook W) → Context → Exec (State W) (Unit {0})
  unfolding run_after
  run_handler handler after_hooks c s =
      let (s', result) = foreign (handler c) s in run_after after_hooks c result s'

  -- The inner `async` block.
  unfoldable pub run_pipeline :
      Host W
      → CommandHandler W
      → CommandPolicy W
      → Context
      → List (CommandHook W)
      → List (CommandHook W)
      → Exec (State W) (Unit {0})
  run_pipeline host handler policy c before_hooks after_hooks = do
    evaluate host policy c
    run_before before_hooks c
    run_handler handler after_hooks c

  -- What follows a failure.
  unfoldable pub handle_error :
      Option (CommandErrorHandler W) → Context → Error → Exec (State W) (Unit {0})
  handle_error none c error s = (s, err error)
  handle_error (some handler) c error s =
      let (s', result) = foreign (handler c error) s in
      (
        observe
            (if is_ok result
              then command_error_handled c.command_path
              else command_error_handler_failed c.command_path)
            s',
        result,
      )

  unfoldable pub finish :
      Option (CommandErrorHandler W)
      → Context
      → State W × Result (Unit {0})
      → State W × Result (Unit {0})
  unfolding handle_error
  finish error_handler c (s, ok tt) = (observe (command_succeeded c.command_path) s, ok tt)
  finish error_handler c (s, err error) =
      handle_error error_handler c error (observe (command_failed c.command_path) s)

  unfoldable pub execute_command :
      Host W
      → CommandHandler W
      → CommandPolicy W
      → Context
      → List (CommandHook W)
      → List (CommandHook W)
      → Option (CommandErrorHandler W)
      → Exec (State W) (Unit {0})
  unfolding run_pipeline finish
  execute_command host handler policy c before_hooks after_hooks error_handler s =
      finish error_handler c (
        run_pipeline host handler policy c before_hooks after_hooks
          (observe (command_started c.command_path) s))
