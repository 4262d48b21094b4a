-- ===== src/Tests/Policies.antt =====
-- Runs of a policy, its cooldown, and the lifecycle of a command.
use gloam_macro_commands.Common.{◌≡◌, refl, ◌↔◌, arith, true, none, some, [], ◌∷◌, ◌++◌}
use gloam_macro_commands.Error.{ok, err, command_context_not_allowed}
use gloam_macro_commands.Discord.{bot_dm}
use gloam_macro_commands.Observability.{command_started}
use gloam_macro_commands.Context.{Context}
use gloam_macro_commands.Policy.{admit, evaluate}
use gloam_macro_commands.Policy.Eligibility.{IsEligible}
use gloam_macro_commands.Policy.Evaluation.{evaluate_iff}
use gloam_macro_commands.Policy.Reservation.{evaluate-err_cooldowns}
use gloam_macro_commands.Policy.Cooldown.Spacing.{grants, spaced, grants-eq-spaced, stale_instant}
use gloam_macro_commands.Execute.{observe, run_pipeline, execute_command}
use gloam_macro_commands.Execute.Lifecycle.{
  IsStarted, start, world_after_all, first_error, results, run_pipeline_started,
  execute_command-not_started,
}
use gloam_macro_commands.Execute.Traces.{ending, execute_command-trace}
use gloam_macro_commands.Tests.Fixtures.{
  host, succeed, plain_policy, strict_policy, interaction, context, initial,
}

evaluate_iff_example :
    ((evaluate host strict_policy context initial).1 ≡ ok tt)
    ↔ IsEligible host strict_policy context initial
evaluate_iff_example = evaluate_iff host strict_policy context initial

-- The same invocation from a direct message.
abbrev outside : Context
outside = record context { interaction = record interaction { context = some bot_dm } }

outside_denied :
    (evaluate host strict_policy outside initial).1
    ≡ err (command_context_not_allowed "admin config set")
unfolding evaluate admit
outside_denied = refl

evaluate-err_cooldowns_example :
    (evaluate host strict_policy outside initial).0.cooldowns 1 ≡ initial.cooldowns 1
evaluate-err_cooldowns_example =
    evaluate-err_cooldowns host strict_policy outside initial
      (command_context_not_allowed "admin config set") 1 outside_denied

grants-eq-spaced_example :
    grants "ping" 5 [] ((7, 1) ∷ (8, 2) ∷ (7, 3) ∷ (7, 6) ∷ [])
    ≡ spaced 5 [] ((7, 1) ∷ (8, 2) ∷ (7, 3) ∷ (7, 6) ∷ [])
grants-eq-spaced_example =
    grants-eq-spaced "ping" 5 ((7, 1) ∷ (8, 2) ∷ (7, 3) ∷ (7, 6) ∷ [])
      (omega arith, (omega arith, (omega arith, (omega arith, tt))))

stale_instant_example : grants "ping" 5 [] ((7, 0) ∷ (8, 6) ∷ (7, 2) ∷ []) ≡ true ∷ true ∷ true ∷ []
stale_instant_example =
    stale_instant "ping" 5 7 8 0 6 2 (λ e. omega (arith, e)) (omega arith) (omega arith)
      (omega arith)

plain_IsStarted : IsStarted host plain_policy context (succeed ∷ []) initial
unfolding evaluate admit
plain_IsStarted = record { permitted = refl; hooked = (refl, tt) }

run_pipeline_started_example :
    run_pipeline host succeed plain_policy context (succeed ∷ []) (succeed ∷ []) initial ≡ (
      record (start host plain_policy context (succeed ∷ []) initial) {
        world =
            world_after_all
              (succeed ∷ succeed ∷ [])
              context
              (start host plain_policy context (succeed ∷ []) initial).world;
      },
      first_error (
          results
            (succeed ∷ succeed ∷ [])
            context
            (start host plain_policy context (succeed ∷ []) initial).world),
    )
run_pipeline_started_example =
    run_pipeline_started host plain_policy context (succeed ∷ []) succeed (succeed ∷ []) initial
      plain_IsStarted

outside_refused :
    ¬ IsStarted host strict_policy outside []
      (observe (command_started ("admin" ∷ "config" ∷ "set" ∷ [])) initial)
unfolding evaluate admit
outside_refused started = let e = started.permitted in cc

execute_command-not_started_example :
    execute_command host succeed strict_policy outside [] [] none initial
    ≡ execute_command host (λ c w. (w, ok tt)) strict_policy outside [] (succeed ∷ []) none initial
execute_command-not_started_example =
    execute_command-not_started host strict_policy outside [] succeed (λ c w. (w, ok tt)) []
      (succeed ∷ []) none initial outside_refused

execute_command-trace_example :
    ((execute_command host succeed plain_policy context [] [] none initial).0.trace
      ≡ ([] ++ command_started context.command_path ∷ [])
        ++ (ending context
            (run_pipeline host succeed plain_policy context [] []
              (observe (command_started context.command_path) initial)).1
            none).0)
    × ((execute_command host succeed plain_policy context [] [] none initial).1
        ≡ (ending context
            (run_pipeline host succeed plain_policy context [] []
              (observe (command_started context.command_path) initial)).1
            none).1)
execute_command-trace_example =
    execute_command-trace context host succeed plain_policy [] [] none initial
