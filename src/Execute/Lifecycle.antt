-- ===== src/Execute/Lifecycle.antt =====
-- crates/gloam-commands/src/framework.rs, `execute_command`: which hooks run, and which error is
-- kept.
use gloam_macro_commands.Common.{◌≡◌, refl, sym, ap, ◌∙◌, inl, inr, Option, List, [], ◌∷◌}
use gloam_macro_commands.Error.{Result, ok, err, Result-cases}
use gloam_macro_commands.Exec.{after_iff, after_ok, after_err, ◌>>◌}
use gloam_macro_commands.Observability.{command_started}
use gloam_macro_commands.Context.{Context}
use gloam_macro_commands.Policy.{CommandPolicy, Host, State, foreign, evaluate}
use gloam_macro_commands.Command.{CommandHandler}
use gloam_macro_commands.Execute.{
  CommandHook, CommandErrorHandler, observe, run_before, run_after, run_handler, run_pipeline,
  finish, execute_command,
}

-- The specification of a sequence of hooks that all run: the last world, and the first error.
module _ {W : Type 0} where
  abbrev pub world_after_all : List (CommandHook W) → Context → W → W
  world_after_all [] c w = w
  world_after_all (h ∷ hs) c w = world_after_all hs c (h c w).0

  abbrev pub results : List (CommandHook W) → Context → W → List (Result (Unit {0}))
  results [] c w = []
  results (h ∷ hs) c w = (h c w).1 ∷ results hs c (h c w).0

abbrev pub first_error : List (Result (Unit {0})) → Result (Unit {0})
first_error [] = ok tt
first_error (ok _ ∷ rs) = first_error rs
first_error (err e ∷ rs) = err e

module _ {W : Type 0} where
  run_after_lem :
      (hs : List (CommandHook W)) (c : Context) (r : Result (Unit {0})) (s : State W)
      → run_after hs c r s ≡ (
        record s { world = world_after_all hs c s.world },
        first_error (r ∷ results hs c s.world),
      )
  unfolding run_after
  run_after_lem [] c (ok tt) s = refl
  run_after_lem [] c (err e) s = refl
  run_after_lem (h ∷ hs) c (ok tt) s =
      run_after_lem hs c (h c s.world).1 (record s { world = (h c s.world).0 })
  run_after_lem (h ∷ hs) c (err e) s =
      run_after_lem hs c (err e) (record s { world = (h c s.world).0 })

  -- Each hook in turn succeeds.
  abbrev pub AllOk : List (CommandHook W) → Context → W → Type 0
  AllOk [] c w = Unit {0}
  AllOk (h ∷ hs) c w = ((h c w).1 ≡ ok tt) × AllOk hs c (h c w).0

  run_before_passed :
      (hs : List (CommandHook W)) (c : Context) (s : State W)
      → AllOk hs c s.world
      → run_before hs c s ≡ (record s { world = world_after_all hs c s.world }, ok tt)
  unfolding run_before
  run_before_passed [] c s h = refl
  run_before_passed (k ∷ hs) c s (now, later) =
      rw now (run_before_passed hs c (record s { world = (k c s.world).0 }) later)

  run_before_sound :
      (hs : List (CommandHook W)) (c : Context) (s : State W)
      → (run_before hs c s).1 ≡ ok tt
      → AllOk hs c s.world
  unfolding run_before
  run_before_sound [] c s e = tt
  run_before_sound (k ∷ hs) c s e =
      let (now, later) = (after_iff (foreign (k c) s) (λ _. run_before hs c) tt).0 e in
      (now, run_before_sound hs c (record s { world = (k c s.world).0 }) later)

  module _ (host : Host W) (policy : CommandPolicy W) (c : Context)
      (before_hooks : List (CommandHook W)) where
    -- The policy lets the invocation through and every before hook succeeds.
    pub record IsStarted (s : State W) : Type 0 where
      pub permitted : (evaluate host policy c s).1 ≡ ok tt
      pub hooked : AllOk before_hooks c (evaluate host policy c s).0.world

    -- The state in which the handler starts.
    abbrev pub start : State W → State W
    start s =
        let s' = (evaluate host policy c s).0 in
        record s' { world = world_after_all before_hooks c s'.world }

    -- Where the policy and the before hooks let it, the handler runs and after it every after hook,
    -- each in the world that the one before it left; the result is the first error among theirs.
    pub run_pipeline_started :
        (handler : CommandHandler W) (after_hooks : List (CommandHook W)) (s : State W)
        → IsStarted s
        → run_pipeline host handler policy c before_hooks after_hooks s ≡ (
          record (start s) { world = world_after_all (handler ∷ after_hooks) c (start s).world },
          first_error (results (handler ∷ after_hooks) c (start s).world),
        )
    unfolding run_pipeline run_handler
    run_pipeline_started handler after_hooks s h =
        let s' = (evaluate host policy c s).0 in
        after_ok (evaluate host policy c s)
          (λ _. run_before before_hooks c >> run_handler handler after_hooks c) h.permitted
        ∙ rw (run_before_passed before_hooks c s' h.hooked) (
            run_after_lem after_hooks c (handler c (start s).world).1
              (record s' { world = (handler c (start s).world).0 }))

    run_pipeline-not_started :
        (handler handler' : CommandHandler W) (after_hooks after_hooks' : List (CommandHook W))
        (s : State W)
        → ¬ IsStarted s
        → run_pipeline host handler policy c before_hooks after_hooks s
          ≡ run_pipeline host handler' policy c before_hooks after_hooks' s
    unfolding run_pipeline
    run_pipeline-not_started handler handler' after_hooks after_hooks' s h =
        let s' = (evaluate host policy c s).0 in
        let rest = λ (f : CommandHandler W) (hs : List (CommandHook W)) (u : Unit {0}).
          run_before before_hooks c >> run_handler f hs c in
        elim (Result-cases (evaluate host policy c s).1) [
          | inr (e, denied) ↦
              after_err (evaluate host policy c s) (rest handler after_hooks) e denied
              ∙ sym (after_err (evaluate host policy c s) (rest handler' after_hooks') e denied)
          | inl permitted ↦ elim (Result-cases (run_before before_hooks c s').1) [
            | inl hooked ↦ absurd (
                h (record {
                  permitted = permitted;
                  hooked = run_before_sound before_hooks c s' hooked;
                }))
            | inr (e, failed) ↦
                after_ok (evaluate host policy c s) (rest handler after_hooks) permitted
                ∙ after_err (run_before before_hooks c s') (λ _. run_handler handler after_hooks c)
                    e failed
                ∙ sym (
                    after_err (run_before before_hooks c s')
                      (λ _. run_handler handler' after_hooks' c) e failed)
                ∙ sym (after_ok (evaluate host policy c s) (rest handler' after_hooks') permitted)
          ]
        ]

    -- Otherwise neither the handler nor an after hook runs: the whole execution is the same
    -- whichever they are.
    pub execute_command-not_started :
        (handler handler' : CommandHandler W) (after_hooks after_hooks' : List (CommandHook W))
        (error_handler : Option (CommandErrorHandler W)) (s : State W)
        → ¬ IsStarted (observe (command_started c.command_path) s)
        → execute_command host handler policy c before_hooks after_hooks error_handler s
          ≡ execute_command host handler' policy c before_hooks after_hooks' error_handler s
    unfolding execute_command
    execute_command-not_started handler handler' after_hooks after_hooks' error_handler s h =
        ap (finish error_handler c) (
          run_pipeline-not_started handler handler' after_hooks after_hooks'
            (observe (command_started c.command_path) s) h)
