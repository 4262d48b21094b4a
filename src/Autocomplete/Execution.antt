-- ===== src/Autocomplete/Execution.antt =====
-- crates/gloam-commands/src/framework.rs, `execute_autocomplete`: the handler of an option, and the
-- response that carries its choices.
use gloam_macro_commands.Common.{ℕ}
use gloam_macro_commands.Exec.{Exec, pure, lift, ◌>>=◌}
use gloam_macro_commands.Discord.{
  OptionType, Request, create_interaction_response, autocomplete_result,
}
use gloam_macro_commands.Context.{AutocompleteContext}
use gloam_macro_commands.Command.{AutocompleteHandler}
use gloam_macro_commands.Autocomplete.{autocomplete_response_choices}

-- `rest` is the REST client.
unfoldable pub execute_autocomplete :
    {W : Type 0}
    → (Request → Exec W ℕ)
    → OptionType
    → AutocompleteHandler W
    → AutocompleteContext
    → Exec W (Unit {0})
execute_autocomplete rest kind handler context = do
  returned ← handler context
  choices ← lift (autocomplete_response_choices kind returned)
  rest (
        create_interaction_response context.interaction.id context.interaction.token
          (autocomplete_result choices))
      >>= λ _. pure tt
