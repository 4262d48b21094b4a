-- ===== src/Builder.antt =====
-- crates/gloam-commands/src/framework.rs, `FrameworkBuilder`: settings and commands, and the framework
-- made of them.
pub mod Contents
use gloam_macro_commands.Common.{
  ℕ, zero, suc, String, Bool, true, false, ◌&&◌, Option, none, some, List, [], ◌∷◌, ◌++◌, find,
  get_elem?, str_eq, join, if◌then◌else◌,
}
use gloam_macro_commands.Error.{
  Result, ok, err, ◌>>=◌, or_fail, missing_application_command_data, unknown_command_path,
  unknown_autocomplete_option, invalid_concurrency_limit,
}
use gloam_macro_commands.Discord.{
  OptionType, same_type, InteractionOption, option_name, option_kind, CommandType, chat_input,
  other_command, InteractionType, application_command, application_command_autocomplete,
  other_interaction, CommandData, Interaction, TypedEvent, interaction_create, GatewayEvent,
  dispatch, other_gateway_event,
}
use gloam_macro_commands.Context.{Context, AutocompleteContext}
use gloam_macro_commands.Policy.{CommandPolicy}
use gloam_macro_commands.Descriptor.{CommandOptionDescriptor}
use gloam_macro_commands.Command.{
  CommandHandler, AutocompleteHandler, SlashCommand, descriptor, handler, policy,
  autocomplete_handler,
}
use gloam_macro_commands.Execute.{CommandHook, CommandErrorHandler}
use gloam_macro_commands.Registry.{CommandRegistry, new, insert, get}
use gloam_macro_commands.Registration.{Registration, unmanaged}
use gloam_macro_commands.Resolve.{ResolvedCommand, resolve_command, focused_option_index}
use gloam_macro_commands.Dispatch.{Framework}

pub record FrameworkBuilder (W : Type 0) : Type 0 where
  pub commands : List (SlashCommand W)
  pub registration : Registration
  pub max_concurrent_commands : ℕ
  pub before_hooks : List (CommandHook W)
  pub after_hooks : List (CommandHook W)
  pub error_handler : Option (CommandErrorHandler W)

abbrev pub default_max_concurrent_commands : ℕ
default_max_concurrent_commands = 64

module _ {W : Type 0} where
  unfoldable pub builder : FrameworkBuilder W
  builder = record {
    commands = [];
    registration = unmanaged;
    max_concurrent_commands = default_max_concurrent_commands;
    before_hooks = [];
    after_hooks = [];
    error_handler = none;
  }

  unfoldable pub add_command : FrameworkBuilder W → SlashCommand W → FrameworkBuilder W
  add_command b c = record b { commands = b.commands ++ c ∷ [] }

  unfoldable pub add_commands : FrameworkBuilder W → List (SlashCommand W) → FrameworkBuilder W
  add_commands b cs = record b { commands = b.commands ++ cs }

  unfoldable pub set_registration : FrameworkBuilder W → Registration → FrameworkBuilder W
  set_registration b registration = record b { registration = registration }

  unfoldable pub set_max_concurrent_commands : FrameworkBuilder W → ℕ → FrameworkBuilder W
  set_max_concurrent_commands b limit = record b { max_concurrent_commands = limit }

  unfoldable pub before_command : FrameworkBuilder W → CommandHook W → FrameworkBuilder W
  before_command b hook = record b { before_hooks = b.before_hooks ++ hook ∷ [] }

  unfoldable pub after_command : FrameworkBuilder W → CommandHook W → FrameworkBuilder W
  after_command b hook = record b { after_hooks = b.after_hooks ++ hook ∷ [] }

  unfoldable pub command_error_handler :
      FrameworkBuilder W → CommandErrorHandler W → FrameworkBuilder W
  command_error_handler b h = record b { error_handler = some h }

  unfoldable pub insert_all : CommandRegistry W → List (SlashCommand W) → Result (CommandRegistry W)
  insert_all registry [] = ok registry
  insert_all registry (c ∷ cs) = do registry' ← insert registry c; insert_all registry' cs

  -- `command_slots` is the address of the new semaphore.
  unfoldable pub build : FrameworkBuilder W → (command_slots : ℕ) → Result (Framework W)
  unfolding insert_all
  build b command_slots = elim b.max_concurrent_commands [
    | zero ↦ err invalid_concurrency_limit
    | suc limit ↦ do
      registry ← insert_all new b.commands
      ok (record {
        registry = registry;
        registration = b.registration;
        max_concurrent_commands = suc limit;
        command_slots = command_slots;
        before_hooks = b.before_hooks;
        after_hooks = b.after_hooks;
        error_handler = b.error_handler;
      })
  ]
