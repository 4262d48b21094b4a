-- ===== src/Dispatch.antt =====
-- crates/gloam-commands/src/framework.rs: the framework, and the routing of one Gateway event to a
-- command or an autocomplete handler.
pub mod Routing
pub mod Origins
pub mod Slots
pub mod Completion
use gloam_macro_commands.Common.{
  ℕ, zero, suc, String, Bool, true, false, ◌&&◌, Option, none, some, List, [], ◌∷◌, ◌++◌, find,
  get_elem?, str_eq, join, if◌then◌else◌,
}
use gloam_macro_commands.Error.{
  Result, ok, err, ◌>>=◌, or_fail, missing_application_command_data, unknown_command_path,
  unknown_autocomplete_option, invalid_concurrency_limit,
}
use gloam_macro_commands.Discord.{
  OptionType, same_type, InteractionOption, option_name, option_kind, CommandType, chat_input,
  other_command, InteractionType, application_command, application_command_autocomplete,
  other_interaction, CommandData, Interaction, TypedEvent, interaction_create, GatewayEvent,
  dispatch, other_gateway_event,
}
use gloam_macro_commands.Context.{Context, AutocompleteContext}
use gloam_macro_commands.Policy.{CommandPolicy}
use gloam_macro_commands.Descriptor.{CommandOptionDescriptor}
use gloam_macro_commands.Command.{
  CommandHandler, AutocompleteHandler, SlashCommand, descriptor, handler, policy,
  autocomplete_handler,
}
use gloam_macro_commands.Execute.{CommandHook, CommandErrorHandler}
use gloam_macro_commands.Registry.{CommandRegistry, new, insert, get}
use gloam_macro_commands.Registration.{Registration, unmanaged}
use gloam_macro_commands.Resolve.{ResolvedCommand, resolve_command, focused_option_index}

-- The semaphore of the execution slots stands at the address `command_slots`.
pub record Framework (W : Type 0) : Type 0 where
  pub registry : CommandRegistry W
  pub registration : Registration
  pub max_concurrent_commands : ℕ
  pub command_slots : ℕ
  pub before_hooks : List (CommandHook W)
  pub after_hooks : List (CommandHook W)
  pub error_handler : Option (CommandErrorHandler W)

pub record PreparedCommand (W : Type 0) : Type 0 where
  pub command_name : String
  pub handler : CommandHandler W
  pub policy : CommandPolicy W
  pub context : Context
  pub command_slots : ℕ
  pub before_hooks : List (CommandHook W)
  pub after_hooks : List (CommandHook W)
  pub error_handler : Option (CommandErrorHandler W)

pub record PreparedAutocomplete (W : Type 0) : Type 0 where
  pub command_name : String
  pub option_kind : OptionType
  pub handler : AutocompleteHandler W
  pub context : AutocompleteContext
  pub command_slots : ℕ

pub data PreparedDispatch (W : Type 0) : Type 0 where
  ignored : PreparedDispatch W
  unregistered : (name : String) → PreparedDispatch W
  command : PreparedCommand W → PreparedDispatch W
  autocomplete : PreparedAutocomplete W → PreparedDispatch W

-- The option that the focused one was registered as.
abbrev pub completes_option : InteractionOption → CommandOptionDescriptor → Bool
completes_option focused o =
    str_eq o.name (option_name focused)
    && (same_type o.kind (option_kind focused) && o.autocomplete)

abbrev pub is_chat_input : CommandType → Bool
is_chat_input chat_input = true
is_chat_input (other_command n) = false

abbrev pub is_command_interaction : InteractionType → Bool
is_command_interaction application_command = true
is_command_interaction application_command_autocomplete = true
is_command_interaction (other_interaction n) = false

module _ {W : Type 0} where
  -- The branch for an autocomplete interaction. Indexing `resolved.options` out of range would panic
  -- and has an error here; `focused_option_index` returns indices in range.
  unfoldable pub prepare_autocomplete :
      Framework W
      → Interaction
      → CommandData
      → ResolvedCommand W
      → Option ℕ
      → Result (PreparedDispatch W)
  prepare_autocomplete framework interaction command_data resolved shard_id = do
    focused_index ← focused_option_index resolved.options resolved.path
    focused ←
        or_fail (get_elem? resolved.options focused_index)
          (unknown_autocomplete_option (join resolved.path) "")
    option_descriptor ←
        or_fail (find (completes_option focused) (descriptor resolved.command).options)
          (unknown_autocomplete_option (join resolved.path) (option_name focused))
    handler ←
        or_fail (autocomplete_handler resolved.command option_descriptor.name)
          (unknown_autocomplete_option (join resolved.path) (option_name focused))
    ok (
        autocomplete (record {
          command_name = (descriptor resolved.command).name;
          option_kind = option_descriptor.kind;
          handler = handler;
          context = record {
            interaction = interaction;
            command_data = command_data;
            command_path = resolved.path;
            command_options = resolved.options;
            focused_index = focused_index;
            shard_id = shard_id;
          };
          command_slots = framework.command_slots;
        }))

  -- The branch for a command; `response_state` is the address of the new context's shared state.
  unfoldable pub prepare_command :
      Framework W
      → Interaction
      → CommandData
      → ResolvedCommand W
      → Option ℕ
      → (response_state : ℕ) → Result (PreparedDispatch W)
  prepare_command framework interaction command_data resolved shard_id response_state = do
    handler ← or_fail (handler resolved.command) (unknown_command_path (join resolved.path))
    policy ← or_fail (policy resolved.command) (unknown_command_path (join resolved.path))
    ok (
        command (record {
          command_name = (descriptor resolved.command).name;
          handler = handler;
          policy = policy;
          context = record {
            interaction = interaction;
            command_data = command_data;
            command_path = resolved.path;
            command_options = resolved.options;
            shard_id = shard_id;
            response_state = response_state;
          };
          command_slots = framework.command_slots;
          before_hooks = framework.before_hooks;
          after_hooks = framework.after_hooks;
          error_handler = framework.error_handler;
        }))

  -- By the kind of the interaction.
  unfoldable pub prepare_resolved :
      InteractionType
      → Framework W
      → Interaction
      → CommandData
      → ResolvedCommand W
      → Option ℕ
      → ℕ
      → Result (PreparedDispatch W)
  unfolding prepare_autocomplete prepare_command
  prepare_resolved application_command_autocomplete framework interaction command_data resolved
        shard_id response_state =
      prepare_autocomplete framework interaction command_data resolved shard_id
  prepare_resolved _ framework interaction command_data resolved shard_id response_state =
      prepare_command framework interaction command_data resolved shard_id response_state

  -- After the registry's answer.
  unfoldable pub prepare_found :
      Framework W
      → Interaction
      → CommandData
      → Option (SlashCommand W)
      → Option ℕ
      → ℕ
      → Result (PreparedDispatch W)
  unfolding prepare_resolved
  prepare_found framework interaction command_data none shard_id response_state =
      ok (unregistered command_data.name)
  prepare_found framework interaction command_data (some c) shard_id response_state = do
    resolved ← resolve_command c command_data.options
    prepare_resolved interaction.kind framework interaction command_data resolved shard_id
        response_state

  -- An interaction that carries command command_data.
  unfoldable pub prepare_interaction :
      Framework W → Interaction → Option ℕ → ℕ → Result (PreparedDispatch W)
  unfolding prepare_found
  prepare_interaction framework interaction shard_id response_state = do
    payload ← interaction.command_data
    command_data ← or_fail payload missing_application_command_data
    if is_chat_input command_data.kind
        then prepare_found framework interaction command_data
            (get framework.registry command_data.name) shard_id response_state
        else ok ignored

  unfoldable pub prepare_event :
      Framework W → TypedEvent → Option ℕ → ℕ → Result (PreparedDispatch W)
  unfolding prepare_interaction
  prepare_event framework (interaction_create interaction) shard_id response_state =
      if is_command_interaction interaction.kind
      then prepare_interaction framework interaction shard_id response_state
      else ok ignored
  prepare_event framework _ shard_id response_state = ok ignored

  unfoldable pub prepare_dispatch :
      Framework W → GatewayEvent → Option ℕ → (response_state : ℕ) → Result (PreparedDispatch W)
  unfolding prepare_event
  prepare_dispatch framework other_gateway_event shard_id response_state = ok ignored
  prepare_dispatch framework (dispatch name typed) shard_id response_state =
      if str_eq name "INTERACTION_CREATE"
      then (typed >>= λ event. prepare_event framework event shard_id response_state)
      else ok ignored
