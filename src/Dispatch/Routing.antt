-- ===== src/Dispatch/Routing.antt =====
-- crates/gloam-commands/src/framework.rs, `prepare_dispatch`: which events start a command, and with
-- what.
use gloam_macro_commands.Common.{ℕ, ◌≡◌, refl, String, Option, some, List, Memᴰ}
use gloam_macro_commands.Error.{ok}
use gloam_macro_commands.Discord.{
  InteractionOption, chat_input, application_command, CommandData, Interaction, interaction_create,
  GatewayEvent, dispatch,
}
use gloam_macro_commands.Descriptor.{CommandDescriptor}
use gloam_macro_commands.Command.{SlashCommandLeaf, SlashCommand, command_name}
use gloam_macro_commands.Resolve.Paths.{Reaches, submission, resolve_command-submission}
use gloam_macro_commands.Dispatch.{Framework, PreparedCommand, command, prepare_dispatch}
use gloam_macro_commands.Builder.{FrameworkBuilder, build}
use gloam_macro_commands.Builder.Contents.{build-Holds}

-- The event that carries an interaction.
abbrev pub created : Interaction → GatewayEvent
created i = dispatch "INTERACTION_CREATE" (ok (interaction_create i))

module _ {W : Type 0} where
  -- What is prepared for a leaf that was resolved.
  abbrev pub prepared :
      Framework W
      → Interaction
      → CommandData
      → List String
      → List InteractionOption
      → Option ℕ
      → ℕ
      → CommandDescriptor
      → SlashCommandLeaf W
      → PreparedCommand W
  prepared f i command_data path options shard_id response_state d l = record {
    command_name = d.name;
    handler = l.handler;
    policy = l.policy;
    context = record {
      interaction = i;
      command_data = command_data;
      command_path = path;
      command_options = options;
      shard_id = shard_id;
      response_state = response_state;
    };
    command_slots = f.command_slots;
    before_hooks = f.before_hooks;
    after_hooks = f.after_hooks;
    error_handler = f.error_handler;
  }

  -- A framework that was built prepares each leaf of each of its commands when Discord submits the
  -- leaf's path: with the leaf's handler and policy, the path, the options submitted for the leaf,
  -- and the builder's hooks and error handler.
  pub build-prepare_dispatch :
      (b : FrameworkBuilder W) (slots : ℕ) (f : Framework W) (c : SlashCommand W)
      (path : List String) (d : CommandDescriptor) (l : SlashCommandLeaf W) (i : Interaction)
      (command_data : CommandData) (options : List InteractionOption) (shard_id : Option ℕ)
      (response_state : ℕ)
      → build b slots ≡ ok f
      → Memᴰ c b.commands
      → Reaches c path d l
      → i.kind ≡ application_command
      → i.command_data ≡ ok (some command_data)
      → command_data.kind ≡ chat_input
      → command_data.name ≡ command_name c
      → command_data.options ≡ submission path options
      → prepare_dispatch f (created i) shard_id response_state
        ≡ ok (command (prepared f i command_data path options shard_id response_state d l))
  unfolding prepare_dispatch
  build-prepare_dispatch b slots f c path d l i command_data options shard_id response_state e m r
        kind carried chat named submitted =
      let (valid, found) = (build-Holds b slots f e).1.added c m in
      rw
        (
          kind,
          carried,
          chat,
          named,
          found,
          submitted,
          resolve_command-submission c path d l options valid r,
        )
        refl
