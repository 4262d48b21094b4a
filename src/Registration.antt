-- ===== src/Registration.antt =====
-- crates/gloam-commands/src/registration.rs: the registry as Discord's command set.
pub mod Described
pub mod Invocation
pub mod Published
use gloam_macro_commands.Common.{
  ℕ, String, Bool, true, false, Option, none, some, List, [], ◌∷◌, map, if◌then◌else◌,
}
use gloam_macro_commands.Exec.{Exec, pure}
use gloam_macro_commands.Discord.{
  OptionType, sub_command, sub_command_group, ChoiceValue, string_choice, integer_choice,
  number_choice, OptionChoice,
}
use gloam_macro_commands.Descriptor.{
  CommandChoiceValue, CommandChoiceDescriptor, NumericValue, CommandOptionDescriptor,
}
use gloam_macro_commands.Descriptor
use gloam_macro_commands.Command.{
  SlashCommand, leaf, group, children_list, children, is_leaf, descriptor,
}
use gloam_macro_commands.Registry.{CommandRegistry, iter}

-- Gloamwire's ApplicationCommandOption, with the list type of its `options`; the localizations,
-- channel types and file types that the framework leaves empty are left out.
mutual
  pub data ApplicationOption : Type 0 where
    application_option :
        (kind : OptionType) (name description : String) (required : Option Bool)
        (choices : List OptionChoice) (options : ApplicationOptions)
        (min_value max_value : Option NumericValue) (min_length max_length : Option ℕ)
        (autocomplete : Option Bool)
        → ApplicationOption

  pub data ApplicationOptions : Type 0 where
    nil : ApplicationOptions
    cons : ApplicationOption → ApplicationOptions → ApplicationOptions

abbrev pub registered_kind : ApplicationOption → OptionType
registered_kind (application_option kind n d r cs os lo hi ll hl a) = kind

abbrev pub registered_name : ApplicationOption → String
registered_name (application_option kind n d r cs os lo hi ll hl a) = n

abbrev pub registered_list : ApplicationOptions → List ApplicationOption
registered_list nil = []
registered_list (cons o os) = o ∷ registered_list os

abbrev pub registered_options_of : List ApplicationOption → ApplicationOptions
registered_options_of [] = nil
registered_options_of (o ∷ os) = cons o (registered_options_of os)

abbrev pub registered_options : ApplicationOption → List ApplicationOption
registered_options (application_option kind n d r cs os lo hi ll hl a) = registered_list os

-- CreateApplicationCommand for a chat-input command.
pub record CreateCommand : Type 0 where
  pub name : String
  pub description : String
  pub options : List ApplicationOption

abbrev pub created_value : CommandChoiceValue → ChoiceValue
created_value (Descriptor.string_choice v) = string_choice v
created_value (Descriptor.integer_choice v) = integer_choice v
created_value (Descriptor.number_choice v) = number_choice v

unfoldable pub create_choice : CommandChoiceDescriptor → OptionChoice
create_choice d = record { name = d.name; value = created_value d.value }

unfoldable pub create_scalar_option : CommandOptionDescriptor → ApplicationOption
unfolding create_choice
create_scalar_option d =
    application_option d.kind d.name d.description (some d.required) (map create_choice d.choices)
      nil d.min_value d.max_value d.min_length d.max_length
      (if d.autocomplete then some true else none)

module _ {W : Type 0} where
  unfoldable pub create_hierarchy_option :
      SlashCommand W → OptionType → List ApplicationOption → ApplicationOption
  create_hierarchy_option c kind options =
      let d = descriptor c in
      application_option kind d.name d.description none [] (registered_options_of options) none none
        none none none

  -- A subcommand with the command's own options.
  abbrev pub create_subcommand : SlashCommand W → ApplicationOption
  create_subcommand c =
      create_hierarchy_option c sub_command (map create_scalar_option (descriptor c).options)

  unfoldable pub create_child_option : SlashCommand W → ApplicationOption
  create_child_option c =
      if is_leaf c
      then create_subcommand c
      else create_hierarchy_option c sub_command_group
          (map create_subcommand (children_list (children c)))

  unfoldable pub create_command : SlashCommand W → CreateCommand
  unfolding create_child_option
  create_command c =
      let d = descriptor c in
      record {
        name = d.name;
        description = d.description;
        options =
            if is_leaf c
            then map create_scalar_option d.options
            else map create_child_option (children_list (children c));
      }

  unfoldable pub create_commands : CommandRegistry W → List CreateCommand
  unfolding create_command
  create_commands registry = map create_command (iter registry)

pub data Registration : Type 0 where
  global : Registration
  guild : (id : ℕ) → Registration
  unmanaged : Registration

-- The REST client's bulk overwrites; `B` is Gloamwire's BulkOverwriteApplicationCommand.
pub data Overwrite (B : Type 0) : Type 0 where
  overwrite_global : (application_id : ℕ) → List CreateCommand → Overwrite B
  overwrite_guild : (application_id guild_id : ℕ) → List B → Overwrite B

-- `from` is Gloamwire's conversion and `rest` its REST client, which answers with the commands.
unfoldable pub synchronize :
    {W V B : Type 0}
    → (CreateCommand → B)
    → (Overwrite B → Exec V (List ℕ))
    → Registration
    → ℕ
    → CommandRegistry W
    → Exec V (List ℕ)
unfolding create_commands
synchronize from rest global application_id registry =
    rest (overwrite_global application_id (create_commands registry))
synchronize from rest (guild guild_id) application_id registry =
    rest (overwrite_guild application_id guild_id (map from (create_commands registry)))
synchronize from rest unmanaged application_id registry = pure []
