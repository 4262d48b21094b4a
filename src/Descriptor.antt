-- ===== src/Descriptor.antt =====
-- crates/gloam-commands/src/command.rs: static metadata of commands, options and choices.
use gloam_macro_commands.Common.{ℕ, String, Bool, true, false, Option, none, some, List, []}
use gloam_macro_commands.Common.Integer.{ℤ}
use gloam_macro_commands.Common.Binary64.{F64}
use gloam_macro_commands.Discord.{OptionType}

pub data CommandChoiceValue : Type 0 where
  string_choice : String → CommandChoiceValue
  integer_choice : ℤ → CommandChoiceValue
  number_choice : F64 → CommandChoiceValue

pub record CommandChoiceDescriptor : Type 0 where
  pub name : String
  pub value : CommandChoiceValue

unfoldable pub string : String → String → CommandChoiceDescriptor
string name value = record { name = name; value = string_choice value }

unfoldable pub integer : String → ℤ → CommandChoiceDescriptor
integer name value = record { name = name; value = integer_choice value }

unfoldable pub number : String → F64 → CommandChoiceDescriptor
number name value = record { name = name; value = number_choice value }

-- Gloamwire's ApplicationCommandNumericValue.
pub data NumericValue : Type 0 where
  integer_bound : ℤ → NumericValue
  number_bound : F64 → NumericValue

pub record CommandOptionDescriptor : Type 0 where
  pub name : String
  pub description : String
  pub kind : OptionType
  pub required : Bool
  pub choices : List CommandChoiceDescriptor
  pub autocomplete : Bool
  pub min_value : Option NumericValue
  pub max_value : Option NumericValue
  pub min_length : Option ℕ
  pub max_length : Option ℕ

unfoldable pub new_option : String → String → OptionType → Bool → CommandOptionDescriptor
new_option name description kind required = record {
  name = name;
  description = description;
  kind = kind;
  required = required;
  choices = [];
  autocomplete = false;
  min_value = none;
  max_value = none;
  min_length = none;
  max_length = none;
}

unfoldable pub with_choices :
    CommandOptionDescriptor → List CommandChoiceDescriptor → CommandOptionDescriptor
with_choices d choices = record d { choices = choices }

unfoldable pub autocomplete : CommandOptionDescriptor → CommandOptionDescriptor
autocomplete d = record d { autocomplete = true }

unfoldable pub min_value : CommandOptionDescriptor → NumericValue → CommandOptionDescriptor
min_value d value = record d { min_value = some value }

unfoldable pub min_integer : CommandOptionDescriptor → ℤ → CommandOptionDescriptor
unfolding min_value
min_integer d value = min_value d (integer_bound value)

unfoldable pub min_number : CommandOptionDescriptor → F64 → CommandOptionDescriptor
unfolding min_value
min_number d value = min_value d (number_bound value)

unfoldable pub max_value : CommandOptionDescriptor → NumericValue → CommandOptionDescriptor
max_value d value = record d { max_value = some value }

unfoldable pub max_integer : CommandOptionDescriptor → ℤ → CommandOptionDescriptor
unfolding max_value
max_integer d value = max_value d (integer_bound value)

unfoldable pub max_number : CommandOptionDescriptor → F64 → CommandOptionDescriptor
unfolding max_value
max_number d value = max_value d (number_bound value)

unfoldable pub min_length : CommandOptionDescriptor → ℕ → CommandOptionDescriptor
min_length d value = record d { min_length = some value }

unfoldable pub max_length : CommandOptionDescriptor → ℕ → CommandOptionDescriptor
max_length d value = record d { max_length = some value }

pub record CommandDescriptor : Type 0 where
  pub name : String
  pub description : String
  pub options : List CommandOptionDescriptor

unfoldable pub new_command : String → String → CommandDescriptor
new_command name description = record { name = name; description = description; options = [] }

unfoldable pub with_options : CommandDescriptor → List CommandOptionDescriptor → CommandDescriptor
with_options d options = record d { options = options }
