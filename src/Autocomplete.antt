-- ===== src/Autocomplete.antt =====
-- crates/gloam-commands/src/framework.rs, `execute_autocomplete`: the handler's choices, checked
-- against Discord's limits and the focused option's type, and the response that carries them.
pub mod Choices
pub mod Execution
use gloam_macro_commands.Common.{
  ℕ, String, count, Bool, true, false, not, ◌&&◌, ◌||◌, List, length, ltb, leb, nat_eq,
}
use gloam_macro_commands.Common.Integer.{ℤ, pos, negsuc, int_leb}
use gloam_macro_commands.Common.Binary64.{F64, finite, is_finite, f64_leb}
use gloam_macro_commands.Error.{
  Result, ok, err, ◌>>=◌, ◌>>◌, guard, collect, invalid_autocomplete_response,
}
use gloam_macro_commands.Discord.{
  OptionType, string, integer, number, ChoiceValue, string_choice, integer_choice, number_choice,
  OptionChoice,
}
use gloam_macro_commands.Command.{
  AutocompleteChoice, AutocompleteChoiceValue, string_result, integer_result, number_result,
}

abbrev pub max_autocomplete_choices : ℕ
max_autocomplete_choices = 25

abbrev pub max_autocomplete_name_length : ℕ
max_autocomplete_name_length = 100

abbrev pub max_autocomplete_string_length : ℕ
max_autocomplete_string_length = 100

abbrev pub min_autocomplete_integer_value : ℤ
min_autocomplete_integer_value = negsuc 9007199254740990

abbrev pub max_autocomplete_integer_value : ℤ
max_autocomplete_integer_value = pos 9007199254740991

abbrev pub min_autocomplete_number_value : F64
min_autocomplete_number_value = finite true 9007199254740992 1074

abbrev pub max_autocomplete_number_value : F64
max_autocomplete_number_value = finite false 9007199254740992 1074

-- The `match` of the option's type with the value's.
unfoldable pub choice_value : OptionType → AutocompleteChoiceValue → Result ChoiceValue
choice_value string (string_result v) = do
  guard (leb (count v) max_autocomplete_string_length)
      (invalid_autocomplete_response "string choice values must contain at most 100 characters")
  ok (string_choice v)
choice_value integer (integer_result v) = do
  guard (int_leb min_autocomplete_integer_value v && int_leb v max_autocomplete_integer_value) (
      invalid_autocomplete_response
        "integer choice values must be within Discord's safe integer range")
  ok (integer_choice v)
choice_value number (number_result v) = do
  guard
      (is_finite v
        && (f64_leb min_autocomplete_number_value v && f64_leb v max_autocomplete_number_value))
      (invalid_autocomplete_response
        "number choice values must be finite and within Discord's numeric range")
  ok (number_choice v)
choice_value kind value =
    err (invalid_autocomplete_response "choice value type does not match the focused option type")

unfoldable pub autocomplete_response_choice : OptionType → AutocompleteChoice → Result OptionChoice
unfolding choice_value
autocomplete_response_choice kind choice =
    let name_length = count choice.name in
    (guard (not (nat_eq name_length 0 || ltb max_autocomplete_name_length name_length))
        (invalid_autocomplete_response "choice names must contain 1 to 100 characters")
      >> (do
        value ← choice_value kind choice.value
        ok (record { name = choice.name; value = value })))

unfoldable pub autocomplete_response_choices :
    OptionType → List AutocompleteChoice → Result (List OptionChoice)
unfolding autocomplete_response_choice
autocomplete_response_choices kind choices = do
  guard (leb (length choices) max_autocomplete_choices)
      (invalid_autocomplete_response "handlers may return at most 25 choices")
  collect (autocomplete_response_choice kind) choices
