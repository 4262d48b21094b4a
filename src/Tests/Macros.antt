-- ===== src/Tests/Macros.antt =====
-- The macros at concrete attributes and functions.
use gloam_macro_commands.Common.{
  ℕ, ◌<◌, ◌≤◌, ◌≡◌, ◌≢◌, refl, ap, String, Bool, true, false, none, some, List, [], ◌∷◌, length,
  arith, is_some, Unique, contains-absent, count, leb, map, ◌&&◌, ◌↔◌,
}
use gloam_macro_commands.Common.Integer.{pos, negsuc}
use gloam_macro_commands.Exec.{pure}
use gloam_macro_commands.Error
use gloam_macro_commands.Macros.Syntax.{
  Result, ok, err, Ty, path_type, tuple_type, nil, cons, angle_bracketed, type_arg, end_args,
  lit_expr, neg_expr, path_expr, str_lit, int_lit, name_value,
}
use gloam_macro_commands.Macros.Functions.{ident_pat, FnArg, typed_arg, return_type, ItemFn}
use gloam_macro_commands.Macros.Stream.{parse_arguments}
use gloam_macro_commands.Macros.Signature.{validate_signature, context_type, state_type, named_type}
use gloam_macro_commands.Macros.Arguments.{
  CommandArgs, CommandArgument, empty_args, parse_command_args,
}
use gloam_macro_commands.Macros.Arguments.Given.{Leaves}
use gloam_macro_commands.Macros.Arguments.Keys.{Reads}
use gloam_macro_commands.Macros.Stream.Reading.{Holds}
use gloam_macro_commands.Macros.Names.{Naming, IsName, IsShort, validate_name, validate_description}
use gloam_macro_commands.Macros.Choices.{InlineChoiceArgs, no_choices, parse_inline_choices}
use gloam_macro_commands.Macros.Bounds.{integer_value, numeric_bounds, string_bounds}
use gloam_macro_commands.Macros.Types.{
  OptionKind, option_type, option_inner_type, supported_option_kind,
}
use gloam_macro_commands.Macros.Attributes.{
  take_option_attributes, take_attributes, take_option_attribute,
}
use gloam_macro_commands.Macros.Commands.{
  Scope, Expansion, expand, expand_parsed, expand_args, option_descriptor_tokens, handler_body,
  autocomplete_handlers, policy_of,
}
use gloam_macro_commands.Macros.Commands.Leaves.{Resolves, type_of_kind}
use gloam_macro_commands.Macros.Commands.Accepted.{expand-IsValidLeaf}
use gloam_macro_commands.Discord
use gloam_macro_commands.Registry.Leaves.{IsValidLeaf}
use gloam_macro_commands.Discord.{OptionType}
use gloam_macro_commands.Options.{string_option}
use gloam_macro_commands.Command.{SlashCommandLeaf, leaf, new_with_autocomplete_and_policy}
use gloam_macro_commands.Descriptor.{CommandDescriptor, with_options, new_command}
use gloam_macro_commands.Macros.Parameters.{
  OptionParameter, parameter_names, skip_one, option_parameters, options_from, option_parameter,
  described_parameter, compatible, scalar_parameter,
}
use gloam_macro_commands.Macros.Arguments.Parsing.{
  parse_command_args-returns, parse_command_args_iff,
}
use gloam_macro_commands.Tests.Tokens.{
  word, Token, ident_token, eq_token, comma_token, str_token, int_token, path_token, any_token, eq,
  comma, lit_str, lit_int, path, ended, tokens, tokens-Advances, named,
}

-- `max_concurrency = 2, description = "Answers", check = is_admin`.
abbrev pub ping_tokens : List Token
ping_tokens =
    ident_token (word "max_concurrency")
    ∷ eq_token
    ∷ int_token 2
    ∷ comma_token
    ∷ ident_token (word "description")
    ∷ eq_token
    ∷ str_token "Answers"
    ∷ comma_token
    ∷ ident_token (word "check")
    ∷ eq_token
    ∷ path_token (named "is_admin")
    ∷ []

abbrev ping_args : CommandArgs
ping_args = record {
  name = none;
  description = some "Answers";
  checks = named "is_admin" ∷ [];
  contexts = [];
  guild_only = none;
  member_permissions = none;
  bot_permissions = none;
  cooldown_seconds = none;
  max_concurrency = some 2;
}

ping_parsed : parse_command_args tokens 20 ping_tokens ≡ some (ok ping_args)
unfolding parse_command_args any_token eq comma lit_str lit_int path ended parse_arguments
ping_parsed = refl

enough_fuel : length ping_tokens < 20
enough_fuel = omega arith

parse_command_args-returns_example : is_some (parse_command_args tokens 20 ping_tokens) ≡ true
parse_command_args-returns_example =
    parse_command_args-returns tokens length tokens-Advances 20 ping_tokens enough_fuel

parse_command_args_iff_example :
    (parse_command_args tokens 20 ping_tokens ≡ some (ok ping_args)) ↔ (
      (given : List CommandArgument) × Holds tokens (Reads tokens) ping_tokens given
      × Leaves empty_args given ping_args
      × (ping_args.guild_only ≢ none → ping_args.contexts ≡ []))
parse_command_args_iff_example =
    parse_command_args_iff tokens length tokens-Advances 20 ping_tokens ping_args enough_fuel

abbrev pub naming : Naming
naming = record {
  is_match = λ name. leb 1 (count name) && leb (count name) 32;
  to_lowercase = λ name. name;
}

abbrev generic : String → Ty → Ty
generic name inner = path_type (cons (word name) (angle_bracketed (type_arg inner end_args)) nil)

abbrev pub plain : String → Ty
plain name = path_type (named name)

abbrev context_input : String → FnArg InlineChoiceArgs
context_input name = typed_arg [] (ident_pat (word "ctx") false) (generic name (plain "Data"))

-- `#[description = "Who"] #[autocomplete = people] target: String`
-- and `#[description = "Times"] #[min = -1] #[max = 3] count: Option<i64>`.
abbrev target_input : FnArg InlineChoiceArgs
target_input =
    typed_arg
      (record { path = named "description"; meta = name_value (lit_expr (str_lit "Who")) }
        ∷ record {
          path = named "autocomplete";
          meta = name_value (path_expr false (named "people"));
        }
        ∷ [])
      (ident_pat (word "target") false) (plain "String")

abbrev count_input : FnArg InlineChoiceArgs
count_input =
    typed_arg
      (record { path = named "description"; meta = name_value (lit_expr (str_lit "Times")) }
        ∷ record { path = named "min"; meta = name_value (neg_expr (lit_expr (int_lit 1))) }
        ∷ record { path = named "max"; meta = name_value (lit_expr (int_lit 3)) }
        ∷ [])
      (ident_pat (word "count") false) (generic "Option" (plain "i64"))

abbrev pub inputs : List (FnArg InlineChoiceArgs)
inputs = context_input "Context" ∷ target_input ∷ count_input ∷ []

abbrev function : List (FnArg InlineChoiceArgs) → Ty → ItemFn InlineChoiceArgs
function inputs output = record {
  ident = word "ping";
  asyncness = true;
  constness = false;
  unsafety = false;
  abi = false;
  generic_params = false;
  where_clause = false;
  variadic = false;
  inputs = inputs;
  output = return_type (generic "Result" output);
}

abbrev pub ping : ItemFn InlineChoiceArgs
ping = function inputs (tuple_type 0)

abbrev parsed_inputs : Result (List OptionParameter × List (FnArg InlineChoiceArgs))
parsed_inputs = option_parameters naming inputs

abbrev people_option : OptionParameter
people_option = record {
  ident = word "target";
  ty = plain "String";
  name = "target";
  description = "Who";
  required = true;
  choices = no_choices;
  autocomplete = some (named "people");
  min = none;
  max = none;
  min_length = none;
  max_length = none;
}

abbrev times_option : OptionParameter
times_option = record {
  ident = word "count";
  ty = generic "Option" (plain "i64");
  name = "count";
  description = "Times";
  required = false;
  choices = no_choices;
  autocomplete = none;
  min = some (integer_value (negsuc 0));
  max = some (integer_value (pos 3));
  min_length = none;
  max_length = none;
}

abbrev read_options : List OptionParameter
read_options = people_option ∷ times_option ∷ []

abbrev left_inputs : List (FnArg InlineChoiceArgs)
left_inputs =
    typed_arg [] (ident_pat (word "target") false) (plain "String")
    ∷ typed_arg [] (ident_pat (word "count") false) (generic "Option" (plain "i64"))
    ∷ []

inputs_read : option_parameters naming inputs ≡ ok (read_options, left_inputs)
unfolding option_parameters options_from option_parameter described_parameter validate_name
    validate_description take_option_attributes take_attributes take_option_attribute compatible
    scalar_parameter option_type option_inner_type supported_option_kind numeric_bounds
    string_bounds parse_inline_choices
inputs_read = refl

abbrev found_kind : Result (OptionKind × Bool) → OptionType
found_kind (ok (k, r)) = type_of_kind k
found_kind (err m) = Discord.string

abbrev kind_of : Ty → OptionType
kind_of ty = found_kind (option_type ty)

abbrev pub scope : Scope ℕ ℕ
scope = record {
  function = λ c values. pure tt;
  check = λ handler c. pure true;
  complete = λ handler c. pure [];
  permissions = λ e. 8;
  kind = kind_of;
  extract = λ ty options name. Error.map_ok count (string_option.extract options name);
  choices = λ ty. [];
  cooldowns = 0;
  slots = 1;
}

pub scope-Resolves : Resolves scope
scope-Resolves ty k r e = ap found_kind e

abbrev pub expansion : Expansion ℕ
expansion = record {
  command =
      leaf
        (with_options (new_command "ping" "Answers")
          (map (option_descriptor_tokens scope) read_options))
        (record {
          handler = handler_body scope read_options;
          autocomplete = autocomplete_handlers scope read_options;
          policy = policy_of scope ping_args;
        });
  handler_name = "__gloam_handler_ping";
  factory_name = "__gloam_command_ping";
  state = plain "Data";
  inputs = context_input "Context" ∷ left_inputs;
}

pub ping_expanded : expand naming scope tokens 20 ping_tokens ping ≡ some (ok expansion)
unfolding expand expand_parsed expand_args validate_signature context_type state_type validate_name
    validate_description named_type new_with_autocomplete_and_policy
ping_expanded = rw (expand, ping_parsed, expand_parsed, inputs_read) refl

pub distinct_names : Unique (parameter_names (skip_one inputs))
distinct_names =
    (contains-absent ("count" ∷ []) "target" refl, (contains-absent [] "count" refl, tt))

expand-IsValidLeaf_example :
    (d : CommandDescriptor) × (l : SlashCommandLeaf ℕ) × (expansion.command ≡ leaf d l)
    × IsValidLeaf d l
    × IsName naming d.name
    × IsShort d.description
    × (length d.options ≤ 25)
expand-IsValidLeaf_example =
    expand-IsValidLeaf naming scope tokens 20 ping_tokens ping expansion scope-Resolves
      distinct_names ping_expanded
