-- ===== src/Macros/Parameters.antt =====
-- crates/gloam-commands-macros/src/command.rs: the parameters of a command's function that are its
-- options.
pub mod Kinds
pub mod Limits
use gloam_macro_commands.Common.{
  ℕ, ◌-◌, String, Bool, true, false, not, ◌&&◌, ◌||◌, Option, none, some, List, [], ◌∷◌, length,
  leb, is_some, is_empty,
}
use gloam_macro_commands.Macros.Syntax.{
  Result, ok, err, ◌>>=◌, ◌>>◌, guard, or_fail, Ident, unraw, Ty, Segments,
}
use gloam_macro_commands.Macros.Functions.{
  Attribute, Pat, ident_pat, other_pat, FnArg, receiver, typed_arg,
}
use gloam_macro_commands.Macros.Names.{Naming, validate_name, validate_description}
use gloam_macro_commands.Macros.Types.{OptionKind, option_type, validate_typed_choice_type}
use gloam_macro_commands.Macros.Bounds.{NumericBound, numeric_bounds, string_bounds}
use gloam_macro_commands.Macros.Choices.{
  InlineChoiceArgs, ChoiceSource, typed_choices, takes_choices, parse_inline_choices,
}
use gloam_macro_commands.Macros.Attributes.{OptionAttributes, take_option_attributes}

pub record OptionParameter : Type 0 where
  pub ident : Ident
  pub ty : Ty
  pub name : String
  pub description : String
  pub required : Bool
  pub choices : ChoiceSource
  pub autocomplete : Option Segments
  pub min : Option NumericBound
  pub max : Option NumericBound
  pub min_length : Option ℕ
  pub max_length : Option ℕ

-- The guards on the attributes, before the type is read.
unfoldable pub compatible : OptionAttributes → Result (Unit {0})
compatible a = do
  guard (not (a.typed_choice && not (is_empty a.inline_choices)))
      "a typed `#[choice]` option cannot also declare inline choices"
  guard (not (is_some a.autocomplete && (a.typed_choice || not (is_empty a.inline_choices))))
      "autocomplete cannot be combined with static command choices"

-- An option of a type that derives `CommandChoice`.
unfoldable pub typed_parameter :
    Ident → Ty → (name description : String) → OptionAttributes → Result OptionParameter
typed_parameter ident ty name description a = do
  required ← validate_typed_choice_type ty
  guard (not (is_some a.min || is_some a.max || is_some a.min_length || is_some a.max_length))
      "typed `CommandChoice` options cannot declare scalar min/max constraints"
  ok (record {
    ident = ident;
    ty = ty;
    name = name;
    description = description;
    required = required;
    choices = typed_choices;
    autocomplete = none;
    min = none;
    max = none;
    min_length = none;
    max_length = none;
  })

-- An option of a type that the framework knows.
unfoldable pub scalar_parameter :
    Ident → Ty → (name description : String) → OptionAttributes → Result OptionParameter
scalar_parameter ident ty name description a = do
  (kind, required) ← option_type ty
  guard (not (is_some a.autocomplete && not (takes_choices kind)))
      "autocomplete is only supported for `String`, `i64`, and `f64` options"
  choices ← parse_inline_choices kind a.inline_choices
  (min, max) ← numeric_bounds kind a.min a.max
  (min_length, max_length) ← string_bounds kind a.min_length a.max_length
  ok (record {
    ident = ident;
    ty = ty;
    name = name;
    description = description;
    required = required;
    choices = choices;
    autocomplete = a.autocomplete;
    min = min;
    max = max;
    min_length = min_length;
    max_length = max_length;
  })

unfoldable pub described_parameter :
    Ident → Ty → (name : String) → OptionAttributes → Result OptionParameter
unfolding compatible typed_parameter scalar_parameter
described_parameter ident ty name a = do
  description ← or_fail a.description "slash-command options require `#[description = \"...\"]`"
  validate_description description
  compatible a
  elim a.typed_choice [
    | true ↦ typed_parameter ident ty name description a
    | false ↦ scalar_parameter ident ty name description a
  ]

-- The names that the patterns bind, without `r#`.
abbrev pub parameter_names : {A : Type 0} → List (FnArg A) → List String
parameter_names [] = []
parameter_names (receiver ∷ rest) = parameter_names rest
parameter_names (typed_arg attrs (ident_pat i sub) ty ∷ rest) = unraw i ∷ parameter_names rest
parameter_names (typed_arg attrs (other_pat n) ty ∷ rest) = parameter_names rest

abbrev simple_pattern : String
simple_pattern = "slash-command options require simple identifier parameter patterns"

-- An option, and the parameter that is left of it.
unfoldable pub option_parameter :
    Naming → FnArg InlineChoiceArgs → Result (OptionParameter × FnArg InlineChoiceArgs)
unfolding described_parameter
option_parameter naming receiver = err "slash-command options must be typed function parameters"
option_parameter naming (typed_arg attrs (other_pat n) ty) = err simple_pattern
option_parameter naming (typed_arg attrs (ident_pat ident true) ty) = err simple_pattern
option_parameter naming (typed_arg attrs (ident_pat ident false) ty) = do
  validate_name naming (unraw ident)
  (a, retained) ← take_option_attributes attrs
  option ← described_parameter ident ty (unraw ident) a
  ok (option, typed_arg retained (ident_pat ident false) ty)

-- The loop over the parameters after the context.
unfoldable pub options_from :
    Naming
    → (saw_optional : Bool) → List (FnArg InlineChoiceArgs)
    → Result (List OptionParameter × List (FnArg InlineChoiceArgs))
unfolding option_parameter
options_from naming saw [] = ok ([], [])
options_from naming saw (argument ∷ rest) = do
  (option, left) ← option_parameter naming argument
  guard (not (option.required && saw))
      "required slash-command options must appear before optional `Option<T>` parameters"
  (options, lefts) ← options_from naming (saw || not option.required) rest
  ok (option ∷ options, left ∷ lefts)

abbrev pub skip_one {ℓ} : {A : Type ℓ} → List A → List A
skip_one [] = []
skip_one (x ∷ xs) = xs

unfoldable pub option_parameters :
    Naming
    → List (FnArg InlineChoiceArgs)
    → Result (List OptionParameter × List (FnArg InlineChoiceArgs))
unfolding options_from
option_parameters naming inputs = do
  guard (leb (length inputs - 1) 25) "Discord chat-input commands support at most 25 options"
  options_from naming false (skip_one inputs)
