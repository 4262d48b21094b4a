-- ===== src/Macros/Attributes.antt =====
-- crates/gloam-commands-macros/src/command.rs: the attributes of a command's option.
use gloam_macro_commands.Common.{
  String, Bool, true, false, not, ◌&&◌, Option, none, some, List, [], ◌∷◌, ◌++◌, all, is_empty,
  if◌then◌else◌, ◌<>◌,
}
use gloam_macro_commands.Macros.Syntax.{
  Result, ok, err, ◌>>=◌, ◌>>◌, guard, Segments, segments_list, plain_arguments, Expr, lit_expr,
  path_expr, str_lit, Meta, bare_meta, list_meta, name_value,
}
use gloam_macro_commands.Macros.Functions.{Attribute, path_is}
use gloam_macro_commands.Macros.Choices.{InlineChoiceArgs}

pub record OptionAttributes : Type 0 where
  pub description : Option String
  pub min : Option Expr
  pub max : Option Expr
  pub min_length : Option Expr
  pub max_length : Option Expr
  pub autocomplete : Option Segments
  pub typed_choice : Bool
  pub inline_choices : List InlineChoiceArgs

abbrev attribute_text : String → String
attribute_text name = "`#[" <> name <> " = ...]`"

unfoldable pub set_once : {A : Type 0} → Option A → A → (name : String) → Result (Option A)
set_once none value name = ok (some value)
set_once (some old) value name = err ("duplicate " <> attribute_text name <> " attribute")

unfoldable pub parse_expression_attribute : Meta InlineChoiceArgs → (name : String) → Result Expr
parse_expression_attribute (name_value value) name = ok value
parse_expression_attribute _ name = err ("expected " <> attribute_text name)

unfoldable pub string_literal : Expr → (name : String) → Result String
string_literal (lit_expr (str_lit value)) name = ok value
string_literal _ name = err (attribute_text name <> " requires a string literal")

unfoldable pub parse_string_attribute : Meta InlineChoiceArgs → (name : String) → Result String
unfolding parse_expression_attribute string_literal
parse_string_attribute meta name = do
  expression ← parse_expression_attribute meta name
  string_literal expression name

unfoldable pub handler_path : Expr → (name : String) → Result Segments
handler_path (path_expr qself path) name = do
  guard
      (not qself
        && not (is_empty (segments_list path))
        && all (λ s. plain_arguments s.arguments) (segments_list path))
      (attribute_text name <> " requires a handler function path")
  ok path
handler_path _ name = err (attribute_text name <> " requires a handler function path")

unfoldable pub parse_path_attribute : Meta InlineChoiceArgs → (name : String) → Result Segments
unfolding parse_expression_attribute handler_path
parse_path_attribute meta name = do
  expression ← parse_expression_attribute meta name
  handler_path expression name

-- `#[choice]` and `#[choice(..)]`.
unfoldable pub take_choice : OptionAttributes → Meta InlineChoiceArgs → Result OptionAttributes
take_choice parsed bare_meta = do
  guard (not parsed.typed_choice) "duplicate bare `#[choice]` marker"
  ok (record parsed { typed_choice = true })
take_choice parsed (list_meta arguments) = do
  args ← arguments
  ok (record parsed { inline_choices = parsed.inline_choices ++ args ∷ [] })
take_choice parsed (name_value _) =
    err "expected bare `#[choice]` or `#[choice(name = \"...\", value = ...)]`"

-- An attribute of an option, `none` for one that is retained.
unfoldable pub take_option_attribute :
    OptionAttributes → Attribute InlineChoiceArgs → Option (Result OptionAttributes)
unfolding set_once parse_string_attribute parse_expression_attribute parse_path_attribute
    take_choice
take_option_attribute parsed a =
    if path_is a.path "description"
    then some (do
      value ← parse_string_attribute a.meta "description"
      slot ← set_once parsed.description value "description"
      ok (record parsed { description = slot }))
    else if path_is a.path "min"
    then some (do
      value ← parse_expression_attribute a.meta "min"
      slot ← set_once parsed.min value "min"
      ok (record parsed { min = slot }))
    else if path_is a.path "max"
    then some (do
      value ← parse_expression_attribute a.meta "max"
      slot ← set_once parsed.max value "max"
      ok (record parsed { max = slot }))
    else if path_is a.path "min_length"
    then some (do
      value ← parse_expression_attribute a.meta "min_length"
      slot ← set_once parsed.min_length value "min_length"
      ok (record parsed { min_length = slot }))
    else if path_is a.path "max_length"
    then some (do
      value ← parse_expression_attribute a.meta "max_length"
      slot ← set_once parsed.max_length value "max_length"
      ok (record parsed { max_length = slot }))
    else if path_is a.path "autocomplete"
    then some (do
      value ← parse_path_attribute a.meta "autocomplete"
      slot ← set_once parsed.autocomplete value "autocomplete"
      ok (record parsed { autocomplete = slot }))
    else if path_is a.path "choice"
    then some (take_choice parsed a.meta)
    else none

-- The attributes read, and those left on the parameter.
unfoldable pub take_attributes :
    OptionAttributes
    → (retained attributes : List (Attribute InlineChoiceArgs))
    → Result (OptionAttributes × List (Attribute InlineChoiceArgs))
unfolding take_option_attribute
take_attributes parsed retained [] = ok (parsed, retained)
take_attributes parsed retained (a ∷ rest) = elim (take_option_attribute parsed a) [
  | none ↦ take_attributes parsed (retained ++ a ∷ []) rest
  | some (ok next) ↦ take_attributes next retained rest
  | some (err message) ↦ err message
]

abbrev pub no_attributes : OptionAttributes
no_attributes = record {
  description = none;
  min = none;
  max = none;
  min_length = none;
  max_length = none;
  autocomplete = none;
  typed_choice = false;
  inline_choices = [];
}

unfoldable pub take_option_attributes :
    List (Attribute InlineChoiceArgs)
    → Result (OptionAttributes × List (Attribute InlineChoiceArgs))
unfolding take_attributes
take_option_attributes attributes = take_attributes no_attributes [] attributes
