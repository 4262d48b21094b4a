-- ===== src/Macros/Handlers.antt =====
-- crates/gloam-commands-macros/src/{check,autocomplete}.rs: `#[check]` and `#[autocomplete]`, which
-- differ in the context, the return type and their messages.
pub mod Types
pub mod Shapes
use gloam_macro_commands.Common.{
  ℕ, String, Bool, true, false, not, Option, none, some, List, [], ◌∷◌, length, nat_eq, ◌<>◌,
  is_some,
}
use gloam_macro_commands.Macros.Syntax.{Result, ok, err, ◌>>=◌, ◌>>◌, guard, or_fail, unraw, Ty}
use gloam_macro_commands.Macros.Functions.{FnArg, receiver, typed_arg, ReturnType, ItemFn}
use gloam_macro_commands.Macros.Signature.{
  named_type, only_type, is_bool, is_choices, result_type, validate_qualifiers,
}

-- What differs: the names, the messages and the type between the brackets of `Result<..>`.
pub record HandlerKind : Type 0 where
  pub attribute : String
  pub subject : String
  pub context : String
  pub missing_parameter : String
  pub not_free : String
  pub wrong_context : String
  pub one_parameter : String
  pub wrong_return : String
  pub prefix : String
  pub is_result : Option Ty → Bool

abbrev pub check_kind : HandlerKind
check_kind = record {
  attribute = "`#[check]`";
  subject = "command checks";
  context = "Context";
  missing_parameter = "command checks require a `Context<D>` parameter";
  not_free = "command checks must be free functions whose parameter is `Context<D>`";
  wrong_context = "command check context parameter must have type `Context<D>`";
  one_parameter = "command checks require exactly one `Context<D>` parameter";
  wrong_return = "command checks must return `Result<bool>`";
  prefix = "__gloam_check_";
  is_result = is_bool;
}

abbrev pub autocomplete_kind : HandlerKind
autocomplete_kind = record {
  attribute = "`#[autocomplete]`";
  subject = "autocomplete handlers";
  context = "AutocompleteContext";
  missing_parameter = "autocomplete handlers require an `AutocompleteContext<D>` parameter";
  not_free =
      "autocomplete handlers must be free functions whose parameter is `AutocompleteContext<D>`";
  wrong_context = "autocomplete context parameter must have type `AutocompleteContext<D>`";
  one_parameter = "autocomplete handlers require exactly one `AutocompleteContext<D>` parameter";
  wrong_return = "autocomplete handlers must return `Result<Vec<AutocompleteChoice>>`";
  prefix = "__gloam_autocomplete_";
  is_result = is_choices;
}

unfoldable pub handler_return : HandlerKind → ReturnType → Result (Unit {0})
unfolding result_type
handler_return kind output = guard (kind.is_result (result_type output)) kind.wrong_return

module _ {A : Type 0} (kind : HandlerKind) where
  unfoldable pub handler_parameter : FnArg A → Result Ty
  unfolding named_type only_type
  handler_parameter receiver = err kind.not_free
  handler_parameter (typed_arg attrs pat ty) = do
    arguments ← or_fail (named_type kind.context ty) kind.wrong_context
    guard (is_some (only_type (some arguments)))
        ("`" <> kind.context <> "` requires exactly one application-state type parameter")
    ok ty

  unfoldable pub handler_context : List (FnArg A) → Result Ty
  unfolding handler_parameter
  handler_context [] = err kind.missing_parameter
  handler_context (argument ∷ rest) = handler_parameter argument

  unfoldable pub handler_signature : ItemFn A → Result (Unit {0})
  unfolding validate_qualifiers handler_context handler_return
  handler_signature f = do
    validate_qualifiers kind.subject kind.subject f
    guard (nat_eq (length f.inputs) 1) kind.one_parameter
    _ ← handler_context f.inputs
    handler_return kind f.output

-- The adapter that the macro generates: its name and the type of its parameter.
pub record Adapter : Type 0 where
  pub name : String
  pub context : Ty

unfoldable pub handler_expand :
    {A : Type 0} → HandlerKind → (attribute_is_empty : Bool) → ItemFn A → Result Adapter
unfolding handler_signature handler_context
handler_expand kind attribute_is_empty f = do
  guard attribute_is_empty (kind.attribute <> " does not accept arguments")
  handler_signature kind f
  context ← handler_context kind f.inputs
  ok (record { name = kind.prefix <> unraw f.ident; context = context })

unfoldable pub check_expand : {A : Type 0} → (attribute_is_empty : Bool) → ItemFn A → Result Adapter
unfolding handler_expand
check_expand = handler_expand check_kind

unfoldable pub autocomplete_expand :
    {A : Type 0} → (attribute_is_empty : Bool) → ItemFn A → Result Adapter
unfolding handler_expand
autocomplete_expand = handler_expand autocomplete_kind
