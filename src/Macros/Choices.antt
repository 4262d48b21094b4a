-- ===== src/Macros/Choices.antt =====
-- crates/gloam-commands-macros/src/command.rs: the choices written as `#[choice(name = .., value = ..)]`.
pub mod Apart
use gloam_macro_commands.Common.{
  ℕ, String, Bool, true, false, not, ◌&&◌, Option, none, some, List, [], ◌∷◌, ◌++◌, map, any,
  length, leb, count, contains, str_eq, if◌then◌else◌,
}
use gloam_macro_commands.Common.Integer.{ℤ, int_leb}
use gloam_macro_commands.Common.Binary64.{F64, f64_eq}
use gloam_macro_commands.Macros.Syntax.{
  Result, ok, err, ◌>>=◌, ◌>>◌, guard, or_fail, Ident, is_ident, Expr, lit_expr, Lit, str_lit,
}
use gloam_macro_commands.Macros.Stream.{ParseStream, parse_value, parse_arguments}
use gloam_macro_commands.Macros.Arguments.{replace}
use gloam_macro_commands.Macros.Names.{is_short}
use gloam_macro_commands.Macros.Types.{OptionKind, string, integer, number}
use gloam_macro_commands.Macros.Bounds.{parse_integer_bound, parse_number_bound}

pub record InlineChoiceArgs : Type 0 where
  pub name : Option String
  pub value : Option Expr

pub data ChoiceArgument : Type 0 where
  name_arg : String → ChoiceArgument
  value_arg : Expr → ChoiceArgument

module _ {S : Type 0} (stream : ParseStream S) where
  unfoldable pub read_choice_key : Ident → S → Result (ChoiceArgument × S)
  unfolding parse_value
  read_choice_key key s =
      if is_ident key "name"
      then parse_value (stream.parse_lit_str s) (λ value. ok (name_arg value))
      else if is_ident key "value"
      then parse_value (stream.parse_expr s) (λ value. ok (value_arg value))
      else err "unsupported choice argument; expected `name` or `value`"

  unfoldable pub read_choice_argument : S → Result (ChoiceArgument × S)
  unfolding read_choice_key
  read_choice_argument s = do
    (key, t) ← stream.parse_any s
    u ← stream.parse_eq t
    read_choice_key key u

unfoldable pub add_choice_argument : InlineChoiceArgs → ChoiceArgument → Result InlineChoiceArgs
add_choice_argument a (name_arg value) = do
  slot ← replace a.name value "duplicate `name` argument"
  ok (record a { name = slot })
add_choice_argument a (value_arg value) = do
  slot ← replace a.value value "duplicate `value` argument"
  ok (record a { value = slot })

unfoldable pub parse_inline_choice_args :
    {S : Type 0} → ParseStream S → (fuel : ℕ) → S → Option (Result InlineChoiceArgs)
unfolding read_choice_argument add_choice_argument parse_arguments
parse_inline_choice_args stream fuel s =
    parse_arguments stream (read_choice_argument stream) add_choice_argument fuel s
      (record { name = none; value = none })

pub data InlineChoiceValue : Type 0 where
  string_choice : String → InlineChoiceValue
  integer_choice : ℤ → InlineChoiceValue
  number_choice : F64 → InlineChoiceValue

pub record InlineChoice : Type 0 where
  pub name : String
  pub value : InlineChoiceValue

pub data ChoiceSource : Type 0 where
  no_choices : ChoiceSource
  inline_choices : List InlineChoice → ChoiceSource
  typed_choices : ChoiceSource

unfoldable pub validate_choice_name : String → Result (Unit {0})
validate_choice_name name =
    guard (is_short name) "Discord choice names must contain between 1 and 100 characters"

unfoldable pub parse_string_choice_value : Expr → Result InlineChoiceValue
parse_string_choice_value (lit_expr (str_lit value)) = do
  guard (leb (count value) 100) "Discord string choice values must contain at most 100 characters"
  ok (string_choice value)
parse_string_choice_value _ = err "string choices require string literal values"

unfoldable pub same_choice_value : InlineChoiceValue → InlineChoiceValue → Bool
same_choice_value (string_choice a) (string_choice b) = str_eq a b
same_choice_value (integer_choice a) (integer_choice b) = int_leb a b && int_leb b a
same_choice_value (number_choice a) (number_choice b) = f64_eq a b
same_choice_value _ _ = false

-- Other kinds were refused before.
unfoldable pub parse_choice_value : OptionKind → Expr → Result InlineChoiceValue
unfolding parse_string_choice_value
parse_choice_value string e = parse_string_choice_value e
parse_choice_value integer e = do value ← parse_integer_bound e; ok (integer_choice value)
parse_choice_value number e = do value ← parse_number_bound e; ok (number_choice value)
parse_choice_value _ e =
    err "internal error: entered unreachable code: choice-compatible kinds were validated"

abbrev pub takes_choices : OptionKind → Bool
takes_choices string = true
takes_choices integer = true
takes_choices number = true
takes_choices _ = false

-- The body of the loop, after the choices `parsed`, whose names are `names`.
unfoldable pub parse_choice :
    OptionKind → (parsed : List InlineChoice) → InlineChoiceArgs → Result InlineChoice
unfolding validate_choice_name parse_choice_value same_choice_value
parse_choice kind parsed choice = do
  name ← or_fail choice.name "inline choices require `name = \"...\"`"
  validate_choice_name name
  guard (not (contains (map (λ c. c.name) parsed) name)) "duplicate Discord choice name"
  expression ← or_fail choice.value "inline choices require `value = ...`"
  value ← parse_choice_value kind expression
  guard (not (any (λ existing. same_choice_value existing.value value) parsed))
      "duplicate Discord choice value"
  ok (record { name = name; value = value })

unfoldable pub parse_choices :
    OptionKind → (parsed : List InlineChoice) → List InlineChoiceArgs → Result (List InlineChoice)
unfolding parse_choice
parse_choices kind parsed [] = ok parsed
parse_choices kind parsed (choice ∷ rest) = do
  c ← parse_choice kind parsed choice
  parse_choices kind (parsed ++ c ∷ []) rest

unfoldable pub parse_inline_choices : OptionKind → List InlineChoiceArgs → Result ChoiceSource
unfolding parse_choices
parse_inline_choices kind [] = ok no_choices
parse_inline_choices kind (choice ∷ rest) = do
  guard (leb (length (choice ∷ rest)) 25) "Discord command options support at most 25 choices"
  guard (takes_choices kind)
      "Discord choices are only supported for `String`, `i64`, and `f64` options"
  parsed ← parse_choices kind [] (choice ∷ rest)
  ok (inline_choices parsed)
