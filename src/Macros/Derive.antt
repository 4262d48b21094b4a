-- ===== src/Macros/Derive.antt =====
-- crates/gloam-commands-macros/src/choice.rs: `#[derive(CommandChoice)]`, up to the choices and the
-- extraction that the generated code performs.
pub mod Generated
pub mod Equality
pub mod Branches
pub mod RoundTrip
use gloam_macro_commands.Common.{
  ℕ, String, Bool, true, false, not, ◌&&◌, ◌||◌, Option, none, some, List, [], ◌∷◌, ◌++◌, any, find,
  length, leb, count, contains, str_eq, if◌then◌else◌, ◌<>◌, is_empty,
}
use gloam_macro_commands.Common.Integer.{ℤ, pos, int_leb}
use gloam_macro_commands.Common.Binary64.{F64, finite, f64_eq, f64_of_int}
use gloam_macro_commands.Error
use gloam_macro_commands.Discord.{OptionType, InteractionOption}
use gloam_macro_commands.Options.{string_option, integer_option, number_option, CommandOption}
use gloam_macro_commands.Descriptor.{CommandChoiceDescriptor}
use gloam_macro_commands.Descriptor
use gloam_macro_commands.Macros.Syntax.{
  Result, ok, err, ◌>>=◌, ◌>>◌, guard, or_fail, transpose, collect, Ident, unraw, Expr, lit_expr,
  neg_expr, Lit, str_lit, int_lit, float_lit, other_lit, Meta,
}
use gloam_macro_commands.Macros.Functions.{Attribute, path_is}
use gloam_macro_commands.Macros.Names.{is_short}
use gloam_macro_commands.Macros.Bounds.{parse_integer_bound, parse_number_bound}
use gloam_macro_commands.Macros.Choices.{InlineChoiceArgs, validate_choice_name}

-- The same record and parser as `InlineChoiceArgs` of command.rs.
abbrev pub ChoiceArgs : Type 0
ChoiceArgs = InlineChoiceArgs

pub data ParsedValue : Type 0 where
  string_value : String → ParsedValue
  integer_value : ℤ → ParsedValue
  number_value : F64 → ParsedValue

pub record VariantChoice : Type 0 where
  pub variant : Ident
  pub name : String
  pub value : Option ParsedValue

pub data ChoiceKind : Type 0 where
  string integer number : ChoiceKind

-- syn's variants and enums; `data` is `none` for a struct or a union.
pub record Variant : Type 0 where
  pub ident : Ident
  pub unit_fields : Bool
  pub attrs : List (Attribute ChoiceArgs)

pub record DeriveInput : Type 0 where
  pub ident : Ident
  pub generic_params : Bool
  pub where_clause : Bool
  pub variants : Option (List Variant)

-- What the macro calls of syn and of `fmt::Display`: the parse of an attribute's arguments, which
-- fails on an attribute without a list, and the decimal texts of numbers.
pub record Host : Type 0 where
  pub parse_args : Meta ChoiceArgs → Result ChoiceArgs
  pub show_integer : ℤ → String
  pub show_number : F64 → String

unfoldable pub choice_attribute :
    (found : Option (Attribute ChoiceArgs))
    → List (Attribute ChoiceArgs)
    → Result (Option (Attribute ChoiceArgs))
choice_attribute found [] = ok found
choice_attribute none (a ∷ rest) =
    if path_is a.path "choice" then choice_attribute (some a) rest else choice_attribute none rest
choice_attribute (some f) (a ∷ rest) =
    if path_is a.path "choice"
    then err "duplicate `#[choice(...)]` attribute"
    else choice_attribute (some f) rest

abbrev requires_literals : String
requires_literals = "choice values require string, integer, or number literals"

-- The literal, also behind a minus.
unfoldable pub literal : Expr → Option Lit
literal (lit_expr l) = some l
literal (neg_expr (lit_expr l)) = some l
literal _ = none

unfoldable pub value_of_literal : Expr → Lit → Result ParsedValue
value_of_literal e (str_lit value) = do
  guard (leb (count value) 100) "Discord string choice values must contain at most 100 characters"
  ok (string_value value)
value_of_literal e (int_lit n) = do value ← parse_integer_bound e; ok (integer_value value)
value_of_literal e (float_lit v) = do value ← parse_number_bound e; ok (number_value value)
value_of_literal e (other_lit n) = err requires_literals

unfoldable pub parse_value : Expr → Result ParsedValue
unfolding literal value_of_literal
parse_value e = do l ← or_fail (literal e) requires_literals; value_of_literal e l

-- An omitted value is the variant's name.
unfoldable pub short_default : Ident → Option ParsedValue → Bool
short_default i none = leb (count (unraw i)) 100
short_default i (some v) = true

unfoldable pub parse_variant : Host → Variant → Result VariantChoice
unfolding choice_attribute parse_value short_default validate_choice_name
parse_variant host v = do
  guard v.unit_fields "command-choice enum variants must be unit variants"
  found ← choice_attribute none v.attrs
  attribute ← or_fail found "command-choice variants require `#[choice(name = \"...\")]`"
  args ← host.parse_args attribute.meta
  name ← or_fail args.name "choice variants require `name = \"...\"`"
  validate_choice_name name
  value ← transpose parse_value args.value
  guard (short_default v.ident value)
      "Discord string choice values must contain at most 100 characters"
  ok (record { variant = v.ident; name = name; value = value })

unfoldable pub parse_variants : Host → List Variant → Result (List VariantChoice)
unfolding parse_variant collect
parse_variants host variants = do
  guard (not (is_empty variants)) "command-choice enums cannot be empty"
  guard (leb (length variants) 25) "Discord command options support at most 25 choices"
  collect (parse_variant host) variants

abbrev is_default : VariantChoice → Bool
is_default c = elim c.value [ none ↦ true | some _ ↦ false ]

abbrev is_string : VariantChoice → Bool
is_string c = elim c.value [ none ↦ false | some v ↦ elim v [ string_value _ ↦ true | _ ↦ false ] ]

abbrev is_integer : VariantChoice → Bool
is_integer c = elim c.value [
  | none ↦ false
  | some v ↦ elim v [ integer_value _ ↦ true | _ ↦ false ]
]

abbrev is_number : VariantChoice → Bool
is_number c = elim c.value [ none ↦ false | some v ↦ elim v [ number_value _ ↦ true | _ ↦ false ] ]

unfoldable pub infer_kind : List VariantChoice → Result ChoiceKind
infer_kind cs = do
  guard (not ((any is_default cs || any is_string cs) && (any is_integer cs || any is_number cs)))
      "command-choice enum values must all use the same scalar kind; omitted values are string choices"
  ok (
      if any is_default cs || any is_string cs
      then string
      else if any is_number cs
      then number
      else integer)

abbrev pub zero_number : F64
zero_number = finite false 0 0

unfoldable pub number_key : Host → F64 → String
number_key host value = if f64_eq value zero_number then "n:0" else "n:" <> host.show_number value

abbrev mismatch : String
mismatch = "command-choice enum values do not match the inferred choice kind"

-- The value that a choice has among those of the kind.
unfoldable pub value_of : ChoiceKind → Ident → Option ParsedValue → Option ParsedValue
value_of string i none = some (string_value (unraw i))
value_of string i (some (string_value v)) = some (string_value v)
value_of integer i (some (integer_value z)) = some (integer_value z)
value_of number i (some (integer_value z)) = some (number_value (f64_of_int z))
value_of number i (some (number_value v)) = some (number_value v)
value_of _ i _ = none

unfoldable pub key_of_value : Host → ParsedValue → String
unfolding number_key
key_of_value host (string_value v) = v
key_of_value host (integer_value z) = "i:" <> host.show_integer z
key_of_value host (number_value v) = number_key host v

unfoldable pub value_key : Host → ChoiceKind → VariantChoice → Result String
unfolding value_of key_of_value
value_key host kind c = do
  value ← or_fail (value_of kind c.variant c.value) mismatch
  ok (key_of_value host value)

-- The loop, after choices with these names and keys.
unfoldable pub duplicates_from :
    Host → ChoiceKind → (names values : List String) → List VariantChoice → Result (Unit {0})
unfolding value_key
duplicates_from host kind names values [] = ok tt
duplicates_from host kind names values (c ∷ rest) = do
  guard (not (contains names c.name)) "duplicate Discord choice name"
  key ← value_key host kind c
  guard (not (contains values key)) "duplicate Discord choice value"
  duplicates_from host kind (names ++ c.name ∷ []) (values ++ key ∷ []) rest

unfoldable pub validate_duplicates : Host → ChoiceKind → List VariantChoice → Result (Unit {0})
unfolding duplicates_from
validate_duplicates host kind cs = duplicates_from host kind [] [] cs

unfoldable pub describe : (name : String) → ParsedValue → CommandChoiceDescriptor
describe name (string_value v) = Descriptor.string name v
describe name (integer_value z) = Descriptor.integer name z
describe name (number_value v) = Descriptor.number name v

unfoldable pub descriptor_tokens : ChoiceKind → VariantChoice → Result CommandChoiceDescriptor
unfolding value_of describe
descriptor_tokens kind c = do
  value ← or_fail (value_of kind c.variant c.value) mismatch
  ok (describe c.name value)
