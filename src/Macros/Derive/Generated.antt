-- ===== src/Macros/Derive/Generated.antt =====
-- crates/gloam-commands-macros/src/choice.rs: the `CommandOption` and `CommandChoice` that
-- `#[derive(CommandChoice)]` implements.
use gloam_macro_commands.Common.{
  String, Bool, false, not, ◌&&◌, ◌||◌, Option, none, some, List, find, str_eq,
}
use gloam_macro_commands.Common.Integer.{int_leb}
use gloam_macro_commands.Common.Binary64.{f64_eq}
use gloam_macro_commands.Error.{Error, invalid_choice}
use gloam_macro_commands.Error
use gloam_macro_commands.Discord.{OptionType, InteractionOption}
use gloam_macro_commands.Options.{CommandOption, string_option, integer_option, number_option}
use gloam_macro_commands.Descriptor.{CommandChoiceDescriptor}
use gloam_macro_commands.Macros.Syntax.{Result, ok, ◌>>=◌, ◌>>◌, guard, or_fail, collect, Ident}
use gloam_macro_commands.Macros.Derive.{
  ParsedValue, string_value, integer_value, number_value, VariantChoice, ChoiceKind, string,
  integer, number, DeriveInput, Host, parse_variants, infer_kind, validate_duplicates, value_of,
  descriptor_tokens,
}

-- The comparison of a submitted value with the literal of a branch.
unfoldable pub matches : ParsedValue → Option ParsedValue → Bool
matches (string_value v) (some (string_value w)) = str_eq v w
matches (integer_value a) (some (integer_value b)) = int_leb a b && int_leb b a
matches (number_value v) (some (number_value w)) = f64_eq v w
matches _ _ = false

-- The branches in order, and the error where none matches.
unfoldable pub branches :
    ChoiceKind → List VariantChoice → (name : String) → ParsedValue → Error.Result Ident
unfolding value_of matches
branches kind cs name value =
    elim (find (λ c. matches value (value_of kind c.variant c.value)) cs) [
      | none ↦ Error.err (invalid_choice name)
      | some c ↦ Error.ok c.variant
    ]

-- `extract` of the enum, whose values are the names of the variants.
unfoldable pub extraction_tokens :
    ChoiceKind → List VariantChoice → List InteractionOption → (name : String) → Error.Result Ident
unfolding branches
extraction_tokens string cs options name =
    Error.◌>>=◌ (string_option.extract options name) (λ v. branches string cs name (string_value v))
extraction_tokens integer cs options name =
    Error.◌>>=◌ (integer_option.extract options name)
      (λ z. branches integer cs name (integer_value z))
extraction_tokens number cs options name =
    Error.◌>>=◌ (number_option.extract options name) (λ v. branches number cs name (number_value v))

unfoldable pub option_kind_tokens : ChoiceKind → OptionType
option_kind_tokens string = string_option.kind
option_kind_tokens integer = integer_option.kind
option_kind_tokens number = number_option.kind

-- The two implementations.
pub record Implementation : Type 0 where
  pub option : CommandOption Ident
  pub choices : List CommandChoiceDescriptor

unfoldable pub expand : Host → DeriveInput → Result Implementation
unfolding extraction_tokens option_kind_tokens
expand host input = do
  guard (not (input.generic_params || input.where_clause))
      "generic command-choice enums are not supported"
  data_variants ← or_fail input.variants "`CommandChoice` can only be derived for enums"
  cs ← parse_variants host data_variants
  kind ← infer_kind cs
  validate_duplicates host kind cs
  descriptors ← collect (descriptor_tokens kind) cs
  ok (record {
    option = record { kind = option_kind_tokens kind; extract = extraction_tokens kind cs };
    choices = descriptors;
  })
