-- ===== src/Tests/Derives.antt =====
-- The derive of an enum of numbers, and a check and an autocomplete handler.
use gloam_macro_commands.Common.{
  ◌≡◌, refl, ◌↔◌, String, true, false, none, some, List, [], ◌∷◌, Memᴰ, arith, if◌then◌else◌,
}
use gloam_macro_commands.Common.Integer.{pos}
use gloam_macro_commands.Common.Binary64.{finite, f64_leb, f64_eq, f64_of_int, is_finite, scaled}
use gloam_macro_commands.Error
use gloam_macro_commands.Discord.{
  InteractionOption, submit, InteractionOptions, number_value, number,
}
use gloam_macro_commands.Options.{get_option, number_option}
use gloam_macro_commands.Descriptor.{CommandChoiceDescriptor}
use gloam_macro_commands.Descriptor
use gloam_macro_commands.Macros.Syntax.{
  Result, ok, err, collect, Ident, Ty, path_type, Segments, nil, cons, no_arguments,
  angle_bracketed, type_arg, end_args, Expr, lit_expr, int_lit, float_lit, Meta, list_meta,
}
use gloam_macro_commands.Macros.Functions.{ident_pat, typed_arg, return_type, ItemFn}
use gloam_macro_commands.Macros.Choices.{InlineChoiceArgs}
use gloam_macro_commands.Macros.Derive.{
  Variant, VariantChoice, DeriveInput, Host, ChoiceKind, parse_variant, zero_number, parse_variants,
  infer_kind, validate_duplicates, descriptor_tokens,
}
use gloam_macro_commands.Macros.Bounds.{parse_integer_bound, parse_number_bound}
use gloam_macro_commands.Macros.Derive
use gloam_macro_commands.Macros.Derive.Generated.{
  Implementation, expand, extraction_tokens, option_kind_tokens,
}
use gloam_macro_commands.Macros.Derive.Equality.{ShowsValues, f64_leb_trans}
use gloam_macro_commands.Macros.Derive.RoundTrip.{IsSubmitted, IsWrittenAs, expand-extract}
use gloam_macro_commands.Macros.Handlers.{
  Adapter, check_expand, autocomplete_expand, handler_return,
}
use gloam_macro_commands.Macros.Signature.{is_bool}
use gloam_macro_commands.Macros.Handlers.Types.{ReturnsBool, ReturnsChoices}
use gloam_macro_commands.Macros.Handlers.Shapes.{IsHandler, expand_iff}

abbrev word : String → Ident
word name = record { raw = false; name = name }

abbrev named : String → Segments
named name = cons (word name) no_arguments nil

abbrev list_arguments : Meta InlineChoiceArgs → Result InlineChoiceArgs
list_arguments (list_meta arguments) = arguments
list_arguments _ = err "expected attribute arguments in parentheses"

-- The sign is all that this display shows of a number.
abbrev host : Host
host = record {
  parse_args = list_arguments;
  show_integer = λ z. "";
  show_number = λ v. if f64_leb v zero_number then "-" else "+";
}

host-ShowsValues : ShowsValues host
unfolding f64_eq
host-ShowsValues a b e h =
    ground (arith, f64_leb_trans a b zero_number, f64_leb_trans b a zero_number)

abbrev variant : String → Expr → Variant
variant name value = record {
  ident = word name;
  unit_fields = true;
  attrs =
      record {
        path = named "choice";
        meta = list_meta (ok (record { name = some name; value = some value }));
      }
      ∷ [];
}

-- `enum Size { One = 1, Nothing = 0.0 }`, with the values in attributes.
abbrev variants : List Variant
variants =
    variant "One" (lit_expr (int_lit 1))
    ∷ variant "Nothing" (lit_expr (float_lit (some (finite false 0 0))))
    ∷ []

abbrev size : DeriveInput
size = record {
  ident = word "Size";
  generic_params = false;
  where_clause = false;
  variants = some variants;
}

abbrev one_choice : CommandChoiceDescriptor
one_choice = Descriptor.number "One" (f64_of_int (pos 1))

abbrev parsed_variants : List VariantChoice
parsed_variants =
    record { variant = word "One"; name = "One"; value = some (Derive.integer_value (pos 1)) }
    ∷ record {
      variant = word "Nothing";
      name = "Nothing";
      value = some (Derive.number_value (finite false 0 0));
    }
    ∷ []

abbrev size_implementation : Implementation
size_implementation = record {
  option = record { kind = number; extract = extraction_tokens Derive.number parsed_variants };
  choices = one_choice ∷ Descriptor.number "Nothing" (finite false 0 0) ∷ [];
}

size_expanded : expand host size ≡ ok size_implementation
unfolding expand parse_variants infer_kind validate_duplicates descriptor_tokens collect
    option_kind_tokens parse_integer_bound parse_number_bound f64_leb number_option is_finite scaled
    f64_eq f64_of_int
size_expanded = refl

abbrev submitted : InteractionOption
submitted =
    submit "size" number (some (number_value (f64_of_int (pos 1)))) InteractionOptions.nil none

one_submitted : IsSubmitted size_implementation (submitted ∷ []) "size" submitted one_choice
unfolding get_option Descriptor.number
one_submitted = record { found = refl; kind = refl; value = refl }

expand-extract_example :
    (variants : List Variant) × (v : Variant) × (size.variants ≡ some variants)
    × Memᴰ v variants
    × IsWrittenAs host v one_choice
    × (size_implementation.option.extract (submitted ∷ []) "size" ≡ Error.ok v.ident)
expand-extract_example =
    expand-extract host size size_implementation one_choice (submitted ∷ []) "size" submitted
      host-ShowsValues size_expanded (Memᴰ.head refl) one_submitted

abbrev generic : String → Ty → Ty
generic name inner = path_type (cons (word name) (angle_bracketed (type_arg inner end_args)) nil)

-- `async fn is_admin(ctx: Context<Data>) -> Result<bool>`.
abbrev is_admin : ItemFn InlineChoiceArgs
is_admin = record {
  ident = word "is_admin";
  asyncness = true;
  constness = false;
  unsafety = false;
  abi = false;
  generic_params = false;
  where_clause = false;
  variadic = false;
  inputs =
      typed_arg [] (ident_pat (word "ctx") false) (generic "Context" (path_type (named "Data")))
      ∷ [];
  output = return_type (generic "Result" (path_type (named "bool")));
}

abbrev adapter : Adapter
adapter = record {
  name = "__gloam_check_is_admin";
  context = generic "Context" (path_type (named "Data"));
}

expand_iff_example :
    ((check_expand true is_admin ≡ ok adapter)
      ↔ IsHandler "Context" "__gloam_check_" ReturnsBool true is_admin adapter)
    × ((autocomplete_expand true is_admin ≡ ok adapter)
        ↔ IsHandler "AutocompleteContext" "__gloam_autocomplete_" ReturnsChoices true is_admin
            adapter)
expand_iff_example = expand_iff true is_admin adapter

is_admin_accepted : check_expand true is_admin ≡ ok adapter
unfolding check_expand handler_return is_bool
is_admin_accepted = refl
