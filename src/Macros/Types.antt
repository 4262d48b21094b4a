-- ===== src/Macros/Types.antt =====
-- crates/gloam-commands-macros/src/command.rs: the types of option parameters.
use gloam_macro_commands.Common.{
  String, Bool, true, false, Option, none, some, if◌then◌else◌, is_some,
}
use gloam_macro_commands.Macros.Syntax.{
  Result, ok, err, ◌>>=◌, or_fail, Ident, is_ident, Ty, path_type, tuple_type, other_type, Segment,
  last_segment, PathArguments, no_arguments, angle_bracketed, parenthesized, end_args, type_arg,
  other_arg, plain_arguments,
}

pub data OptionKind : Type 0 where
  string boolean integer number user channel role attachment : OptionKind

abbrev nested_option : String
nested_option = "nested `Option<Option<T>>` slash-command parameters are not supported"

abbrev one_inner_type : String
one_inner_type = "`Option` slash-command parameters require exactly one inner type"

abbrev unsupported_option_type : String
unsupported_option_type =
    "unsupported slash-command option type; expected `String`, `bool`, `i64`, `f64`, `UserId`, `ChannelId`, `RoleId`, `AttachmentId`, or `Option<T>` of one of those types"

abbrev requires_choice : String
requires_choice = "bare `#[choice]` requires a type that derives `CommandChoice`"

unfoldable pub known_option_kind : Ident → Option OptionKind
known_option_kind i =
    if is_ident i "String"
    then some string
    else if is_ident i "bool"
    then some boolean
    else if is_ident i "i64"
    then some integer
    else if is_ident i "f64"
    then some number
    else if is_ident i "UserId"
    then some user
    else if is_ident i "ChannelId"
    then some channel
    else if is_ident i "RoleId"
    then some role
    else if is_ident i "AttachmentId"
    then some attachment
    else none

-- The type inside `Option<..>`, from the arguments of its last segment.
unfoldable pub inner_argument : PathArguments → Result (Option Ty)
inner_argument no_arguments = err one_inner_type
inner_argument (parenthesized n) = err one_inner_type
inner_argument (angle_bracketed end_args) = err one_inner_type
inner_argument (angle_bracketed (type_arg inner end_args)) = ok (some inner)
inner_argument (angle_bracketed (type_arg inner (type_arg a more))) = err one_inner_type
inner_argument (angle_bracketed (type_arg inner (other_arg a more))) = err one_inner_type
inner_argument (angle_bracketed (other_arg n end_args)) =
    err "`Option` slash-command parameters require an inner Rust type"
inner_argument (angle_bracketed (other_arg n (type_arg a more))) = err one_inner_type
inner_argument (angle_bracketed (other_arg n (other_arg a more))) = err one_inner_type

unfoldable pub inner_of_segment : Option Segment → Result (Option Ty)
unfolding inner_argument
inner_of_segment none = ok none
inner_of_segment (some s) =
    if is_ident s.ident "Option" then inner_argument s.arguments else ok none

unfoldable pub option_inner_type : Ty → Result (Option Ty)
unfolding inner_of_segment
option_inner_type (path_type path) = inner_of_segment (last_segment path)
option_inner_type (tuple_type n) = ok none
option_inner_type (other_type n) = ok none

unfoldable pub kind_of_segment : Option Segment → Result OptionKind
unfolding known_option_kind
kind_of_segment none = err unsupported_option_type
kind_of_segment (some s) =
    if plain_arguments s.arguments
    then or_fail (known_option_kind s.ident) unsupported_option_type
    else err unsupported_option_type

unfoldable pub supported_option_kind : Ty → Result OptionKind
unfolding kind_of_segment
supported_option_kind (path_type path) = kind_of_segment (last_segment path)
supported_option_kind (tuple_type n) = err unsupported_option_type
supported_option_kind (other_type n) = err unsupported_option_type

-- The type inside one `Option`, or the type itself, and whether the option is required.
unfoldable pub refuse_nested : Option Ty → (inner : Ty) → Result (Ty × Bool)
refuse_nested none inner = ok (inner, false)
refuse_nested (some deeper) inner = err nested_option

unfoldable pub strip_option : Option Ty → Ty → Result (Ty × Bool)
unfolding refuse_nested option_inner_type
strip_option none ty = ok (ty, true)
strip_option (some inner) ty = option_inner_type inner >>= λ deeper. refuse_nested deeper inner

unfoldable pub option_type : Ty → Result (OptionKind × Bool)
unfolding strip_option option_inner_type supported_option_kind
option_type ty = do
  found ← option_inner_type ty
  (inner, required) ← strip_option found ty
  kind ← supported_option_kind inner
  ok (kind, required)

unfoldable pub choice_of_segment : Option Segment → (required : Bool) → Result Bool
unfolding known_option_kind
choice_of_segment none required = err requires_choice
choice_of_segment (some s) required =
    if plain_arguments s.arguments
    then (if is_some (known_option_kind s.ident) then err requires_choice else ok required)
    else err requires_choice

unfoldable pub choice_type : Ty → (required : Bool) → Result Bool
unfolding choice_of_segment
choice_type (path_type path) required = choice_of_segment (last_segment path) required
choice_type (tuple_type n) required = err requires_choice
choice_type (other_type n) required = err requires_choice

unfoldable pub validate_typed_choice_type : Ty → Result Bool
unfolding strip_option option_inner_type choice_type
validate_typed_choice_type ty = do
  found ← option_inner_type ty
  (inner, required) ← strip_option found ty
  choice_type inner required
