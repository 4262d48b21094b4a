-- ===== src/Macros/Signature.antt =====
-- crates/gloam-commands-macros/src/{command,check,autocomplete}.rs: the signatures that the macros
-- accept.
use gloam_macro_commands.Common.{
  String, Bool, false, not, ◌||◌, Option, none, some, List, [], ◌∷◌, nat_eq, if◌then◌else◌, ◌<>◌,
}
use gloam_macro_commands.Macros.Syntax.{
  Result, ok, err, ◌>>=◌, ◌>>◌, guard, or_fail, is_ident, Ty, path_type, tuple_type, other_type,
  Segment, last_segment, PathArguments, angle_bracketed, end_args, type_arg, other_arg,
  plain_arguments,
}
use gloam_macro_commands.Macros.Functions.{
  FnArg, receiver, typed_arg, ReturnType, default_return, return_type, ItemFn,
}

-- The arguments of a path type whose last segment is named so.
unfoldable pub named_segment : (name : String) → Option Segment → Option PathArguments
named_segment name none = none
named_segment name (some s) = if is_ident s.ident name then some s.arguments else none

unfoldable pub named_type : (name : String) → Ty → Option PathArguments
unfolding named_segment
named_type name (path_type path) = named_segment name (last_segment path)
named_type name (tuple_type n) = none
named_type name (other_type n) = none

-- The only argument in angle brackets, where it is a type.
unfoldable pub only_type : Option PathArguments → Option Ty
only_type (some (angle_bracketed (type_arg ty end_args))) = some ty
only_type _ = none

unfoldable pub is_named : (name : String) → Ty → Bool
unfolding named_type
is_named name ty = elim (named_type name ty) [ none ↦ false | some a ↦ plain_arguments a ]

-- The qualifiers, which the three kinds of handlers check alike.
unfoldable pub validate_qualifiers :
    {A : Type 0} → (subject handlers : String) → ItemFn A → Result (Unit {0})
validate_qualifiers subject handlers f = do
  guard f.asyncness (subject <> " must be declared with `async fn`")
  guard (not f.constness) (subject <> " cannot be `const`")
  guard (not f.unsafety) (subject <> " cannot be `unsafe`")
  guard (not f.abi) (subject <> " cannot declare an explicit ABI")
  guard (not (f.generic_params || f.where_clause)) ("generic " <> handlers <> " are not supported")
  guard (not f.variadic) ("variadic " <> handlers <> " are not supported")

abbrev returns_unit : String
returns_unit = "slash commands must return `Result<()>`"

unfoldable pub is_unit : Option Ty → Bool
is_unit (some (tuple_type n)) = nat_eq n 0
is_unit _ = false

unfoldable pub some_named : (name : String) → Option Ty → Bool
unfolding is_named
some_named name none = false
some_named name (some ty) = is_named name ty

unfoldable pub is_bool : Option Ty → Bool
unfolding some_named
is_bool = some_named "bool"

unfoldable pub is_choices : Option Ty → Bool
unfolding named_type only_type some_named
is_choices none = false
is_choices (some ty) = some_named "AutocompleteChoice" (only_type (named_type "Vec" ty))

-- What stands between the brackets of `Result<..>`.
unfoldable pub result_type : ReturnType → Option Ty
unfolding named_type only_type
result_type default_return = none
result_type (return_type ty) = only_type (named_type "Result" ty)

unfoldable pub validate_return_type : ReturnType → Result (Unit {0})
unfolding result_type is_unit
validate_return_type output = guard (is_unit (result_type output)) returns_unit

module _ {A : Type 0} where
  unfoldable pub context_argument : FnArg A → Result Ty
  unfolding named_type
  context_argument receiver =
      err "slash commands must be free functions whose first parameter is `Context<D>`"
  context_argument (typed_arg attrs pat ty) = do
    _ ←
        or_fail (named_type "Context" ty)
          "slash-command context parameter must have type `Context<D>`"
    ok ty

  unfoldable pub context_of : List (FnArg A) → Result Ty
  unfolding context_argument
  context_of [] = err "slash commands require a `Context<D>` parameter"
  context_of (argument ∷ rest) = context_argument argument

  unfoldable pub context_type : ItemFn A → Result Ty
  unfolding context_of
  context_type f = context_of f.inputs

abbrev one_state : String
one_state = "`Context` requires exactly one application-state type parameter"

unfoldable pub state_argument : PathArguments → Result Ty
state_argument (angle_bracketed (type_arg ty end_args)) = ok ty
state_argument (angle_bracketed (other_arg n end_args)) =
    err "`Context` requires an application-state type parameter"
state_argument _ = err one_state

-- The type was accepted by `context_type`, so that its path has a last segment.
unfoldable pub state_type : Ty → Result Ty
unfolding named_type state_argument
state_type context = do
  arguments ← or_fail (named_type "Context" context) "context_type validates Type::Path"
  state_argument arguments

unfoldable pub validate_signature : {A : Type 0} → ItemFn A → Result (Unit {0})
unfolding validate_qualifiers validate_return_type context_type
validate_signature f = do
  validate_qualifiers "slash commands" "slash-command handlers" f
  validate_return_type f.output
  _ ← context_type f
  ok tt
