-- ===== src/Macros/Handlers/Types.antt =====
-- Types by their last segment, as the macros test them.
use mathlib.Core.Option.{some-injective}
use gloam_macro_commands.Common.{
  String, true, false, ◌≡◌, refl, sym, ◌↔◌, Option, none, some, List, [], ◌∷◌, arith, eq_iff, ap,
  subst, ◌∙◌,
}
use gloam_macro_commands.Macros.Syntax.{
  ok, ident_text, Ty, path_type, tuple_type, other_type, Segments, Segment, last_segment,
  PathArguments, no_arguments, angle_bracketed, parenthesized, end_args, type_arg, other_arg,
  plain_arguments,
}
use gloam_macro_commands.Macros.Functions.{
  Attribute, Pat, FnArg, typed_arg, ReturnType, default_return, return_type, ItemFn,
}
use gloam_macro_commands.Macros.Signature.{
  named_segment, named_type, only_type, is_named, some_named, is_bool, is_choices, result_type,
  validate_qualifiers,
}

-- The type is a path that ends in the name, with these arguments.
abbrev pub EndsIn : (name : String) → PathArguments → Ty → Type 0
EndsIn name arguments ty =
    (path : Segments) × (s : Segment) × (ty ≡ path_type path)
    × (last_segment path ≡ some s)
    × (ident_text s.ident ≡ name)
    × (s.arguments ≡ arguments)

-- `name` and `name<inner>`.
abbrev pub IsPlain : (name : String) → Ty → Type 0
IsPlain name ty = EndsIn name no_arguments ty

abbrev pub IsGeneric : (name : String) → Ty → Ty → Type 0
IsGeneric name inner ty = EndsIn name (angle_bracketed (type_arg inner end_args)) ty

-- An `async fn` without any other qualifier and without generics.
pub record IsAsyncFn {A : Type 0} (f : ItemFn A) : Type 0 where
  pub asyncness : f.asyncness ≡ true
  pub constness : f.constness ≡ false
  pub unsafety : f.unsafety ≡ false
  pub abi : f.abi ≡ false
  pub generics : (f.generic_params ≡ false) × (f.where_clause ≡ false)
  pub variadic : f.variadic ≡ false

pub validate_qualifiers_iff :
    {A : Type 0} (subject handlers : String) (f : ItemFn A)
    → (validate_qualifiers subject handlers f ≡ ok tt) ↔ IsAsyncFn f
unfolding validate_qualifiers
validate_qualifiers_iff subject handlers f = ground arith

pub named_segment_iff :
    (name : String) (o : Option Segment) (a : PathArguments)
    → (named_segment name o ≡ some a)
      ↔ ((s : Segment) × (o ≡ some s) × (ident_text s.ident ≡ name) × (s.arguments ≡ a))
unfolding named_segment
named_segment_iff name none a = (λ e. cc, λ h. cc)
named_segment_iff name (some s) a = (
  λ e. (s, refl, ground (arith, eq_iff (ident_text s.ident) name), ground arith),
  λ (t, same, named, args). ground (arith, eq_iff (ident_text s.ident) name),
)

pub named_type_iff :
    (name : String) (ty : Ty) (a : PathArguments) → (named_type name ty ≡ some a) ↔ EndsIn name a ty
unfolding named_type
named_type_iff name (path_type path) a = (
  λ e.
      let (s, last, named, args) = (named_segment_iff name (last_segment path) a).0 e in
      (path, s, refl, last, named, args),
  λ (p, s, same, last, named, args).
      (named_segment_iff name (last_segment path) a).1 (
        s,
        subst (λ p. last_segment p ≡ some s) (sym (path_type-injective same)) last,
        named,
        args,
      ),
)
  where
    path_type-injective : {p q : Segments} → path_type p ≡ path_type q → p ≡ q
    path_type-injective e = cc
named_type_iff name (tuple_type n) a = (λ e. cc, λ h. cc)
named_type_iff name (other_type n) a = (λ e. cc, λ h. cc)

pub only_type_iff :
    (o : Option PathArguments) (ty : Ty)
    → (only_type o ≡ some ty) ↔ (o ≡ some (angle_bracketed (type_arg ty end_args)))
unfolding only_type
only_type_iff none ty = (λ e. cc, λ e. cc)
only_type_iff (some no_arguments) ty = (λ e. cc, λ e. cc)
only_type_iff (some (parenthesized n)) ty = (λ e. cc, λ e. cc)
only_type_iff (some (angle_bracketed end_args)) ty = (λ e. cc, λ e. cc)
only_type_iff (some (angle_bracketed (type_arg t end_args))) ty = (λ e. cc, λ e. cc)
only_type_iff (some (angle_bracketed (type_arg t (type_arg a more)))) ty = (λ e. cc, λ e. cc)
only_type_iff (some (angle_bracketed (type_arg t (other_arg a more)))) ty = (λ e. cc, λ e. cc)
only_type_iff (some (angle_bracketed (other_arg n more))) ty = (λ e. cc, λ e. cc)

pub IsGeneric-iff :
    (name : String) (ty inner : Ty)
    → (only_type (named_type name ty) ≡ some inner) ↔ IsGeneric name inner ty
IsGeneric-iff name ty inner = (
  λ e. (named_type_iff name ty _).0 ((only_type_iff (named_type name ty) inner).0 e),
  λ h. (only_type_iff (named_type name ty) inner).1 ((named_type_iff name ty _).1 h),
)

pub plain_iff : (a : PathArguments) → (plain_arguments a ≡ true) ↔ (a ≡ no_arguments)
plain_iff no_arguments = (λ _. refl, λ _. refl)
plain_iff (angle_bracketed x) = (λ e. cc, λ e. cc)
plain_iff (parenthesized n) = (λ e. cc, λ e. cc)

pub IsPlain-iff : (name : String) (ty : Ty) → (is_named name ty ≡ true) ↔ IsPlain name ty
unfolding is_named
IsPlain-iff name ty = (
  to (named_type name ty) refl,
  λ h. rw (is_named, (named_type_iff name ty no_arguments).1 h) refl,
)
  where
    to :
        (o : Option PathArguments)
        → named_type name ty ≡ o
        → elim o [ none ↦ false | some a ↦ plain_arguments a ] ≡ true
        → IsPlain name ty
    to none found e = cc
    to (some a) found e =
        (named_type_iff name ty no_arguments).0 (found ∙ ap some ((plain_iff a).0 e))

-- `-> Result<inner>`.
abbrev pub Returns : ReturnType → Ty → Type 0
Returns output inner = (ty : Ty) × (output ≡ return_type ty) × IsGeneric "Result" inner ty

pub result_type_iff :
    (output : ReturnType) (inner : Ty) → (result_type output ≡ some inner) ↔ Returns output inner
unfolding result_type
result_type_iff default_return inner = (λ e. cc, λ h. cc)
result_type_iff (return_type ty) inner = (
  λ e. (ty, refl, (IsGeneric-iff "Result" ty inner).0 e),
  λ (t, same, h).
      (IsGeneric-iff "Result" ty inner).1
        (subst (IsGeneric "Result" inner) (sym (return_type-injective same)) h),
)
  where
    return_type-injective : {p q : Ty} → return_type p ≡ return_type q → p ≡ q
    return_type-injective e = cc

pub some_named_iff :
    (name : String) (o : Option Ty)
    → (some_named name o ≡ true) ↔ ((ty : Ty) × (o ≡ some ty) × IsPlain name ty)
unfolding some_named
some_named_iff name none = (λ e. cc, λ h. cc)
some_named_iff name (some ty) = (
  λ e. (ty, refl, (IsPlain-iff name ty).0 e),
  λ (t, same, h). (IsPlain-iff name ty).1 (subst (IsPlain name) (sym (some-injective _ _ same)) h),
)

-- The return types of the two kinds.
abbrev pub ReturnsBool : ReturnType → Type 0
ReturnsBool output = (inner : Ty) × Returns output inner × IsPlain "bool" inner

abbrev pub ReturnsChoices : ReturnType → Type 0
ReturnsChoices output =
    (vector item : Ty) × Returns output vector
    × IsGeneric "Vec" item vector
    × IsPlain "AutocompleteChoice" item

pub bool_iff : (output : ReturnType) → (is_bool (result_type output) ≡ true) ↔ ReturnsBool output
unfolding is_bool
bool_iff output =
    let (to, from) = some_named_iff "bool" (result_type output) in
    (
      λ e. let (ty, found, h) = to e in (ty, (result_type_iff output ty).0 found, h),
      λ (ty, returns, h). from (ty, (result_type_iff output ty).1 returns, h),
    )

pub vector_iff :
    (o : Option Ty)
    → (is_choices o ≡ true) ↔ (
        (vector item : Ty) × (o ≡ some vector)
        × IsGeneric "Vec" item vector
        × IsPlain "AutocompleteChoice" item)
unfolding is_choices
vector_iff none = (λ e. cc, λ h. cc)
vector_iff (some ty) =
    let (to, from) = some_named_iff "AutocompleteChoice" (only_type (named_type "Vec" ty)) in
    (
      λ e.
          let (item, found, h) = to e in (ty, item, refl, (IsGeneric-iff "Vec" ty item).0 found, h),
      λ (vector, item, same, generic, h). from (
        item,
        (IsGeneric-iff "Vec" ty item).1
            (subst (IsGeneric "Vec" item) (sym (some-injective _ _ same)) generic),
        h,
      ),
    )

pub choices_iff :
    (output : ReturnType) → (is_choices (result_type output) ≡ true) ↔ ReturnsChoices output
choices_iff output =
    let (to, from) = vector_iff (result_type output) in
    (
      λ e.
          let (vector, item, found, generic, h) = to e in
          (vector, item, (result_type_iff output vector).0 found, generic, h),
      λ (vector, item, returns, generic, h).
          from (vector, item, (result_type_iff output vector).1 returns, generic, h),
    )

-- The only parameter has the type, which is `name<State>`.
abbrev pub Takes : {A : Type 0} → (name : String) → List (FnArg A) → Ty → Type 0
Takes {A} name inputs context =
    (attrs : List (Attribute A)) × (pat : Pat) × (state : Ty) × (inputs
      ≡ typed_arg attrs pat context ∷ [])
    × IsGeneric name state context
