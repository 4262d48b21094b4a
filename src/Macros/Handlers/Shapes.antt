-- ===== src/Macros/Handlers/Shapes.antt =====
-- The functions that `#[check]` and `#[autocomplete]` accept.
use gloam_macro_commands.Common.{
  String, Bool, true, ◌≡◌, refl, sym, ◌↔◌, some, List, [], ◌∷◌, length, nat_eq_iff, ◌<>◌, is_some,
  arith, ap, subst, ◌∙◌, Option-cases, inl, inr,
}
use gloam_macro_commands.Macros.Syntax.{
  ok, or_fail, or_fail-eq-ok, ok-injective, >>=-eq-ok, seq_iff, guard_iff, checked_iff, unraw, Ty,
  PathArguments, angle_bracketed, end_args, type_arg,
}
use gloam_macro_commands.Macros.Functions.{
  Attribute, Pat, FnArg, receiver, typed_arg, ReturnType, ItemFn,
}
use gloam_macro_commands.Macros.Signature.{named_type, only_type, result_type}
use gloam_macro_commands.Macros.Handlers.{
  HandlerKind, check_kind, autocomplete_kind, handler_parameter, handler_context, handler_return,
  handler_signature, Adapter, handler_expand, check_expand, autocomplete_expand,
}
use gloam_macro_commands.Macros.Handlers.Types.{
  IsGeneric, IsAsyncFn, validate_qualifiers_iff, named_type_iff, IsGeneric-iff, ReturnsBool,
  ReturnsChoices, bool_iff, choices_iff, Takes,
}

has_state :
    (kind : HandlerKind) (ty : Ty) (arguments : PathArguments)
    → named_type kind.context ty ≡ some arguments
    → is_some (only_type (some arguments)) ≡ true
    → (state : Ty) × IsGeneric kind.context state ty
has_state kind ty arguments named e = elim (Option-cases (only_type (some arguments))) [
  | inl none_left ↦ absurd (ground arith)
  | inr (state, found) ↦
      (state, (IsGeneric-iff kind.context ty state).0 (ap only_type named ∙ found))
]

typed_iff :
    {A : Type 0} (kind : HandlerKind) (attrs : List (Attribute A)) (pat : Pat) (ty context : Ty)
    → (handler_parameter kind (typed_arg attrs pat ty) ≡ ok context)
      ↔ ((ty ≡ context) × ((state : Ty) × IsGeneric kind.context state ty))
unfolding handler_parameter
typed_iff kind attrs pat ty context = (
  λ e.
      let (arguments, named, more) =
        >>=-eq-ok (or_fail (named_type kind.context ty) kind.wrong_context) _ e in
      let (generic, same) = (checked_iff _ _ ty context).0 more in
      let found = or_fail-eq-ok (named_type kind.context ty) kind.wrong_context arguments named in
      (same, has_state kind ty arguments found generic),
  λ (same, (state, generic)). from same ((named_type_iff kind.context ty _).1 generic),
)
  where
    from :
        {state : Ty}
        → ty ≡ context
        → named_type kind.context ty ≡ some (angle_bracketed (type_arg state end_args))
        → handler_parameter kind (typed_arg attrs pat ty) ≡ ok context
    from same found = rw (handler_parameter, found) (ap ok same)

parameter_iff :
    {A : Type 0} (kind : HandlerKind) (inputs : List (FnArg A)) (context : Ty)
    → ((length inputs ≡ 1) × (handler_context kind inputs ≡ ok context))
      ↔ Takes kind.context inputs context
unfolding handler_context
parameter_iff kind [] context = (λ h. cc, λ h. cc)
parameter_iff kind (a ∷ b ∷ rest) context = (λ h. absurd (omega (arith, h.0)), λ h. cc)
parameter_iff kind (receiver ∷ []) context = (λ h. cc, λ h. cc)
parameter_iff kind (typed_arg attrs pat ty ∷ []) context =
    let (to, from) = typed_iff kind attrs pat ty context in
    (
      λ (_, e).
          let (same, (state, generic)) = to e in
          (
            attrs,
            pat,
            state,
            ap (λ t. typed_arg attrs pat t ∷ []) same,
            subst (IsGeneric kind.context state) same generic,
          ),
      λ (a, p, state, same, generic).
          let same_type : ty ≡ context = cc in
          (
            refl,
            from (same_type, (state, subst (IsGeneric kind.context state) (sym same_type) generic)),
          ),
    )

-- What a macro of the kind accepts and generates.
record Accepts {A : Type 0} (kind : HandlerKind) (empty : Bool) (f : ItemFn A) (x : Adapter)
    : Type 0 where
  bare : empty ≡ true
  async : IsAsyncFn f
  parameter : Takes kind.context f.inputs x.context
  result : kind.is_result (result_type f.output) ≡ true
  name : x.name ≡ kind.prefix <> unraw f.ident

handler_expand_iff :
    {A : Type 0} (kind : HandlerKind) (empty : Bool) (f : ItemFn A) (x : Adapter)
    → (handler_expand kind empty f ≡ ok x) ↔ Accepts kind empty f x
unfolding handler_expand handler_signature handler_return
handler_expand_iff kind empty f x = (
  λ e.
      let (bare, e₁) = (seq_iff _ _ x).0 e in
      let (signature, e₂) = (seq_iff _ _ x).0 e₁ in
      let (context, taken, same) = >>=-eq-ok (handler_context kind f.inputs) _ e₂ in
      let (qualified, s₁) = (seq_iff _ _ tt).0 signature in
      let (counted, s₂) = (seq_iff _ _ tt).0 s₁ in
      let (_, _, returned) = >>=-eq-ok (handler_context kind f.inputs) _ s₂ in
      let one = (nat_eq_iff (length f.inputs) 1).0 ((guard_iff _ _).0 counted) in
      subst (Accepts kind empty f) (ok-injective same) (record {
        bare = (guard_iff _ _).0 bare;
        async = (validate_qualifiers_iff kind.subject kind.subject f).0 qualified;
        parameter = (parameter_iff kind f.inputs context).0 (one, taken);
        result = (guard_iff _ _).0 returned;
        name = refl;
      }),
  λ h.
      let (one, taken) = (parameter_iff kind f.inputs x.context).1 h.parameter in
      rw
        (
          handler_expand,
          handler_signature,
          handler_return,
          h.bare,
          (validate_qualifiers_iff kind.subject kind.subject f).1 h.async,
          (nat_eq_iff (length f.inputs) 1).1 one,
          taken,
          h.result,
        )
        (ap (λ n. ok (record { name = n; context = x.context })) (sym h.name)),
)

-- A handler of a kind, with its adapter, by its shape.
abbrev pub IsHandler :
    {A : Type 0}
    → (context prefix : String) → (ReturnType → Type 0)
    → (empty : Bool) → ItemFn A
    → Adapter
    → Type 0
IsHandler context prefix ReturnsIt empty f x =
    (empty ≡ true)
    × IsAsyncFn f
    × Takes context f.inputs x.context
    × ReturnsIt f.output
    × (x.name ≡ prefix <> unraw f.ident)

shaped_iff :
    {A : Type 0} (kind : HandlerKind) (ReturnsIt : ReturnType → Type 0)
    → ((output : ReturnType) → (kind.is_result (result_type output) ≡ true) ↔ ReturnsIt output)
    → (empty : Bool) (f : ItemFn A) (x : Adapter)
    → (handler_expand kind empty f ≡ ok x) ↔ IsHandler kind.context kind.prefix ReturnsIt empty f x
shaped_iff kind ReturnsIt returns empty f x =
    let (to, from) = handler_expand_iff kind empty f x in
    (
      λ e. let h = to e in (h.bare, h.async, h.parameter, (returns f.output).0 h.result, h.name),
      λ (bare, async, parameter, result, name). from (record {
        bare = bare;
        async = async;
        parameter = parameter;
        result = (returns f.output).1 result;
        name = name;
      }),
    )

-- `#[check]` accepts exactly `async fn(Context<D>) -> Result<bool>`, and `#[autocomplete]` exactly
-- `async fn(AutocompleteContext<D>) -> Result<Vec<AutocompleteChoice>>`, both without arguments of
-- their own and without other qualifiers or generics, and the adapter has the prefixed name and
-- takes the same context.
pub expand_iff :
    {A : Type 0} (empty : Bool) (f : ItemFn A) (x : Adapter)
    → ((check_expand empty f ≡ ok x) ↔ IsHandler "Context" "__gloam_check_" ReturnsBool empty f x)
      × ((autocomplete_expand empty f ≡ ok x)
          ↔ IsHandler "AutocompleteContext" "__gloam_autocomplete_" ReturnsChoices empty f x)
unfolding check_expand autocomplete_expand
expand_iff empty f x = (
  shaped_iff check_kind ReturnsBool bool_iff empty f x,
  shaped_iff autocomplete_kind ReturnsChoices choices_iff empty f x,
)
