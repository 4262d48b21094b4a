-- ===== src/Macros/Parameters/Kinds.antt =====
-- The limits of one option, by the kind of its type.
use gloam_macro_commands.Common.{
  String, Bool, true, false, not, ◌&&◌, ◌||◌, ◌≡◌, ◌≢◌, refl, ◌⊎◌, inl, inr, Option, none, some,
  List, [], ◌∷◌, is_some, is_empty, is_empty_iff, arith, subst, not-eq-true,
}
use gloam_macro_commands.Macros.Syntax.{
  ok, ok-injective, >>=-eq-ok, seq_iff, guard_iff, checked_iff, Ident, Ty, Segments,
}
use gloam_macro_commands.Macros.Names.{Naming, IsName, IsShort}
use gloam_macro_commands.Macros.Types.{OptionKind, option_type, validate_typed_choice_type}
use gloam_macro_commands.Macros.Bounds.{numeric_bounds, string_bounds}
use gloam_macro_commands.Macros.Bounds.Ranges.{
  IsNumericRange, IsLengthRange, numeric_bounds-IsNumericRange, string_bounds-IsLengthRange,
}
use gloam_macro_commands.Macros.Choices.{
  InlineChoiceArgs, ChoiceSource, no_choices, typed_choices, takes_choices, parse_inline_choices,
}
use gloam_macro_commands.Macros.Choices.Apart.{
  AreInline, parse_inline_choices-AreInline, parse_inline_choices-none,
}
use gloam_macro_commands.Macros.Attributes.{OptionAttributes}
use gloam_macro_commands.Macros.Parameters.{
  OptionParameter, compatible, typed_parameter, scalar_parameter,
}

-- An option of a known kind: its choices and bounds suit the kind, and with autocomplete it has no
-- choices and a kind that Discord completes.
pub record IsScalar (kind : OptionKind) (o : OptionParameter) : Type 0 where
  pub of_type : option_type o.ty ≡ ok (kind, o.required)
  pub choices : AreInline kind o.choices
  pub range : IsNumericRange kind o.min o.max
  pub lengths : IsLengthRange kind o.min_length o.max_length
  pub completed : o.autocomplete ≢ none → (takes_choices kind ≡ true) × (o.choices ≡ no_choices)

-- An option of a type that derives `CommandChoice` has nothing else.
pub record IsTyped (o : OptionParameter) : Type 0 where
  pub of_type : validate_typed_choice_type o.ty ≡ ok o.required
  pub choices : o.choices ≡ typed_choices
  pub autocomplete : o.autocomplete ≡ none
  pub bounds : (o.min ≡ none) × (o.max ≡ none)
  pub lengths : (o.min_length ≡ none) × (o.max_length ≡ none)

pub record IsWithinLimits (naming : Naming) (o : OptionParameter) : Type 0 where
  pub name : IsName naming o.name
  pub description : IsShort o.description
  pub kind : ((k : OptionKind) × IsScalar k o) ⊎ IsTyped o

-- No required option comes after an optional one.
abbrev pub AreOrdered : (saw_optional : Bool) → List OptionParameter → Type 0
AreOrdered saw [] = Unit {0}
AreOrdered saw (o ∷ rest) =
    (saw ≡ true → o.required ≡ false) × AreOrdered (saw || not o.required) rest

pub completion_lem :
    (path : Option Segments) (kind : OptionKind) (args : List InlineChoiceArgs)
    (source : ChoiceSource)
    → (is_some path && not (takes_choices kind)) ≡ false
    → (is_some path && not (is_empty args)) ≡ false
    → parse_inline_choices kind args ≡ ok source
    → path ≢ none
    → (takes_choices kind ≡ true) × (source ≡ no_choices)
completion_lem none kind args source p q e h = absurd (h refl)
completion_lem (some path) kind args source p q e h =
    let empty : args ≡ [] = (is_empty_iff args).0 (ground arith) in
    (
      ground arith,
      parse_inline_choices-none kind source
          (subst (λ args. parse_inline_choices kind args ≡ ok source) empty e),
    )

abbrev pub IsNamed : (name description : String) → OptionParameter → Type 0
IsNamed name description o = (o.name ≡ name) × (o.description ≡ description)

pub scalar_parameter-IsScalar :
    (ident : Ident) (ty : Ty) (name description : String) (a : OptionAttributes)
    (o : OptionParameter)
    → scalar_parameter ident ty name description a ≡ ok o
    → (is_some a.autocomplete && not (is_empty a.inline_choices)) ≡ false
    → ((k : OptionKind) × IsScalar k o) × IsNamed name description o
unfolding scalar_parameter
scalar_parameter-IsScalar ident ty name description a o e free =
    let ((kind, required), typed, more) = >>=-eq-ok (option_type ty) _ e in
    let (completes, checked) = (seq_iff _ _ o).0 more in
    let (choices, chosen, bounded) =
      >>=-eq-ok (parse_inline_choices kind a.inline_choices) _ checked in
    let ((min, max), ranged, limited) = >>=-eq-ok (numeric_bounds kind a.min a.max) _ bounded in
    let ((low, high), lengths, same) =
      >>=-eq-ok (string_bounds kind a.min_length a.max_length) _ limited in
    let scalar : IsScalar kind (record {
      ident = ident;
      ty = ty;
      name = name;
      description = description;
      required = required;
      choices = choices;
      autocomplete = a.autocomplete;
      min = min;
      max = max;
      min_length = low;
      max_length = high;
    }) =
      record {
        of_type = typed;
        choices = parse_inline_choices-AreInline kind a.inline_choices choices chosen;
        range = numeric_bounds-IsNumericRange kind a.min a.max min max ranged;
        lengths = string_bounds-IsLengthRange kind a.min_length a.max_length low high lengths;
        completed =
            completion_lem a.autocomplete kind a.inline_choices choices
              (not-eq-true _ ((guard_iff _ _).0 completes)) free chosen;
      } in
    subst (λ o. ((k : OptionKind) × IsScalar k o) × IsNamed name description o) (ok-injective same)
      ((kind, scalar), (refl, refl))

pub typed_parameter-IsTyped :
    (ident : Ident) (ty : Ty) (name description : String) (a : OptionAttributes)
    (o : OptionParameter)
    → typed_parameter ident ty name description a ≡ ok o
    → IsTyped o × IsNamed name description o
unfolding typed_parameter
typed_parameter-IsTyped ident ty name description a o e =
    let (required, typed, more) = >>=-eq-ok (validate_typed_choice_type ty) _ e in
    let (_, same) = (checked_iff _ _ _ o).0 more in
    subst (λ o. IsTyped o × IsNamed name description o) same
      (
        record {
          of_type = typed;
          choices = refl;
          autocomplete = refl;
          bounds = (refl, refl);
          lengths = (refl, refl);
        },
        (refl, refl),
      )

pub compatible_lem :
    (a : OptionAttributes)
    → compatible a ≡ ok tt
    → a.typed_choice ≡ false
    → (is_some a.autocomplete && not (is_empty a.inline_choices)) ≡ false
unfolding compatible
compatible_lem a e h =
    untyped a.typed_choice (is_some a.autocomplete) (not (is_empty a.inline_choices))
      (not-eq-true _ ((guard_iff _ _).0 ((seq_iff _ _ tt).0 e).1)) h
  where
    untyped : (t p c : Bool) → (p && (t || c)) ≡ false → t ≡ false → (p && c) ≡ false
    untyped t p c e h = ground arith

pub chosen_kind :
    (ident : Ident) (ty : Ty) (name description : String) (a : OptionAttributes) (typed : Bool)
    (o : OptionParameter)
    → compatible a ≡ ok tt
    → a.typed_choice ≡ typed
    → elim typed [
      | true ↦ typed_parameter ident ty name description a
      | false ↦ scalar_parameter ident ty name description a
    ]
      ≡ ok o
    → (((k : OptionKind) × IsScalar k o) ⊎ IsTyped o) × IsNamed name description o
chosen_kind ident ty name description a true o c t e =
    let (typed, named) = typed_parameter-IsTyped ident ty name description a o e in
    (inr typed, named)
chosen_kind ident ty name description a false o c t e =
    let (scalar, named) =
      scalar_parameter-IsScalar ident ty name description a o e (compatible_lem a c t) in
    (inl scalar, named)
