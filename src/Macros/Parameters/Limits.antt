-- ===== src/Macros/Parameters/Limits.antt =====
-- The options that `#[command]` accepts respect Discord's limits.
use gloam_macro_commands.Common.{
  suc, ◌-◌, ◌≤◌, String, Bool, true, false, not, ◌&&◌, ◌||◌, ◌≡◌, refl, List, [], ◌∷◌, ◌∙◌, map,
  length, leb_iff, All, arith, subst, sym, ap, not-eq-true,
}
use gloam_macro_commands.Macros.Syntax.{
  ok, or_fail, ok-injective, >>=-eq-ok, seq_iff, guard_iff, Ident, unraw, Ty,
}
use gloam_macro_commands.Macros.Functions.{ident_pat, other_pat, FnArg, receiver, typed_arg}
use gloam_macro_commands.Macros.Names.{
  Naming, IsName, IsShort, validate_name-IsName, validate_description-IsShort,
}
use gloam_macro_commands.Macros.Choices.{InlineChoiceArgs}
use gloam_macro_commands.Macros.Attributes.{OptionAttributes, take_option_attributes}
use gloam_macro_commands.Macros.Parameters.{
  OptionParameter, described_parameter, option_parameter, options_from, parameter_names, skip_one,
  option_parameters,
}
use gloam_macro_commands.Macros.Parameters.Kinds.{IsWithinLimits, AreOrdered, chosen_kind}

described_parameter-IsWithinLimits :
    (naming : Naming) (ident : Ident) (ty : Ty) (name : String) (a : OptionAttributes)
    (o : OptionParameter)
    → described_parameter ident ty name a ≡ ok o
    → IsName naming name
    → IsWithinLimits naming o × (o.name ≡ name)
unfolding described_parameter
described_parameter-IsWithinLimits naming ident ty name a o e named =
    let (description, _, more) = >>=-eq-ok (or_fail a.description _) _ e in
    let (short, checked) = (seq_iff _ _ o).0 more in
    let (fits, chosen) = (seq_iff _ _ o).0 checked in
    let (kind, (same_name, same_description)) =
      chosen_kind ident ty name description a a.typed_choice o fits refl chosen in
    (
      record {
        name = subst (IsName naming) (sym same_name) named;
        description =
            subst IsShort (sym same_description) (validate_description-IsShort description short);
        kind = kind;
      },
      same_name,
    )

option_parameter-IsWithinLimits :
    (naming : Naming) (argument : FnArg InlineChoiceArgs) (o : OptionParameter)
    (left : FnArg InlineChoiceArgs)
    → option_parameter naming argument ≡ ok (o, left)
    → IsWithinLimits naming o × (parameter_names (argument ∷ []) ≡ o.name ∷ [])
unfolding option_parameter
option_parameter-IsWithinLimits naming (typed_arg attrs (ident_pat ident false) ty) o left e =
    let (named, more) = (seq_iff _ _ (o, left)).0 e in
    let ((a, retained), _, parsed) = >>=-eq-ok (take_option_attributes attrs) _ more in
    let (option, here, same) = >>=-eq-ok (described_parameter ident ty (unraw ident) a) _ parsed in
    let (limited, called) =
      described_parameter-IsWithinLimits naming ident ty (unraw ident) a option here
        (validate_name-IsName naming (unraw ident) named) in
    subst (λ (o, left). IsWithinLimits naming o × (unraw ident ∷ [] ≡ o.name ∷ []))
      (ok-injective same) (limited, cc)
option_parameter-IsWithinLimits naming receiver o left e = cc
option_parameter-IsWithinLimits naming (typed_arg attrs pat ty) o left e = cc

-- Every option is within the limits, and they come in order.
abbrev AreLimited : Naming → (saw_optional : Bool) → List OptionParameter → Type 0
AreLimited naming saw os = All (IsWithinLimits naming) os × AreOrdered saw os

parameter_names-cons :
    (argument : FnArg InlineChoiceArgs) (rest : List (FnArg InlineChoiceArgs)) (name : String)
    → parameter_names (argument ∷ []) ≡ name ∷ []
    → parameter_names (argument ∷ rest) ≡ name ∷ parameter_names rest
parameter_names-cons receiver rest name e = cc
parameter_names-cons (typed_arg attrs (ident_pat i sub) ty) rest name e = ground arith
parameter_names-cons (typed_arg attrs (other_pat n) ty) rest name e = cc

-- What is known of the options of some parameters.
record AreRead (naming : Naming) (saw : Bool) (arguments : List (FnArg InlineChoiceArgs))
    (os : List OptionParameter) : Type 0 where
  limited : AreLimited naming saw os
  counted : length os ≡ length arguments
  named : map (λ o. o.name) os ≡ parameter_names arguments

options_from-AreRead :
    (naming : Naming) (saw : Bool) (arguments : List (FnArg InlineChoiceArgs))
    (os : List OptionParameter) (lefts : List (FnArg InlineChoiceArgs))
    → options_from naming saw arguments ≡ ok (os, lefts)
    → AreRead naming saw arguments os
unfolding options_from
options_from-AreRead naming saw [] os lefts e =
    subst (λ (os, lefts). AreRead naming saw [] os) (ok-injective e)
      (record { limited = (tt, tt); counted = refl; named = refl })
options_from-AreRead naming saw (argument ∷ rest) os lefts e =
    let ((o, left), here, more) = >>=-eq-ok (option_parameter naming argument) _ e in
    let (ordered, parsed) = (seq_iff _ _ (os, lefts)).0 more in
    let ((os', lefts'), there, same) =
      >>=-eq-ok (options_from naming (saw || not o.required) rest) _ parsed in
    let tail = options_from-AreRead naming (saw || not o.required) rest os' lefts' there in
    let (limits, called) = option_parameter-IsWithinLimits naming argument o left here in
    let allowed = not-eq-true _ ((guard_iff _ _).0 ordered) in
    subst (λ (os, lefts). AreRead naming saw (argument ∷ rest) os) (ok-injective same)
      (record {
        limited =
            ((limits, tail.limited.0), (optional_after saw o.required allowed, tail.limited.1));
        counted = ap suc tail.counted;
        named =
            ap (λ names. o.name ∷ names) tail.named
            ∙ sym (parameter_names-cons argument rest o.name called);
      })
  where
    optional_after :
        (saw required : Bool) → (required && saw) ≡ false → saw ≡ true → required ≡ false
    optional_after saw required e h = ground arith

length-skip_one : {A : Type 0} (xs : List A) → length (skip_one xs) ≡ length xs - 1
length-skip_one [] = refl
length-skip_one (x ∷ xs) = omega arith

pub option_parameters-IsWithinLimits :
    (naming : Naming) (inputs : List (FnArg InlineChoiceArgs)) (os : List OptionParameter)
    (lefts : List (FnArg InlineChoiceArgs))
    → option_parameters naming inputs ≡ ok (os, lefts)
    → (length os ≤ 25) × All (IsWithinLimits naming) os × AreOrdered false os
unfolding option_parameters
option_parameters-IsWithinLimits naming inputs os lefts e =
    let (few, parsed) = (seq_iff _ _ (os, lefts)).0 e in
    let read = options_from-AreRead naming false (skip_one inputs) os lefts parsed in
    let bound : length inputs - 1 ≤ 25 =
      (leb_iff (length inputs - 1) 25).0 ((guard_iff _ _).0 few) in
    let short : length os ≤ 25 = at_most read.counted bound in
    (short, read.limited.0, read.limited.1)
  where
    at_most : length os ≡ length (skip_one inputs) → length inputs - 1 ≤ 25 → length os ≤ 25
    at_most counted bound = omega (arith, counted, length-skip_one inputs, bound)

-- The options are named as the parameters after the context.
pub option_parameters-names :
    (naming : Naming) (inputs : List (FnArg InlineChoiceArgs)) (os : List OptionParameter)
    (lefts : List (FnArg InlineChoiceArgs))
    → option_parameters naming inputs ≡ ok (os, lefts)
    → map (λ o. o.name) os ≡ parameter_names (skip_one inputs)
unfolding option_parameters
option_parameters-names naming inputs os lefts e =
    (options_from-AreRead naming false (skip_one inputs) os lefts
      ((seq_iff _ _ (os, lefts)).0 e).1).named
