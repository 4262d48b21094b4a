-- ===== src/Registration/Described.antt =====
-- crates/gloam-commands/src/registration.rs, `scalar_option`: what a registered option says of the
-- one it was made from, field by field.
use gloam_macro_commands.Common.{
  ◌≡◌, refl, String, Bool, true, false, Option, none, some, List, [], ◌∷◌, map, if◌then◌else◌,
}
use gloam_macro_commands.Discord.{
  ChoiceValue, string_choice, integer_choice, number_choice, OptionChoice,
}
use gloam_macro_commands.Descriptor.{
  CommandChoiceValue, CommandChoiceDescriptor, CommandOptionDescriptor,
}
use gloam_macro_commands.Descriptor
use gloam_macro_commands.Registration.{
  ApplicationOption, application_option, nil, create_choice, create_scalar_option,
}

-- A value of the same kind.
abbrev IsSameValue : CommandChoiceValue → ChoiceValue → Type 0
IsSameValue (Descriptor.string_choice v) (string_choice w) = w ≡ v
IsSameValue (Descriptor.integer_choice v) (integer_choice w) = w ≡ v
IsSameValue (Descriptor.number_choice v) (number_choice w) = w ≡ v
IsSameValue _ _ = ⊥

abbrev AreOffered : List CommandChoiceDescriptor → List OptionChoice → Type 0
AreOffered [] [] = Unit {0}
AreOffered (c ∷ cs) (o ∷ os) = (o.name ≡ c.name) × IsSameValue c.value o.value × AreOffered cs os
AreOffered _ _ = ⊥

abbrev IsAsked : Bool → Option Bool → Type 0
IsAsked true asked = asked ≡ some true
IsAsked false asked = asked ≡ none

-- The option with its name, description and kind, its choices and limits, and no options inside it.
abbrev pub IsRegistered : CommandOptionDescriptor → ApplicationOption → Type 0
IsRegistered d
      (application_option kind name description required choices options min_value max_value
        min_length max_length autocomplete) =
    (kind ≡ d.kind)
    × (name ≡ d.name)
    × (description ≡ d.description)
    × (required ≡ some d.required)
    × AreOffered d.choices choices
    × (options ≡ nil)
    × (min_value ≡ d.min_value)
    × (max_value ≡ d.max_value)
    × (min_length ≡ d.min_length)
    × (max_length ≡ d.max_length)
    × IsAsked d.autocomplete autocomplete

abbrev pub AreRegistered : List CommandOptionDescriptor → List ApplicationOption → Type 0
AreRegistered [] [] = Unit {0}
AreRegistered (d ∷ ds) (r ∷ rs) = IsRegistered d r × AreRegistered ds rs
AreRegistered _ _ = ⊥

same_value :
    (v : CommandChoiceValue) (name : String)
    → IsSameValue v (create_choice (record { name = name; value = v })).value
unfolding create_choice
same_value (Descriptor.string_choice v) name = refl
same_value (Descriptor.integer_choice v) name = refl
same_value (Descriptor.number_choice v) name = refl

create_choice-AreOffered :
    (cs : List CommandChoiceDescriptor) → AreOffered cs (map create_choice cs)
unfolding create_choice
create_choice-AreOffered [] = tt
create_choice-AreOffered (c ∷ cs) = (refl, same_value c.value c.name, create_choice-AreOffered cs)

asked_lem : (b : Bool) → IsAsked b (if b then some true else none)
asked_lem true = refl
asked_lem false = refl

pub create_scalar_option-AreRegistered :
    (os : List CommandOptionDescriptor) → AreRegistered os (map create_scalar_option os)
unfolding create_scalar_option
create_scalar_option-AreRegistered [] = tt
create_scalar_option-AreRegistered (o ∷ os) = (
  (
    refl,
    refl,
    refl,
    refl,
    create_choice-AreOffered o.choices,
    refl,
    refl,
    refl,
    refl,
    refl,
    asked_lem o.autocomplete,
  ),
  create_scalar_option-AreRegistered os,
)
