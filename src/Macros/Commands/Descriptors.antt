-- ===== src/Macros/Commands/Descriptors.antt =====
-- The options that `#[command]` generates: what the validation of a leaf reads of them.
use gloam_macro_commands.Common.{ℕ, false, ◌≡◌, refl, ◌∙◌, List, Option, none, some, [], is_some}
use gloam_macro_commands.Descriptor.{
  CommandChoiceDescriptor, CommandOptionDescriptor, new_option, with_choices, min_integer,
  max_integer, min_number, max_number, min_length, max_length,
}
use gloam_macro_commands.Descriptor
use gloam_macro_commands.Macros.Syntax.{Segments}
use gloam_macro_commands.Macros.Bounds.{NumericBound, integer_value, number_value}
use gloam_macro_commands.Macros.Choices.{ChoiceSource, no_choices, inline_choices, typed_choices}
use gloam_macro_commands.Macros.Parameters.{OptionParameter}
use gloam_macro_commands.Macros.Commands.{
  Scope, choose, set_min, set_max, apply_some, option_descriptor_tokens,
}

-- The same in what the validation reads.
abbrev Agree : CommandOptionDescriptor → CommandOptionDescriptor → Type 0
Agree d e =
    (d.name ≡ e.name)
    × (d.kind ≡ e.kind)
    × (d.choices ≡ e.choices)
    × (d.autocomplete ≡ e.autocomplete)

set_min-Agree :
    (bound : Option NumericBound) (d : CommandOptionDescriptor) → Agree (set_min bound d) d
unfolding set_min min_integer min_number
set_min-Agree none d = (refl, refl, refl, refl)
set_min-Agree (some (integer_value v)) d = (refl, refl, refl, refl)
set_min-Agree (some (number_value v)) d = (refl, refl, refl, refl)

set_max-Agree :
    (bound : Option NumericBound) (d : CommandOptionDescriptor) → Agree (set_max bound d) d
unfolding set_max max_integer max_number
set_max-Agree none d = (refl, refl, refl, refl)
set_max-Agree (some (integer_value v)) d = (refl, refl, refl, refl)
set_max-Agree (some (number_value v)) d = (refl, refl, refl, refl)

set_lengths-Agree :
    (low high : Option ℕ) (d : CommandOptionDescriptor)
    → Agree (apply_some max_length high (apply_some min_length low d)) d
unfolding min_length max_length
set_lengths-Agree none none d = (refl, refl, refl, refl)
set_lengths-Agree none (some b) d = (refl, refl, refl, refl)
set_lengths-Agree (some a) none d = (refl, refl, refl, refl)
set_lengths-Agree (some a) (some b) d = (refl, refl, refl, refl)

choose-fields :
    (typed : List CommandChoiceDescriptor) (source : ChoiceSource) (d : CommandOptionDescriptor)
    → let e = choose typed source d in
      (e.name ≡ d.name)
      × (e.kind ≡ d.kind)
      × (source ≡ no_choices → e.choices ≡ d.choices)
      × (e.autocomplete ≡ d.autocomplete)
unfolding choose with_choices
choose-fields typed no_choices d = (refl, refl, λ _. refl, refl)
choose-fields typed (inline_choices cs) d = (refl, refl, λ e. cc, refl)
choose-fields typed typed_choices d = (refl, refl, λ e. cc, refl)

complete-fields :
    (path : Option Segments) (d : CommandOptionDescriptor)
    → d.autocomplete ≡ false
    → let e = apply_some (λ d _. Descriptor.autocomplete d) path d in
      (e.name ≡ d.name)
      × (e.kind ≡ d.kind)
      × (e.choices ≡ d.choices)
      × (e.autocomplete ≡ is_some path)
unfolding Descriptor.autocomplete
complete-fields none d h = (refl, refl, refl, h)
complete-fields (some p) d h = (refl, refl, refl, refl)

-- The fields of a generated option.
pub option_descriptor_tokens-fields :
    {W V : Type 0} (scope : Scope W V) (o : OptionParameter)
    → let d = option_descriptor_tokens scope o in
      (d.name ≡ o.name)
      × (d.kind ≡ scope.kind o.ty)
      × (o.choices ≡ no_choices → d.choices ≡ [])
      × (d.autocomplete ≡ is_some o.autocomplete)
unfolding option_descriptor_tokens new_option
option_descriptor_tokens-fields scope o =
    let first = new_option o.name o.description (scope.kind o.ty) o.required in
    let d₀ = choose (scope.choices o.ty) o.choices first in
    let d₁ = set_min o.min d₀ in
    let d₂ = set_max o.max d₁ in
    let d₃ = apply_some max_length o.max_length (apply_some min_length o.min_length d₂) in
    let (n₀, k₀, c₀, a₀) = choose-fields (scope.choices o.ty) o.choices first in
    let (n₁, k₁, c₁, a₁) = set_min-Agree o.min d₀ in
    let (n₂, k₂, c₂, a₂) = set_max-Agree o.max d₁ in
    let (n₃, k₃, c₃, a₃) = set_lengths-Agree o.min_length o.max_length d₂ in
    let (n₄, k₄, c₄, a₄) = complete-fields o.autocomplete d₃ (a₃ ∙ a₂ ∙ a₁ ∙ a₀) in
    (n₄ ∙ n₃ ∙ n₂ ∙ n₁ ∙ n₀, k₄ ∙ k₃ ∙ k₂ ∙ k₁ ∙ k₀, λ plain. c₄ ∙ c₃ ∙ c₂ ∙ c₁ ∙ c₀ plain, a₄)
