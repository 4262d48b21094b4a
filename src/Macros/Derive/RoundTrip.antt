-- ===== src/Macros/Derive/RoundTrip.antt =====
-- A variant of a derived enum is extracted from the choice that is registered for it.
use mathlib.Core.Option.{some-injective}
use gloam_macro_commands.Common.{
  String, ◌≡◌, refl, sym, ap, subst, ◌∙◌, Option, none, some, List, [], Memᴰ, Distinct,
}
use gloam_macro_commands.Error
use gloam_macro_commands.Discord.{InteractionValue, InteractionOption, option_kind, option_value}
use gloam_macro_commands.Discord
use gloam_macro_commands.Options.{
  get_option, string_option, integer_option, number_option, read_string, read_integer, read_number,
}
use gloam_macro_commands.Options.Extraction.{extract_value_iff, found, get_option-IsFirst}
use gloam_macro_commands.Descriptor
use gloam_macro_commands.Descriptor.{
  CommandChoiceValue, CommandChoiceDescriptor, string_choice, integer_choice, number_choice,
}
use gloam_macro_commands.Macros.Syntax.{
  ok, or_fail, or_fail-eq-ok, >>=-eq-ok, seq_iff, ok-injective, Ident, collect, collect-source,
}
use gloam_macro_commands.Macros.Derive.{
  ParsedValue, string_value, integer_value, number_value, VariantChoice, ChoiceKind, string,
  integer, number, Variant, DeriveInput, Host, parse_variant, parse_variants, value_of,
  validate_duplicates, describe, descriptor_tokens, infer_kind,
}
use gloam_macro_commands.Macros.Derive.Generated.{
  branches, extraction_tokens, option_kind_tokens, Implementation, expand,
}
use gloam_macro_commands.Macros.Derive.Equality.{ShowsValues}
use gloam_macro_commands.Macros.Derive.Branches.{
  keys, duplicates_from-Distinct, parse_variant-fields, branches-own,
}

-- What Discord submits for a registered choice.
abbrev pub submitted_value : CommandChoiceValue → InteractionValue
submitted_value (string_choice v) = Discord.string_value v
submitted_value (integer_choice z) = Discord.integer_value z
submitted_value (number_choice v) = Discord.number_value v

-- The option is the one of its name, and is given the choice.
pub record IsSubmitted (x : Implementation) (options : List InteractionOption) (name : String)
    (o : InteractionOption) (d : CommandChoiceDescriptor) : Type 0 where
  pub found : get_option options name ≡ some o
  pub kind : option_kind o ≡ x.option.kind
  pub value : option_value o ≡ some (submitted_value d.value)

-- A value of the kind.
abbrev IsOfKind : ChoiceKind → ParsedValue → Type 0
IsOfKind string (string_value t) = Unit {0}
IsOfKind integer (integer_value z) = Unit {0}
IsOfKind number (number_value n) = Unit {0}
IsOfKind _ _ = ⊥

value_of-IsOfKind :
    (kind : ChoiceKind) (i : Ident) (given : Option ParsedValue) (v : ParsedValue)
    → value_of kind i given ≡ some v
    → IsOfKind kind v
unfolding value_of
value_of-IsOfKind string i none v e = subst (IsOfKind string) (some-injective _ _ e) tt
value_of-IsOfKind string i (some (string_value t)) v e =
    subst (IsOfKind string) (some-injective _ _ e) tt
value_of-IsOfKind integer i (some (integer_value z)) v e =
    subst (IsOfKind integer) (some-injective _ _ e) tt
value_of-IsOfKind number i (some (integer_value z)) v e =
    subst (IsOfKind number) (some-injective _ _ e) tt
value_of-IsOfKind number i (some (number_value x)) v e =
    subst (IsOfKind number) (some-injective _ _ e) tt
value_of-IsOfKind kind i given v e = cc

-- The extraction reads the submitted value, and goes to the branches with it.
extraction-branches :
    (kind : ChoiceKind) (cs : List VariantChoice) (options : List InteractionOption)
    (choice name : String) (o : InteractionOption) (v : ParsedValue)
    → IsOfKind kind v
    → get_option options name ≡ some o
    → option_kind o ≡ option_kind_tokens kind
    → option_value o ≡ some (submitted_value (describe choice v).value)
    → extraction_tokens kind cs options name ≡ branches kind cs name v
unfolding extraction_tokens option_kind_tokens describe string_option integer_option number_option
    Descriptor.string Descriptor.integer Descriptor.number
extraction-branches string cs options choice name o (string_value v) h here same given =
    ap (λ r. Error.◌>>=◌ r (λ v. branches string cs name (string_value v)))
      ((extract_value_iff Discord.string "String" read_string options name (Error.ok v)).1
        (found o v (get_option-IsFirst name options o here) same (rw given refl)))
extraction-branches integer cs options choice name o (integer_value v) h here same given =
    ap (λ r. Error.◌>>=◌ r (λ v. branches integer cs name (integer_value v)))
      ((extract_value_iff Discord.integer "i64" read_integer options name (Error.ok v)).1
        (found o v (get_option-IsFirst name options o here) same (rw given refl)))
extraction-branches number cs options choice name o (number_value v) h here same given =
    ap (λ r. Error.◌>>=◌ r (λ v. branches number cs name (number_value v)))
      ((extract_value_iff Discord.number "f64" read_number options name (Error.ok v)).1
        (found o v (get_option-IsFirst name options o here) same (rw given refl)))
extraction-branches kind cs options choice name o v h here same given = absurd h

-- What a successful expansion has established.
record Derives (host : Host) (input : DeriveInput) (x : Implementation) : Type 0 where
  variants : List Variant
  cs : List VariantChoice
  kind : ChoiceKind
  is_enum : input.variants ≡ some variants
  parsed : collect (parse_variant host) variants ≡ ok cs
  distinct : Distinct (keys host kind cs)
  described : collect (descriptor_tokens kind) cs ≡ ok x.choices
  option : x.option ≡ record { kind = option_kind_tokens kind; extract = extraction_tokens kind cs }

expand-Derives :
    (host : Host) (input : DeriveInput) (x : Implementation)
    → expand host input ≡ ok x
    → Derives host input x
unfolding expand parse_variants validate_duplicates
expand-Derives host input x e =
    let (_, e₁) = (seq_iff _ _ x).0 e in
    let (variants, enum, e₂) = >>=-eq-ok (or_fail input.variants _) _ e₁ in
    let (cs, accepted, e₃) = >>=-eq-ok (parse_variants host variants) _ e₂ in
    let (kind, _, e₄) = >>=-eq-ok (infer_kind cs) _ e₃ in
    let (apart, e₅) = (seq_iff _ _ x).0 e₄ in
    let (choices, described, e₆) = >>=-eq-ok (collect (descriptor_tokens kind) cs) _ e₅ in
    let same = ok-injective e₆ in
    record {
      variants = variants;
      cs = cs;
      kind = kind;
      is_enum = or_fail-eq-ok input.variants _ variants enum;
      parsed = ((seq_iff _ _ cs).0 ((seq_iff _ _ cs).0 accepted).1).1;
      distinct = duplicates_from-Distinct host kind [] [] cs apart tt;
      described = described ∙ ap (λ x. ok x.choices) same;
      option = sym (ap (λ x. x.option) same);
    }

descriptor_tokens-value :
    (kind : ChoiceKind) (c : VariantChoice) (d : CommandChoiceDescriptor)
    → descriptor_tokens kind c ≡ ok d
    → (v : ParsedValue) × (value_of kind c.variant c.value ≡ some v) × (d ≡ describe c.name v)
unfolding descriptor_tokens
descriptor_tokens-value kind c d e =
    let (v, own, same) = >>=-eq-ok (or_fail (value_of kind c.variant c.value) _) _ e in
    (v, or_fail-eq-ok (value_of kind c.variant c.value) _ v own, sym (ok-injective same))

describe-name : (name : String) (v : ParsedValue) → (describe name v).name ≡ name
unfolding describe Descriptor.string Descriptor.integer Descriptor.number
describe-name name (string_value t) = refl
describe-name name (integer_value z) = refl
describe-name name (number_value n) = refl

-- The choice that the variant is written with.
abbrev pub IsWrittenAs : Host → Variant → CommandChoiceDescriptor → Type 0
IsWrittenAs host v d = (c : VariantChoice) × (parse_variant host v ≡ ok c) × (d.name ≡ c.name)

-- Whatever registered choice of a derived enum is submitted, the extraction answers with the variant
-- that is written with that choice, if the texts of numbers depend on their values only.
pub expand-extract :
    (host : Host) (input : DeriveInput) (x : Implementation) (d : CommandChoiceDescriptor)
    (options : List InteractionOption) (name : String) (o : InteractionOption)
    → ShowsValues host
    → expand host input ≡ ok x
    → Memᴰ d x.choices
    → IsSubmitted x options name o d
    → (variants : List Variant) × (v : Variant) × (input.variants ≡ some variants)
      × Memᴰ v variants
      × IsWrittenAs host v d
      × (x.option.extract options name ≡ Error.ok v.ident)
expand-extract host input x d options name o shows e m s =
    let h = expand-Derives host input x e in
    let (c, described, among) =
      collect-source (descriptor_tokens h.kind) h.cs x.choices h.described m in
    let (v, parsed, source) = collect-source (parse_variant host) h.variants h.cs h.parsed among in
    let (value, own, shape) = descriptor_tokens-value h.kind c d described in
    let (named, reflexive) = parse_variant-fields host v c parsed in
    let read =
      extraction-branches h.kind h.cs options c.name name o value
        (value_of-IsOfKind h.kind c.variant c.value value own) s.found
        (s.kind ∙ ap (λ t. t.kind) h.option)
        (s.value ∙ ap (λ d. some (submitted_value d.value)) shape) in
    let own_branch =
      branches-own host h.kind h.cs name c value shows h.distinct among reflexive own in
    (
      h.variants,
      v,
      h.is_enum,
      source,
      (c, parsed, ap (λ d. d.name) shape ∙ describe-name c.name value),
      ap (λ t. t.extract options name) h.option ∙ read ∙ own_branch ∙ ap Error.ok named,
    )
