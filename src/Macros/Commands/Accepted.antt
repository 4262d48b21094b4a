-- ===== src/Macros/Commands/Accepted.antt =====
-- From the text of `#[command(..)] async fn ..` to a command that the registry accepts.
use gloam_macro_commands.Common.{
  ℕ, ◌≤◌, String, ◌≡◌, ◌≢◌, refl, sym, ap, ◌∙◌, Option, none, some, List, map, Unique, length,
  length-map, unwrap_or, subst,
}
use gloam_macro_commands.Descriptor.{CommandDescriptor, new_command, with_options}
use gloam_macro_commands.Command.{leaf, SlashCommandLeaf}
use gloam_macro_commands.Registry.Leaves.{IsValidLeaf}
use gloam_macro_commands.Macros.Syntax.{
  Result, ok, err, or_fail, or_fail-eq-ok, ok-injective, >>=-eq-ok, seq_iff, unraw,
}
use gloam_macro_commands.Macros.Functions.{ItemFn, FnArg}
use gloam_macro_commands.Macros.Stream.{ParseStream}
use gloam_macro_commands.Macros.Arguments.{CommandArgs, parse_command_args}
use gloam_macro_commands.Macros.Arguments.Parsing.{parse_command_args-Holds}
use gloam_macro_commands.Macros.Arguments.Positive.{max_concurrency-positive}
use gloam_macro_commands.Macros.Names.{
  Naming, IsName, IsShort, validate_name-IsName, validate_description-IsShort,
}
use gloam_macro_commands.Macros.Choices.{InlineChoiceArgs}
use gloam_macro_commands.Macros.Parameters.{
  OptionParameter, option_parameters, parameter_names, skip_one,
}
use gloam_macro_commands.Macros.Parameters.Limits.{
  option_parameters-IsWithinLimits, option_parameters-names,
}
use gloam_macro_commands.Macros.Signature.{context_type, state_type}
use gloam_macro_commands.Macros.Commands.{
  Scope, Expansion, option_descriptor_tokens, autocomplete_handlers, handler_body, expand_args,
  expand_parsed, expand,
}
use gloam_macro_commands.Macros.Commands.Policies.{
  described_policy, override_id, command_factory_lem,
}
use gloam_macro_commands.Macros.Commands.Leaves.{Resolves, generated-IsValidLeaf}

module _ {W V : Type 0} (naming : Naming) (scope : Scope W V) where
  -- What a successful expansion generates.
  record Generates (args : CommandArgs) (f : ItemFn InlineChoiceArgs) (x : Expansion W)
      : Type 0 where
    name : IsName naming (unwrap_or args.name (unraw f.ident))
    description : String
    described : (args.description ≡ some description) × IsShort description
    options : List OptionParameter
    left : List (FnArg InlineChoiceArgs)
    parsed : option_parameters naming f.inputs ≡ ok (options, left)
    command :
        x.command
        ≡ leaf
            (with_options
              (new_command (unwrap_or args.name (unraw f.ident)) description)
              (map (option_descriptor_tokens scope) options))
            (record {
              handler = handler_body scope options;
              autocomplete = autocomplete_handlers scope options;
              policy = described_policy scope args;
            })

  expand_args-Generates :
      (args : CommandArgs) (f : ItemFn InlineChoiceArgs) (x : Expansion W)
      → expand_args naming scope args f ≡ ok x
      → Generates args f x
  unfolding expand_args
  expand_args-Generates args f x e =
      let (_, e₁) = (seq_iff _ _ x).0 e in
      let (description, described, e₂) = >>=-eq-ok (or_fail args.description _) _ e₁ in
      let (named, e₃) = (seq_iff _ _ x).0 e₂ in
      let (short, e₄) = (seq_iff _ _ x).0 e₃ in
      let (context, _, e₅) = >>=-eq-ok (context_type f) _ e₄ in
      let (state, _, e₆) = >>=-eq-ok (state_type context) _ e₅ in
      let ((options, left), parsed, e₇) = >>=-eq-ok (option_parameters naming f.inputs) _ e₆ in
      record {
        name = validate_name-IsName naming (unwrap_or args.name (unraw f.ident)) named;
        description = description;
        described = (
          or_fail-eq-ok args.description _ description described,
          validate_description-IsShort description short,
        );
        options = options;
        left = left;
        parsed = parsed;
        command =
            ap (λ y. y.command) (sym (ok-injective e₇))
            ∙ command_factory_lem scope args
                (with_options (new_command (unwrap_or args.name (unraw f.ident)) description)
                  (map (option_descriptor_tokens scope) options))
                (handler_body scope options) (autocomplete_handlers scope options);
      }

  expand_parsed-ok :
      (r : Option (Result CommandArgs)) (f : ItemFn InlineChoiceArgs) (x : Expansion W)
      → expand_parsed naming scope r f ≡ some (ok x)
      → (args : CommandArgs) × (r ≡ some (ok args)) × (expand_args naming scope args f ≡ ok x)
  unfolding expand_parsed
  expand_parsed-ok none f x e = cc
  expand_parsed-ok (some (err m)) f x e = cc
  expand_parsed-ok (some (ok args)) f x e = (args, refl, cc)

  -- Whatever `#[command]` accepts expands to a leaf that the registry accepts, with a valid name, a
  -- valid description and at most 25 options, if the types of the options resolve to the standard
  -- ones that they are named after and the function's parameters have different names.
  pub expand-IsValidLeaf :
      {S : Type 0} (stream : ParseStream S) (fuel : ℕ) (s : S) (f : ItemFn InlineChoiceArgs)
      (x : Expansion W)
      → Resolves scope
      → Unique (parameter_names (skip_one f.inputs))
      → expand naming scope stream fuel s f ≡ some (ok x)
      → (d : CommandDescriptor) × (l : SlashCommandLeaf W) × (x.command ≡ leaf d l)
        × IsValidLeaf d l
        × IsName naming d.name
        × IsShort d.description
        × (length d.options ≤ 25)
  unfolding expand with_options new_command
  expand-IsValidLeaf stream fuel s f x resolves unique e =
      let (args, parsed, expanded) = expand_parsed-ok (parse_command_args stream fuel s) f x e in
      let (given, held, leaves) = parse_command_args-Holds stream fuel s args parsed in
      let g = expand_args-Generates args f x expanded in
      let (few, each, _) =
        option_parameters-IsWithinLimits naming f.inputs g.options g.left g.parsed in
      let names = option_parameters-names naming f.inputs g.options g.left g.parsed in
      let few_options =
        subst (λ n. n ≤ 25) (sym (length-map (option_descriptor_tokens scope) g.options)) few in
      let slots =
        subst (λ o. o ≢ some 0) (sym (override_id args.max_concurrency))
          (max_concurrency-positive stream s given args held leaves) in
      let valid =
        generated-IsValidLeaf scope naming g.options (unwrap_or args.name (unraw f.ident))
          g.description (handler_body scope g.options) (described_policy scope args) resolves
          (subst Unique (sym names) unique) each slots in
      (_, _, g.command, valid, g.name, g.described.1, few_options)
