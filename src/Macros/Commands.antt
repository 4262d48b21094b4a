-- ===== src/Macros/Commands.antt =====
-- crates/gloam-commands-macros/src/command.rs, `expand`: the command that the code generated by
-- `#[command]` builds.
pub mod Descriptors
pub mod Policies
pub mod Leaves
pub mod Accepted
use gloam_macro_commands.Common.{
  ℕ, ◌*◌, ◌^◌, String, Bool, true, false, not, ◌||◌, Option, none, some, List, [], ◌∷◌, map, ◌++◌,
  is_some, is_empty, unwrap_or, ◌<>◌, if◌then◌else◌,
}
use gloam_macro_commands.Error
use gloam_macro_commands.Exec
use gloam_macro_commands.Exec.{Exec}
use gloam_macro_commands.Context.{Context}
use gloam_macro_commands.Discord.{OptionType, InteractionOption}
use gloam_macro_commands.Descriptor.{
  CommandChoiceDescriptor, CommandOptionDescriptor, CommandDescriptor, new_option, with_choices,
  min_integer, max_integer, min_number, max_number, min_length, max_length, new_command,
  with_options,
}
use gloam_macro_commands.Descriptor
use gloam_macro_commands.Policy.{CommandPolicy, guild_only, contexts, check, max_concurrency}
use gloam_macro_commands.Policy
use gloam_macro_commands.Command.{
  SlashCommand, CommandHandler, AutocompleteHandler, AutocompleteHandlerDescriptor,
  new_with_autocomplete, new_with_policy, new_with_autocomplete_and_policy,
}
use gloam_macro_commands.Command
use gloam_macro_commands.Macros.Syntax.{
  Result, ok, err, ◌>>=◌, ◌>>◌, or_fail, Ident, unraw, Ty, Segments, nil, cons, Expr,
}
use gloam_macro_commands.Macros.Functions.{ItemFn, FnArg}
use gloam_macro_commands.Macros.Stream.{ParseStream}
use gloam_macro_commands.Macros.Arguments.{
  CommandArgs, context_tokens, path_display, parse_command_args,
}
use gloam_macro_commands.Macros.Names.{Naming, validate_name, validate_description}
use gloam_macro_commands.Macros.Bounds.{NumericBound, integer_value, number_value}
use gloam_macro_commands.Macros.Choices.{
  InlineChoiceArgs, InlineChoice, string_choice, integer_choice, number_choice, ChoiceSource,
  no_choices, inline_choices, typed_choices,
}
use gloam_macro_commands.Macros.Parameters.{OptionParameter, option_parameters}
use gloam_macro_commands.Macros.Signature.{validate_signature, context_type, state_type}

-- What the names in the generated code stand for: functions by their paths, types by what they
-- implement, expressions by their values. `V` holds the values of options, and the fresh cooldown
-- map and semaphore of the policy have the addresses `cooldowns` and `slots`.
pub record Scope (W V : Type 0) : Type 0 where
  pub function : Context → List V → Exec W (Unit {0})
  pub check : Segments → Context → Exec W Bool
  pub complete : Segments → AutocompleteHandler W
  pub permissions : Expr → ℕ
  pub kind : Ty → OptionType
  pub extract : Ty → List InteractionOption → String → Error.Result V
  pub choices : Ty → List CommandChoiceDescriptor
  pub cooldowns : ℕ
  pub slots : ℕ

-- The path with its last name behind the prefix.
unfoldable pub adapter_path : (prefix : String) → Segments → Segments
adapter_path prefix nil = nil
adapter_path prefix (cons i a nil) = cons (record { raw = false; name = prefix <> unraw i }) a nil
adapter_path prefix (cons i a (cons j b more)) = cons i a (adapter_path prefix (cons j b more))

unfoldable pub autocomplete_adapter_path : Segments → Segments
unfolding adapter_path
autocomplete_adapter_path = adapter_path "__gloam_autocomplete_"

unfoldable pub check_adapter_path : Segments → Segments
unfolding adapter_path
check_adapter_path = adapter_path "__gloam_check_"

unfoldable pub inline_choice_tokens : InlineChoice → CommandChoiceDescriptor
inline_choice_tokens c = elim c.value [
  | string_choice value ↦ Descriptor.string c.name value
  | integer_choice value ↦ Descriptor.integer c.name value
  | number_choice value ↦ Descriptor.number c.name value
]

unfoldable pub choose :
    (typed : List CommandChoiceDescriptor)
    → ChoiceSource
    → CommandOptionDescriptor
    → CommandOptionDescriptor
unfolding inline_choice_tokens
choose typed no_choices d = d
choose typed typed_choices d = with_choices d typed
choose typed (inline_choices cs) d = with_choices d (map inline_choice_tokens cs)

unfoldable pub set_min : Option NumericBound → CommandOptionDescriptor → CommandOptionDescriptor
set_min none d = d
set_min (some (integer_value value)) d = min_integer d value
set_min (some (number_value value)) d = min_number d value

unfoldable pub set_max : Option NumericBound → CommandOptionDescriptor → CommandOptionDescriptor
set_max none d = d
set_max (some (integer_value value)) d = max_integer d value
set_max (some (number_value value)) d = max_number d value

-- A builder's call that the tokens hold where the value is there.
abbrev pub apply_some {ℓ κ} : {A : Type ℓ} {D : Type κ} → (D → A → D) → Option A → D → D
apply_some f none d = d
apply_some f (some a) d = f d a

unfoldable pub restrict_contexts : {W : Type 0} → CommandArgs → CommandPolicy W → CommandPolicy W
restrict_contexts args policy =
    if is_some args.guild_only
    then guild_only policy
    else if not (is_empty args.contexts)
    then contexts policy (map context_tokens args.contexts)
    else policy

-- `Duration::from_secs`, in nanoseconds.
abbrev pub from_secs : ℕ → ℕ
from_secs seconds = seconds * 10 ^ 9

module _ {W V : Type 0} (scope : Scope W V) where
  unfoldable pub option_descriptor_tokens : OptionParameter → CommandOptionDescriptor
  unfolding choose set_min set_max
  option_descriptor_tokens o =
      let d =
        choose (scope.choices o.ty) o.choices
          (new_option o.name o.description (scope.kind o.ty) o.required) in
      let d = set_max o.max (set_min o.min d) in
      let d = apply_some max_length o.max_length (apply_some min_length o.min_length d) in
      apply_some (λ d _. Descriptor.autocomplete d) o.autocomplete d

  -- The handler of an option that has one, before those of the later options.
  unfoldable pub add_handler :
      (name : String)
      → Option Segments
      → List (AutocompleteHandlerDescriptor W)
      → List (AutocompleteHandlerDescriptor W)
  unfolding autocomplete_adapter_path
  add_handler name none hs = hs
  add_handler name (some path) hs =
      record { option_name = name; handler = scope.complete (autocomplete_adapter_path path) } ∷ hs

  unfoldable pub autocomplete_handlers :
      List OptionParameter → List (AutocompleteHandlerDescriptor W)
  unfolding add_handler
  autocomplete_handlers [] = []
  autocomplete_handlers (o ∷ rest) = add_handler o.name o.autocomplete (autocomplete_handlers rest)

  -- The values of the options, in order, up to the first that fails.
  unfoldable pub extract_options :
      List InteractionOption → List OptionParameter → Error.Result (List V)
  extract_options options = Error.collect (λ o. scope.extract o.ty options o.name)

  unfoldable pub handler_body : List OptionParameter → CommandHandler W
  unfolding extract_options
  handler_body [] c = scope.function c []
  handler_body (o ∷ rest) c =
      Exec.◌>>=◌ (Exec.lift (extract_options c.command_options (o ∷ rest))) (scope.function c)

  unfoldable pub add_checks : List Segments → CommandPolicy W → CommandPolicy W
  unfolding check_adapter_path
  add_checks [] policy = policy
  add_checks (path ∷ rest) policy = add_checks rest (
      check policy
        (record { name = path_display path; handler = scope.check (check_adapter_path path) }))

  unfoldable pub policy_of : CommandArgs → CommandPolicy W
  unfolding restrict_contexts add_checks
  policy_of args =
      let policy = restrict_contexts args (Policy.new scope.cooldowns) in
      let policy =
        apply_some (λ p e. Policy.member_permissions p (scope.permissions e))
          args.member_permissions policy in
      let policy =
        apply_some (λ p e. Policy.bot_permissions p (scope.permissions e)) args.bot_permissions
          policy in
      let policy = add_checks args.checks policy in
      let policy =
        apply_some (λ p seconds. Policy.cooldown p (from_secs seconds)) args.cooldown_seconds
          policy in
      apply_some (λ p limit. max_concurrency p limit scope.slots) args.max_concurrency policy

  unfoldable pub command_factory :
      CommandDescriptor
      → CommandHandler W
      → List (AutocompleteHandlerDescriptor W)
      → (has_policy : Bool) → CommandPolicy W
      → SlashCommand W
  command_factory d handler [] false policy = Command.new d handler scope.cooldowns
  command_factory d handler (h ∷ hs) false policy =
      new_with_autocomplete d handler (h ∷ hs) scope.cooldowns
  command_factory d handler [] true policy = new_with_policy d handler policy
  command_factory d handler (h ∷ hs) true policy =
      new_with_autocomplete_and_policy d handler (h ∷ hs) policy

unfoldable pub has_policy : CommandArgs → Bool
has_policy args =
    not (is_empty args.checks)
    || not (is_empty args.contexts)
    || is_some args.guild_only
    || is_some args.member_permissions
    || is_some args.bot_permissions
    || is_some args.cooldown_seconds
    || is_some args.max_concurrency

-- What `#[command]` generates: the command that the factory returns, the names of the handler and
-- the factory, the type of the application state, and the parameters left of the function.
pub record Expansion (W : Type 0) : Type 0 where
  pub command : SlashCommand W
  pub handler_name : String
  pub factory_name : String
  pub state : Ty
  pub inputs : List (FnArg InlineChoiceArgs)

-- The first parameter, which is kept as it is.
abbrev first_input : List (FnArg InlineChoiceArgs) → List (FnArg InlineChoiceArgs)
first_input [] = []
first_input (x ∷ xs) = x ∷ []

module _ {W V : Type 0} (naming : Naming) (scope : Scope W V) where
  unfoldable pub expand_args : CommandArgs → ItemFn InlineChoiceArgs → Result (Expansion W)
  unfolding option_descriptor_tokens autocomplete_handlers handler_body policy_of has_policy
      command_factory
  expand_args args f = do
    validate_signature f
    let name = unwrap_or args.name (unraw f.ident)
    description ← or_fail args.description "slash commands require `description = \"...\"`"
    validate_name naming name
    validate_description description
    context ← context_type f
    state ← state_type context
    (options, left) ← option_parameters naming f.inputs
    ok (record {
      command =
          command_factory scope
            (with_options (new_command name description)
              (map (option_descriptor_tokens scope) options))
            (handler_body scope options) (autocomplete_handlers scope options) (has_policy args)
            (policy_of scope args);
      handler_name = "__gloam_handler_" <> unraw f.ident;
      factory_name = "__gloam_command_" <> unraw f.ident;
      state = state;
      inputs = first_input f.inputs ++ left;
    })

  unfoldable pub expand_parsed :
      Option (Result CommandArgs) → ItemFn InlineChoiceArgs → Option (Result (Expansion W))
  unfolding expand_args
  expand_parsed none f = none
  expand_parsed (some r) f = some (r >>= λ args. expand_args args f)

  -- `expand` on the tokens of the attribute and the function.
  unfoldable pub expand :
      {S : Type 0}
      → ParseStream S
      → (fuel : ℕ) → S
      → ItemFn InlineChoiceArgs
      → Option (Result (Expansion W))
  unfolding expand_parsed
  expand stream fuel s f = expand_parsed (parse_command_args stream fuel s) f
