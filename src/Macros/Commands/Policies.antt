-- ===== src/Macros/Commands/Policies.antt =====
-- The policy that `#[command]` generates is what the arguments say, and the command has it whether
-- or not the generated code spells it out.
use gloam_macro_commands.Common.{
  ℕ, Bool, true, false, ◌≡◌, refl, ◌∙◌, sym, ap, ◌++◌, if◌then◌else◌, Option, none, some, List, [],
  ◌∷◌, map, arith, is_some,
}
use gloam_macro_commands.Descriptor.{CommandDescriptor}
use mathlib.Core.List.{append-nil, append_assoc}
use gloam_macro_commands.Discord.{ContextType, guild}
use gloam_macro_commands.Policy.{
  CheckDescriptor, CommandPolicy, guild_only, contexts, check, max_concurrency, member_permissions,
  bot_permissions, cooldown,
}
use gloam_macro_commands.Policy
use gloam_macro_commands.Command.{
  SlashCommand, leaf, CommandHandler, AutocompleteHandlerDescriptor, new_with_autocomplete,
  new_with_policy, new_with_autocomplete_and_policy,
}
use gloam_macro_commands.Command
use gloam_macro_commands.Macros.Syntax.{Segments, Expr}
use gloam_macro_commands.Macros.Arguments.{CommandArgs, context_tokens, path_display}
use gloam_macro_commands.Macros.Commands.{
  Scope, check_adapter_path, apply_some, add_checks, restrict_contexts, policy_of, has_policy,
  command_factory, from_secs,
}

-- A field that an argument sets where it is given.
abbrev override : {A B : Type 0} → (A → B) → Option A → Option B → Option B
override f none old = old
override f (some a) old = some (f a)

pub override_id : {A : Type 0} (o : Option A) → override (λ a. a) o none ≡ o
override_id none = refl
override_id (some a) = refl

module _ {W V : Type 0} (scope : Scope W V) where
  abbrev described_check : Segments → CheckDescriptor W
  described_check path = record {
    name = path_display path;
    handler = scope.check (check_adapter_path path);
  }

  abbrev allowed_contexts : CommandArgs → List ContextType
  allowed_contexts args =
      if is_some args.guild_only then guild ∷ [] else map context_tokens args.contexts

  -- The policy in one piece, field by field.
  abbrev pub described_policy : CommandArgs → CommandPolicy W
  described_policy args = record {
    checks = map described_check args.checks;
    contexts = allowed_contexts args;
    member_permissions = override scope.permissions args.member_permissions none;
    bot_permissions = override scope.permissions args.bot_permissions none;
    cooldown = override from_secs args.cooldown_seconds none;
    cooldowns = scope.cooldowns;
    max_concurrency = override (λ limit. limit) args.max_concurrency none;
    command_slots = override (λ _. scope.slots) args.max_concurrency none;
  }

  restrict_lem :
      (args : CommandArgs) (p : CommandPolicy W)
      → p.contexts ≡ []
      → restrict_contexts args p ≡ record p { contexts = allowed_contexts args }
  unfolding restrict_contexts guild_only contexts
  restrict_lem args p e = ground arith

  member_lem :
      (o : Option Expr) (p : CommandPolicy W)
      → apply_some (λ p e. member_permissions p (scope.permissions e)) o p
        ≡ record p { member_permissions = override scope.permissions o p.member_permissions }
  unfolding member_permissions
  member_lem none p = refl
  member_lem (some e) p = refl

  bot_lem :
      (o : Option Expr) (p : CommandPolicy W)
      → apply_some (λ p e. bot_permissions p (scope.permissions e)) o p
        ≡ record p { bot_permissions = override scope.permissions o p.bot_permissions }
  unfolding bot_permissions
  bot_lem none p = refl
  bot_lem (some e) p = refl

  cooldown_lem :
      (o : Option ℕ) (p : CommandPolicy W)
      → apply_some (λ p seconds. cooldown p (from_secs seconds)) o p
        ≡ record p { cooldown = override from_secs o p.cooldown }
  unfolding cooldown
  cooldown_lem none p = refl
  cooldown_lem (some s) p = refl

  max_lem :
      (o : Option ℕ) (p : CommandPolicy W)
      → apply_some (λ p limit. max_concurrency p limit scope.slots) o p ≡ record p {
        max_concurrency = override (λ limit. limit) o p.max_concurrency;
        command_slots = override (λ _. scope.slots) o p.command_slots;
      }
  unfolding max_concurrency
  max_lem none p = refl
  max_lem (some n) p = refl

  add_checks_lem :
      (paths : List Segments) (p : CommandPolicy W)
      → add_checks scope paths p ≡ record p { checks = p.checks ++ map described_check paths }
  unfolding add_checks check
  add_checks_lem [] p = ap (λ cs. record p { checks = cs }) (sym (append-nil p.checks))
  add_checks_lem (path ∷ rest) p =
      add_checks_lem rest _
      ∙ ap (λ cs. record p { checks = cs })
          (append_assoc p.checks (described_check path ∷ []) (map described_check rest))

  policy_of_lem : (args : CommandArgs) → policy_of scope args ≡ described_policy args
  unfolding policy_of Policy.new
  policy_of_lem args =
      rw
        (
          max_lem,
          cooldown_lem,
          add_checks_lem,
          bot_lem,
          member_lem,
          restrict_lem args (Policy.new scope.cooldowns) refl,
        )
        refl

  policy_of-none :
      (args : CommandArgs)
      → has_policy args ≡ false
      → policy_of scope args ≡ Policy.new scope.cooldowns
  unfolding has_policy policy_of restrict_contexts add_checks
  policy_of-none args e = ground arith

  factory-leaf :
      (d : CommandDescriptor) (handler : CommandHandler W)
      (hs : List (AutocompleteHandlerDescriptor W)) (given : Bool) (policy : CommandPolicy W)
      → (given ≡ false → policy ≡ Policy.new scope.cooldowns)
      → command_factory scope d handler hs given policy
        ≡ leaf d (record { handler = handler; autocomplete = hs; policy = policy })
  unfolding command_factory Command.new new_with_autocomplete new_with_policy
      new_with_autocomplete_and_policy
  factory-leaf d handler [] true policy h = refl
  factory-leaf d handler (x ∷ hs) true policy h = refl
  factory-leaf d handler [] false policy h =
      ap (λ p. leaf d (record { handler = handler; autocomplete = []; policy = p })) (sym (h refl))
  factory-leaf d handler (x ∷ hs) false policy h =
      ap (λ p. leaf d (record { handler = handler; autocomplete = x ∷ hs; policy = p }))
        (sym (h refl))

  -- Whatever the factory calls, the command is the leaf of the arguments.
  pub command_factory_lem :
      (args : CommandArgs) (d : CommandDescriptor) (handler : CommandHandler W)
      (hs : List (AutocompleteHandlerDescriptor W))
      → command_factory scope d handler hs (has_policy args) (policy_of scope args)
        ≡ leaf d (record { handler = handler; autocomplete = hs; policy = described_policy args })
  command_factory_lem args d handler hs =
      factory-leaf d handler hs (has_policy args) (policy_of scope args) (policy_of-none args)
      ∙ ap (λ p. leaf d (record { handler = handler; autocomplete = hs; policy = p }))
          (policy_of_lem args)
