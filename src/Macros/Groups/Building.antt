-- ===== src/Macros/Groups/Building.antt =====
-- How the macros of an item and of the items inside it are expanded in turn.
use gloam_macro_commands.Common.{ℕ, true, ◌≡◌, none, some, List, Unique}
use gloam_macro_commands.Command.{SlashCommand, leaf, group, Children, nil, cons}
use gloam_macro_commands.Registry.Hierarchy.{child_names}
use gloam_macro_commands.Macros.Syntax.{ok, Ident}
use gloam_macro_commands.Macros.Functions.{Attribute, ItemFn}
use gloam_macro_commands.Macros.Stream.{ParseStream}
use gloam_macro_commands.Macros.Names.{Naming}
use gloam_macro_commands.Macros.Choices.{InlineChoiceArgs}
use gloam_macro_commands.Macros.Parameters.{parameter_names, skip_one}
use gloam_macro_commands.Macros.Commands.{Scope, Expansion, expand}
use gloam_macro_commands.Macros.Groups.{
  Item, fn_item, mod_item, mod_declaration, other_item, Items, no_items, item_cons, has_attribute,
  factory_of, GroupExpansion, expand_group,
}

-- No function has two parameters of one name.
abbrev mutual
  pub HasDistinctParameters : Item InlineChoiceArgs → Type 0
  HasDistinctParameters (fn_item attrs f) = Unique (parameter_names (skip_one f.inputs))
  HasDistinctParameters (mod_item attrs ident items) = HaveDistinctParameters items
  HasDistinctParameters (mod_declaration attrs ident) = Unit {0}
  HasDistinctParameters (other_item n) = Unit {0}

  pub HaveDistinctParameters : Items InlineChoiceArgs → Type 0
  HaveDistinctParameters no_items = Unit {0}
  HaveDistinctParameters (item_cons item rest) =
      HasDistinctParameters item × HaveDistinctParameters rest

-- No group has two children of one name.
abbrev mutual
  pub HasDistinctNames : {W : Type 0} → SlashCommand W → Type 0
  HasDistinctNames (leaf d l) = Unit {0}
  HasDistinctNames (group d cs) = Unique (child_names cs) × HaveDistinctNames cs

  pub HaveDistinctNames : {W : Type 0} → Children W → Type 0
  HaveDistinctNames nil = Unit {0}
  HaveDistinctNames (cons c cs) = HasDistinctNames c × HaveDistinctNames cs

module _ {W V S : Type 0} (naming : Naming) (scope : Scope W V) (stream : ParseStream S) where
  -- The command that an item's factory returns once its macro and those inside it are expanded, each
  -- with some arguments. The children are the values of the child factories, in order.
  mutual
    pub data Builds : Item InlineChoiceArgs → SlashCommand W → Type 0 where
      command_built :
          (attrs : List (Attribute InlineChoiceArgs)) (f : ItemFn InlineChoiceArgs) (fuel : ℕ)
          (s : S) (x : Expansion W)
          → has_attribute attrs "command" ≡ true
          → expand naming scope stream fuel s f ≡ some (ok x)
          → Builds (fn_item attrs f) x.command
      group_built :
          (attrs : List (Attribute InlineChoiceArgs)) (ident : Ident)
          (items : Items InlineChoiceArgs) (fuel : ℕ) (s : S) (x : GroupExpansion W)
          (children : Children W)
          → has_attribute attrs "group" ≡ true
          → expand_group naming stream fuel s (record { ident = ident; content = some items })
            ≡ some (ok x)
          → BuildsAll items children
          → Builds (mod_item attrs ident items) (x.command children)

    pub data BuildsAll : Items InlineChoiceArgs → Children W → Type 0 where
      none_built : BuildsAll no_items nil
      not_built :
          (item : Item InlineChoiceArgs) (items : Items InlineChoiceArgs) (children : Children W)
          → factory_of item ≡ none
          → BuildsAll items children
          → BuildsAll (item_cons item items) children
      child_built :
          (item : Item InlineChoiceArgs) (items : Items InlineChoiceArgs) (c : SlashCommand W)
          (children : Children W)
          → Builds item c
          → BuildsAll items children
          → BuildsAll (item_cons item items) (cons c children)
