-- ===== src/Command.antt =====
-- crates/gloam-commands/src/{command,autocomplete}.rs: the tree of commands. A handler is an
-- action on the world `W`.
use gloam_macro_commands.Common.{
  ℕ, String, Bool, true, false, Option, none, some, List, [], ◌∷◌, find, str_eq,
}
use gloam_macro_commands.Common.Integer.{ℤ}
use gloam_macro_commands.Common.Binary64.{F64}
use gloam_macro_commands.Exec.{Exec}
use gloam_macro_commands.Context.{Context, AutocompleteContext}
use gloam_macro_commands.Policy.{CommandPolicy}
use gloam_macro_commands.Policy
use gloam_macro_commands.Descriptor.{CommandDescriptor}

abbrev pub CommandHandler : Type 0 → Type 0
CommandHandler W = Context → Exec W (Unit {0})

pub data AutocompleteChoiceValue : Type 0 where
  string_result : String → AutocompleteChoiceValue
  integer_result : ℤ → AutocompleteChoiceValue
  number_result : F64 → AutocompleteChoiceValue

pub record AutocompleteChoice : Type 0 where
  pub name : String
  pub value : AutocompleteChoiceValue

abbrev pub AutocompleteHandler : Type 0 → Type 0
AutocompleteHandler W = AutocompleteContext → Exec W (List AutocompleteChoice)

pub record AutocompleteHandlerDescriptor (W : Type 0) : Type 0 where
  pub option_name : String
  pub handler : AutocompleteHandler W

pub record SlashCommandLeaf (W : Type 0) : Type 0 where
  pub handler : CommandHandler W
  pub autocomplete : List (AutocompleteHandlerDescriptor W)
  pub policy : CommandPolicy W

-- A node with its kind; the children of a group are a list type of their own.
mutual
  pub data SlashCommand (W : Type 0) : Type 0 where
    leaf : CommandDescriptor → SlashCommandLeaf W → SlashCommand W
    group : CommandDescriptor → Children W → SlashCommand W

  pub data Children (W : Type 0) : Type 0 where
    nil : Children W
    cons : SlashCommand W → Children W → Children W

module _ {W : Type 0} where
  unfoldable pub new_with_autocomplete_and_policy :
      CommandDescriptor
      → CommandHandler W
      → List (AutocompleteHandlerDescriptor W)
      → CommandPolicy W
      → SlashCommand W
  new_with_autocomplete_and_policy d handler autocomplete policy =
      leaf d (record { handler = handler; autocomplete = autocomplete; policy = policy })

  -- The new policy's cooldown map stands at the address `cooldowns`.
  unfoldable pub new : CommandDescriptor → CommandHandler W → (cooldowns : ℕ) → SlashCommand W
  unfolding new_with_autocomplete_and_policy
  new d handler cooldowns = new_with_autocomplete_and_policy d handler [] (Policy.new cooldowns)

  unfoldable pub new_with_autocomplete :
      CommandDescriptor
      → CommandHandler W
      → List (AutocompleteHandlerDescriptor W)
      → (cooldowns : ℕ) → SlashCommand W
  unfolding new_with_autocomplete_and_policy
  new_with_autocomplete d handler autocomplete cooldowns =
      new_with_autocomplete_and_policy d handler autocomplete (Policy.new cooldowns)

  unfoldable pub new_with_policy :
      CommandDescriptor → CommandHandler W → CommandPolicy W → SlashCommand W
  unfolding new_with_autocomplete_and_policy
  new_with_policy d handler policy = new_with_autocomplete_and_policy d handler [] policy

  abbrev pub children_list : Children W → List (SlashCommand W)
  children_list nil = []
  children_list (cons c cs) = c ∷ children_list cs

  abbrev pub descriptor : SlashCommand W → CommandDescriptor
  descriptor (leaf d l) = d
  descriptor (group d cs) = d

  abbrev pub handler : SlashCommand W → Option (CommandHandler W)
  handler (leaf d l) = some l.handler
  handler (group d cs) = none

  abbrev pub policy : SlashCommand W → Option (CommandPolicy W)
  policy (leaf d l) = some l.policy
  policy (group d cs) = none

  abbrev pub autocomplete_handlers : SlashCommand W → List (AutocompleteHandlerDescriptor W)
  autocomplete_handlers (leaf d l) = l.autocomplete
  autocomplete_handlers (group d cs) = []

  abbrev pub autocomplete_handler : SlashCommand W → String → Option (AutocompleteHandler W)
  autocomplete_handler (leaf d l) option_name =
      elim (find (λ entry. str_eq entry.option_name option_name) l.autocomplete) [
        | none ↦ none
        | some entry ↦ some entry.handler
      ]
  autocomplete_handler (group d cs) option_name = none

  abbrev pub children : SlashCommand W → Children W
  children (leaf d l) = nil
  children (group d cs) = cs

  abbrev pub is_leaf : SlashCommand W → Bool
  is_leaf (leaf d l) = true
  is_leaf (group d cs) = false

  abbrev pub is_group : SlashCommand W → Bool
  is_group (leaf d l) = false
  is_group (group d cs) = true

  abbrev pub command_name : SlashCommand W → String
  command_name c = (descriptor c).name
