-- ===== src/Registry.antt =====
-- crates/gloam-commands/src/registry.rs: the registry of commands and the validation of a tree.
pub mod Leaves
pub mod Hierarchy
pub mod Ordering
use gloam_macro_commands.Common.{
  ℕ, zero, ◌+◌, String, Bool, true, false, not, ◌&&◌, ◌||◌, Option, none, some, List, [], ◌∷◌, ◌++◌,
  find, any, is_empty, contains, str_eq, str_ltb, leb, length, if◌then◌else◌, ◌<>◌, join, map,
}
use gloam_macro_commands.Error.{
  Error, Result, ok, err, ◌>>=◌, ◌>>◌, guard, or_fail, duplicate_command, duplicate_command_path,
  invalid_command_hierarchy, invalid_autocomplete_configuration, invalid_command_policy,
}
use gloam_macro_commands.Discord.{OptionType, string, integer, number}
use gloam_macro_commands.Descriptor.{CommandOptionDescriptor, CommandDescriptor}
use gloam_macro_commands.Command.{
  AutocompleteHandlerDescriptor, SlashCommandLeaf, SlashCommand, leaf, group, Children, nil, cons,
  children_list, is_group, command_name,
}

-- `!policy.max_concurrent_executions() == Some(0)`.
abbrev pub allows_execution : Option ℕ → Bool
allows_execution (some zero) = false
allows_execution _ = true

-- The option kinds that Discord completes.
abbrev pub completes : OptionType → Bool
completes string = true
completes integer = true
completes number = true
completes _ = false

pub format_path : List String → String → String
format_path parent child =
    let path = join parent in (if str_eq path "" then path else path <> " ") <> child

-- The loop over the options that ask for autocomplete.
pub check_options : List CommandOptionDescriptor → String → List String → Result (Unit {0})
check_options [] path names = ok tt
check_options (o ∷ os) path names = do
  guard (not o.autocomplete || (completes o.kind && is_empty o.choices && contains names o.name))
      (invalid_autocomplete_configuration (path <> " " <> o.name))
  check_options os path names

module _ {W : Type 0} where
  -- The loop over the autocomplete handlers, which returns the set of their names.
  pub check_handlers :
      List (AutocompleteHandlerDescriptor W)
      → List CommandOptionDescriptor
      → String
      → List String
      → Result (List String)
  check_handlers [] options path seen = ok seen
  check_handlers (h ∷ hs) options path seen =
      let name = h.option_name in
      let invalid = invalid_autocomplete_configuration (path <> " " <> name) in
      do
        guard (not (contains seen name)) invalid
        option ← or_fail (find (λ option. str_eq option.name name) options) invalid
        guard option.autocomplete invalid
        check_handlers hs options path (name ∷ seen)

  pub validate_leaf : CommandDescriptor → SlashCommandLeaf W → String → Result (Unit {0})
  unfolding check_handlers check_options
  validate_leaf d l path = do
    guard (allows_execution l.policy.max_concurrency) (invalid_command_policy path)
    names ← check_handlers l.autocomplete d.options path []
    check_options d.options path names

  pub validate_children : Children W → List String → ℕ → List String → Result (Unit {0})
  unfolding validate_leaf format_path
  validate_children nil parent_path depth names = ok tt
  validate_children (cons (leaf d l) rest) parent_path depth names = do
    guard (not (contains names d.name)) (duplicate_command_path (format_path parent_path d.name))
    validate_leaf d l (format_path parent_path d.name)
    validate_children rest parent_path depth (d.name ∷ names)
  validate_children (cons (group d cs) rest) parent_path depth names = do
    guard (not (contains names d.name)) (duplicate_command_path (format_path parent_path d.name))
    guard (not (leb 2 depth || not (is_empty d.options) || is_empty (children_list cs)))
        (invalid_command_hierarchy (format_path parent_path d.name))
    guard (not (any is_group (children_list cs)))
        (invalid_command_hierarchy (format_path parent_path d.name))
    validate_children cs (parent_path ++ d.name ∷ []) (depth + 1) []
    validate_children rest parent_path depth (d.name ∷ names)

  unfoldable pub validate_hierarchy : SlashCommand W → Result (Unit {0})
  unfolding validate_leaf validate_children
  validate_hierarchy (leaf d l) = validate_leaf d l d.name
  validate_hierarchy (group d cs) = do
    guard (not (not (is_empty d.options) || is_empty (children_list cs)))
        (invalid_command_hierarchy d.name)
    validate_children cs (d.name ∷ []) 1 []

  -- `BTreeMap<&'static str, SlashCommand<D>>`: entries in the order of their keys.
  unfoldable pub lookup : String → List (String × SlashCommand W) → Option (SlashCommand W)
  lookup name [] = none
  lookup name ((key, c) ∷ rest) = if str_eq key name then some c else lookup name rest

  -- `VacantEntry::insert`.
  pub insert_vacant :
      String → SlashCommand W → List (String × SlashCommand W) → List (String × SlashCommand W)
  insert_vacant name c [] = (name, c) ∷ []
  insert_vacant name c ((key, d) ∷ rest) =
      if str_ltb name key then (name, c) ∷ (key, d) ∷ rest else (key, d) ∷ insert_vacant name c rest

pub record CommandRegistry (W : Type 0) : Type 0 where
  pub commands : List (String × SlashCommand W)

module _ {W : Type 0} where
  unfoldable pub new : CommandRegistry W
  new = record { commands = [] }

  -- A failing call leaves the registry as it was.
  unfoldable pub insert : CommandRegistry W → SlashCommand W → Result (CommandRegistry W)
  unfolding validate_hierarchy lookup insert_vacant
  insert registry c = do
    validate_hierarchy c
    elim (lookup (command_name c) registry.commands) [
      | none ↦ ok (record { commands = insert_vacant (command_name c) c registry.commands })
      | some _ ↦ err (duplicate_command (command_name c))
    ]

  unfoldable pub get : CommandRegistry W → String → Option (SlashCommand W)
  unfolding lookup
  get registry name = lookup name registry.commands

  unfoldable pub len : CommandRegistry W → ℕ
  len registry = length registry.commands

  unfoldable pub iter : CommandRegistry W → List (SlashCommand W)
  iter registry = map (λ e. e.1) registry.commands
