-- ===== src/Resolve.antt =====
-- crates/gloam-commands/src/framework.rs: from an interaction's options to a leaf command, and the
-- focused option of an autocomplete interaction.
pub mod Paths
pub mod Focus
use gloam_macro_commands.Common.{
  ℕ, zero, suc, ◌+◌, String, Bool, true, false, Option, none, some, List, [], ◌∷◌, ◌++◌, find,
  str_eq, ◌<>◌, join, nat_eq, length, ◌&&◌, not,
}
use gloam_macro_commands.Error.{
  Error, Result, ok, err, ◌>>=◌, ◌>>◌, guard, unknown_command_path, invalid_autocomplete_focus,
}
use gloam_macro_commands.Discord.{
  InteractionOption, option_name, option_kind, option_focused, nested_options, same_type,
  sub_command, sub_command_group,
}
use gloam_macro_commands.Descriptor.{CommandDescriptor}
use gloam_macro_commands.Command.{
  SlashCommandLeaf, SlashCommand, leaf, group, Children, children_list, command_name, is_leaf,
}

pub record ResolvedCommand (W : Type 0) : Type 0 where
  pub command : SlashCommand W
  pub path : List String
  pub options : List InteractionOption

unfoldable pub only_branch : List InteractionOption → List String → Result InteractionOption
only_branch [] path = err (unknown_command_path (join path))
only_branch (o ∷ []) path = ok o
only_branch (o ∷ p ∷ os) path = err (unknown_command_path (join path))

module _ {W : Type 0} where
  -- `children.iter().find(|child| child.descriptor().name == name)`.
  unfoldable pub find_child : String → Children W → Option (SlashCommand W)
  find_child name cs = find (λ c. str_eq (command_name c) name) (children_list cs)

  -- The last level: what was found inside a subcommand group.
  resolve_nested :
      List String → Option (SlashCommand W) → InteractionOption → Result (ResolvedCommand W)
  resolve_nested path none nested =
      err (unknown_command_path (join path <> " " <> option_name nested))
  resolve_nested path (some found) nested =
      let path' = path ++ command_name found ∷ [] in
      do
        guard (is_leaf found && same_type (option_kind nested) sub_command)
            (unknown_command_path (join path'))
        ok (record { command = found; path = path'; options = nested_options nested })

  -- The first level below a group.
  resolve_child :
      List String → Option (SlashCommand W) → InteractionOption → Result (ResolvedCommand W)
  unfolding resolve_nested only_branch
  resolve_child path none branch =
      err (unknown_command_path (join path <> " " <> option_name branch))
  resolve_child path (some (leaf d l)) branch =
      let path' = path ++ d.name ∷ [] in
      do
        guard (same_type (option_kind branch) sub_command) (unknown_command_path (join path'))
        ok (record { command = leaf d l; path = path'; options = nested_options branch })
  resolve_child path (some (group d cs)) branch =
      let path' = path ++ d.name ∷ [] in
      do
        guard (same_type (option_kind branch) sub_command_group) (unknown_command_path (join path'))
        nested ← only_branch (nested_options branch) path'
        resolve_nested path' (find_child (option_name nested) cs) nested

  unfoldable pub resolve_command :
      SlashCommand W → List InteractionOption → Result (ResolvedCommand W)
  unfolding resolve_child only_branch
  resolve_command (leaf d l) submitted =
      ok (record { command = leaf d l; path = d.name ∷ []; options = submitted })
  resolve_command (group d cs) submitted = do
    branch ← only_branch submitted (d.name ∷ [])
    resolve_child (d.name ∷ []) (find_child (option_name branch) cs) branch

-- `option.focused == Some(true)`.
abbrev pub is_focused : Option Bool → Bool
is_focused none = false
is_focused (some b) = b

-- `options.iter().enumerate().filter(…)`, from the index `i` on.
focused_indices : ℕ → List InteractionOption → List ℕ
focused_indices i [] = []
focused_indices i (o ∷ os) =
    let rest = focused_indices (suc i) os in
    elim (is_focused (option_focused o)) [ true ↦ i ∷ rest | false ↦ rest ]

-- Exactly one index is accepted.
only_index : List ℕ → String → Result ℕ
only_index [] path = err (invalid_autocomplete_focus path)
only_index (i ∷ []) path = ok i
only_index (i ∷ j ∷ is) path = err (invalid_autocomplete_focus path)

unfoldable pub focused_option_index : List InteractionOption → List String → Result ℕ
unfolding focused_indices only_index
focused_option_index options path = only_index (focused_indices 0 options) (join path)
