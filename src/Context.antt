-- ===== src/Context.antt =====
-- crates/gloam-commands/src/{context,autocomplete}.rs: what a handler is given. What it reaches
-- through the runtime (REST client, application state) is the world that handlers act on; the
-- shared response state is named by the address of its cell, which a clone copies.
use gloam_macro_commands.Common.{ℕ, String, List, Option}
use gloam_macro_commands.Discord.{InteractionOption, Interaction, CommandData}

pub record Context : Type 0 where
  pub interaction : Interaction
  pub command_data : CommandData
  pub command_path : List String
  pub command_options : List InteractionOption
  pub shard_id : Option ℕ
  pub response_state : ℕ

pub record AutocompleteContext : Type 0 where
  pub interaction : Interaction
  pub command_data : CommandData
  pub command_path : List String
  pub command_options : List InteractionOption
  pub focused_index : ℕ
  pub shard_id : Option ℕ
