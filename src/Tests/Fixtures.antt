-- ===== src/Tests/Fixtures.antt =====
-- A small command tree, an invocation and a host, as in the tests of
-- crates/gloam-commands/src/framework.rs.
use gloam_macro_commands.Common.{ℕ, suc, true, none, some, List, [], ◌∷◌, nat_eq}
use gloam_macro_commands.Error.{ok}
use gloam_macro_commands.Exec.{Exec}
use gloam_macro_commands.Discord.{
  integer, InteractionOption, submit, sub_command, sub_command_group, nil, cons, integer_value,
  guild, chat_input, application_command, CommandData, Member, Interaction, Request,
}
use gloam_macro_commands.Common.Integer.{pos}
use gloam_macro_commands.Context.{Context}
use gloam_macro_commands.Policy.{CheckDescriptor, CommandPolicy, Host, State}
use gloam_macro_commands.Descriptor.{CommandOptionDescriptor, CommandDescriptor}
use gloam_macro_commands.Command.{
  SlashCommandLeaf, SlashCommand, Children, leaf, group, CommandHandler,
  AutocompleteHandlerDescriptor,
}
use gloam_macro_commands.Command
use gloam_macro_commands.Response.{MessagePayload, content}

-- The clock is the world; each hook and handler advances it.
abbrev pub host : Host ℕ
host = record { no_permissions = 0; contains = nat_eq; now = λ w. w; last_instant = 1000 }

abbrev pub succeed : Context → Exec ℕ (Unit {0})
succeed c w = (suc w, ok tt)

abbrev pub always : CheckDescriptor ℕ
always = record { name = "always"; handler = λ c w. (w, ok true) }

abbrev pub plain_policy : CommandPolicy ℕ
plain_policy = record {
  checks = [];
  contexts = [];
  member_permissions = none;
  bot_permissions = none;
  cooldown = none;
  cooldowns = 0;
  max_concurrency = none;
  command_slots = none;
}

abbrev pub strict_policy : CommandPolicy ℕ
strict_policy = record {
  checks = always ∷ [];
  contexts = guild ∷ [];
  member_permissions = some 8;
  bot_permissions = none;
  cooldown = some 5;
  cooldowns = 1;
  max_concurrency = some 2;
  command_slots = some 9;
}

abbrev pub count_option : CommandOptionDescriptor
count_option = record {
  name = "count";
  description = "How many";
  kind = integer;
  required = true;
  choices = [];
  autocomplete = true;
  min_value = none;
  max_value = none;
  min_length = none;
  max_length = none;
}

abbrev pub ban_descriptor : CommandDescriptor
ban_descriptor = record { name = "ban"; description = "Ban a member"; options = [] }

abbrev pub set_descriptor : CommandDescriptor
set_descriptor = record { name = "set"; description = "Set"; options = count_option ∷ [] }

abbrev pub config_descriptor : CommandDescriptor
config_descriptor = record { name = "config"; description = "Configuration"; options = [] }

abbrev pub admin_descriptor : CommandDescriptor
admin_descriptor = record { name = "admin"; description = "Administration"; options = [] }

abbrev pub count_handler : AutocompleteHandlerDescriptor ℕ
count_handler = record { option_name = "count"; handler = λ c w. (w, ok []) }

abbrev pub ban_leaf : SlashCommandLeaf ℕ
ban_leaf = record { handler = succeed; autocomplete = []; policy = strict_policy }

abbrev pub set_leaf : SlashCommandLeaf ℕ
set_leaf = record { handler = succeed; autocomplete = count_handler ∷ []; policy = plain_policy }

abbrev pub config_children : Children ℕ
config_children = Command.cons (leaf set_descriptor set_leaf) Command.nil

abbrev pub admin_children : Children ℕ
admin_children =
    Command.cons (leaf ban_descriptor ban_leaf)
      (Command.cons (group config_descriptor config_children) Command.nil)

abbrev pub admin : SlashCommand ℕ
admin = group admin_descriptor admin_children

abbrev pub count_given : InteractionOption
count_given = submit "count" integer (some (integer_value (pos 3))) nil (some true)

abbrev pub set_submission : List InteractionOption
set_submission =
    submit "config" sub_command_group none
      (cons (submit "set" sub_command none (cons count_given nil) none) nil) none
    ∷ []

abbrev pub set_data : CommandData
set_data = record { name = "admin"; kind = chat_input; options = set_submission }

abbrev pub member : Member
member = record { permissions = some 8; user = some 7 }

abbrev pub interaction : Interaction
interaction = record {
  id = 1;
  application_id = 2;
  token = "token";
  kind = application_command;
  context = some guild;
  member = some member;
  user = none;
  app_permissions = none;
  command_data = ok (some set_data);
}

abbrev pub context : Context
context = record {
  interaction = interaction;
  command_data = set_data;
  command_path = "admin" ∷ "config" ∷ "set" ∷ [];
  command_options = count_given ∷ [];
  shard_id = none;
  response_state = 0;
}

abbrev pub initial : State ℕ
initial = record { cooldowns = λ a. []; trace = []; world = 10 }

-- A REST client that answers every request with the number of earlier ones.
abbrev pub rest : Request → Exec ℕ ℕ
rest q w = (suc w, ok w)

abbrev pub pong : MessagePayload
pong = content "pong"
