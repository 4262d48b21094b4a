-- ===== src/Tests/Groups.antt =====
-- The group macro at a concrete module.
use gloam_macro_commands.Common.{ℕ, ◌≡◌, refl, some, List, [], ◌∷◌, contains-absent}
use gloam_macro_commands.Error
use gloam_macro_commands.Command.{SlashCommand, group, nil, cons}
use gloam_macro_commands.Descriptor.{new_command, with_options}
use gloam_macro_commands.Registry.{validate_hierarchy}
use gloam_macro_commands.Macros.Syntax.{ok, bare_meta}
use gloam_macro_commands.Macros.Functions.{Attribute}
use gloam_macro_commands.Macros.Stream.{parse_arguments}
use gloam_macro_commands.Macros.Names.{validate_name, validate_description}
use gloam_macro_commands.Macros.Signature.{context_type, state_type, named_type}
use gloam_macro_commands.Macros.Choices.{InlineChoiceArgs}
use gloam_macro_commands.Macros.Groups.{
  Item, fn_item, mod_item, Items, no_items, item_cons, GroupExpansion, expand_group,
  expand_group_parsed, expand_group_args, parse_group_args, has_attribute, child_factories,
  find_state_type, validate_native_hierarchy,
}
use gloam_macro_commands.Macros.Groups.Building.{Builds, BuildsAll, HasDistinctNames}
use gloam_macro_commands.Macros.Groups.Accepted.{Builds-accepted}
use gloam_macro_commands.Tests.Tokens.{
  Token, ident_token, eq_token, str_token, tokens, word, named, any_token, eq, comma, lit_str,
  ended,
}
use gloam_macro_commands.Tests.Macros.{
  naming, scope, ping, ping_tokens, expansion, plain, ping_expanded, distinct_names, scope-Resolves,
}

abbrev attribute : List (Attribute InlineChoiceArgs)
attribute = record { path = named "group"; meta = bare_meta } ∷ []

abbrev command_attribute : List (Attribute InlineChoiceArgs)
command_attribute = record { path = named "command"; meta = bare_meta } ∷ []

-- `#[group(description = "Asks")] mod inner { #[command(..)] async fn ping(..) .. }`
-- inside `#[group(description = "Asks")] mod outer { .. }`.
abbrev group_tokens : List Token
group_tokens = ident_token (word "description") ∷ eq_token ∷ str_token "Asks" ∷ []

abbrev inner_items : Items InlineChoiceArgs
inner_items = item_cons (fn_item command_attribute ping) no_items

abbrev outer_items : Items InlineChoiceArgs
outer_items = item_cons (mod_item attribute (word "inner") inner_items) no_items

abbrev inner_group : GroupExpansion ℕ
inner_group = record {
  child_factories = "__gloam_command_ping" ∷ [];
  command = λ children. group (new_command "inner" "Asks") children;
  factory_name = "__gloam_command_inner";
  state = plain "Data";
}

abbrev outer_group : GroupExpansion ℕ
outer_group = record {
  child_factories = "__gloam_command_inner" ∷ [];
  command = λ children. group (new_command "outer" "Asks") children;
  factory_name = "__gloam_command_outer";
  state = plain "Data";
}

inner_expanded :
    expand_group naming tokens 20 group_tokens
      (record { ident = word "inner"; content = some inner_items })
    ≡ some (ok inner_group)
unfolding expand_group expand_group_parsed expand_group_args parse_group_args parse_arguments
    any_token eq comma lit_str ended validate_name validate_description child_factories
    find_state_type validate_native_hierarchy named_type context_type state_type has_attribute
inner_expanded = refl

outer_expanded :
    expand_group naming tokens 20 group_tokens
      (record { ident = word "outer"; content = some outer_items })
    ≡ some (ok outer_group)
unfolding expand_group expand_group_parsed expand_group_args parse_group_args parse_arguments
    any_token eq comma lit_str ended validate_name validate_description child_factories
    find_state_type validate_native_hierarchy named_type context_type state_type has_attribute
outer_expanded = refl

abbrev inner_command : SlashCommand ℕ
inner_command = inner_group.command (cons expansion.command nil)

abbrev outer_command : SlashCommand ℕ
outer_command = outer_group.command (cons inner_command nil)

abbrev outer_item : Item InlineChoiceArgs
outer_item = mod_item attribute (word "outer") outer_items

outer_built : Builds naming scope tokens outer_item outer_command
unfolding has_attribute
outer_built =
    Builds.group_built attribute (word "outer") outer_items 20 group_tokens outer_group _ refl
      outer_expanded
      (BuildsAll.child_built _ no_items inner_command nil
        (Builds.group_built attribute (word "inner") inner_items 20 group_tokens inner_group _ refl
          inner_expanded
          (BuildsAll.child_built _ no_items expansion.command nil
            (Builds.command_built command_attribute ping 20 ping_tokens expansion refl
              ping_expanded)
            BuildsAll.none_built))
        BuildsAll.none_built)

outer_names : HasDistinctNames outer_command
unfolding new_command with_options
outer_names =
    ((contains-absent [] "inner" refl, tt), (((contains-absent [] "ping" refl, tt), (tt, tt)), tt))

Builds-accepted_example : validate_hierarchy outer_command ≡ Error.ok tt
Builds-accepted_example =
    Builds-accepted naming scope tokens outer_item outer_command scope-Resolves outer_built
      ((distinct_names, tt), tt) outer_names
