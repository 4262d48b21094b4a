-- ===== src/Macros/Arguments.antt =====
-- crates/gloam-commands-macros/src/command.rs: the arguments of `#[command(..)]`.
pub mod Given
pub mod Keys
pub mod Readings
pub mod Parsing
pub mod Positive
use gloam_macro_commands.Common.{
  ℕ, ◌^◌, String, Bool, true, false, not, ◌&&◌, ◌||◌, ◌≡◌, ◌↔◌, decided_iff, Option, none, some,
  List, [], ◌∷◌, ◌++◌, map, all, is_empty, is_some, ltb, contains, str_eq, if◌then◌else◌, ◌<>◌,
  decided,
}
use gloam_macro_commands.Macros.Syntax.{
  Result, ok, err, ◌>>=◌, ◌>>◌, guard, or_fail, Ident, is_ident, unraw, Segments, nil, cons,
  segments_list, plain_arguments, Expr,
}
use gloam_macro_commands.Macros.Stream.{ParseStream, parse_value, parse_arguments}
use gloam_macro_commands.Discord.{ContextType}
use gloam_macro_commands.Discord

pub data CommandContext : Type 0 where
  guild bot_dm private_channel : CommandContext

unfoldable pub parse_context : String → Result CommandContext
parse_context value =
    if str_eq value "guild"
    then ok guild
    else if str_eq value "bot_dm"
    then ok bot_dm
    else if str_eq value "private_channel"
    then ok private_channel
    else err "unsupported command context; expected `guild`, `bot_dm`, or `private_channel`"

-- The context that the tokens name.
unfoldable pub context_tokens : CommandContext → ContextType
context_tokens guild = Discord.guild
context_tokens bot_dm = Discord.bot_dm
context_tokens private_channel = Discord.private_channel

CommandContext-discrete : Discrete CommandContext
CommandContext-discrete = hlevel

unfoldable pub same_command_context : CommandContext → CommandContext → Bool
unfolding CommandContext-discrete
same_command_context c d = decided (CommandContext-discrete c d)

pub same_command_context_iff : (c d : CommandContext) → (same_command_context c d ≡ true) ↔ (c ≡ d)
unfolding same_command_context
same_command_context_iff c d = decided_iff (CommandContext-discrete c d)

unfoldable pub contains_context : List CommandContext → CommandContext → Bool
unfolding same_command_context
contains_context [] c = false
contains_context (d ∷ seen) c = same_command_context d c || contains_context seen c

pub record CommandArgs : Type 0 where
  pub name : Option String
  pub description : Option String
  pub checks : List Segments
  pub contexts : List CommandContext
  pub guild_only : Option (Unit {0})
  pub member_permissions : Option Expr
  pub bot_permissions : Option Expr
  pub cooldown_seconds : Option ℕ
  pub max_concurrency : Option ℕ

-- An argument that was read, before it is stored.
pub data CommandArgument : Type 0 where
  name_arg : String → CommandArgument
  description_arg : String → CommandArgument
  check_arg : Segments → CommandArgument
  context_arg : CommandContext → CommandArgument
  guild_only_arg : CommandArgument
  member_permissions_arg : Expr → CommandArgument
  bot_permissions_arg : Expr → CommandArgument
  cooldown_arg : ℕ → CommandArgument
  max_concurrency_arg : ℕ → CommandArgument

-- `value.base10_parse()` to an unsigned integer of 64 bits, which `usize` is too.
unfoldable pub base10_parse_64 : ℕ → Option ℕ
base10_parse_64 n = if ltb n (2 ^ 64) then some n else none

unfoldable pub validate_handler_path : Segments → (kind : String) → Result (Unit {0})
validate_handler_path path kind =
    guard
      (not (is_empty (segments_list path))
        && all (λ s. plain_arguments s.arguments) (segments_list path))
      ("`" <> kind <> "` requires a handler function path")

unfoldable pub path_display : Segments → String
path_display nil = ""
path_display (cons i a nil) = unraw i
path_display (cons i a (cons j b more)) = unraw i <> "::" <> path_display (cons j b more)

unfoldable pub make_check : Segments → Result CommandArgument
unfolding validate_handler_path
make_check path = do validate_handler_path path "check"; ok (check_arg path)

unfoldable pub make_context : String → Result CommandArgument
unfolding parse_context
make_context value = do context ← parse_context value; ok (context_arg context)

unfoldable pub make_cooldown : ℕ → Result CommandArgument
unfolding base10_parse_64
make_cooldown value = do
  seconds ← or_fail (base10_parse_64 value) "`cooldown` must be a non-negative integer"
  ok (cooldown_arg seconds)

unfoldable pub make_max_concurrency : ℕ → Result CommandArgument
unfolding base10_parse_64
make_max_concurrency value = do
  limit ← or_fail (base10_parse_64 value) "`max_concurrency` must be a positive integer"
  guard (ltb 0 limit) "`max_concurrency` must be greater than zero"
  ok (max_concurrency_arg limit)

abbrev unsupported_argument : String
unsupported_argument =
    "unsupported command argument; expected `name`, `description`, `check`, `context`, `guild_only`, `member_permissions`, `bot_permissions`, `cooldown`, or `max_concurrency`"

module _ {S : Type 0} (stream : ParseStream S) where
  -- The value of a key, after the equals sign.
  unfoldable pub read_value : Ident → S → Result (CommandArgument × S)
  unfolding parse_value make_check make_context make_cooldown make_max_concurrency
  read_value key s =
      if is_ident key "name"
      then parse_value (stream.parse_lit_str s) (λ value. ok (name_arg value))
      else if is_ident key "description"
      then parse_value (stream.parse_lit_str s) (λ value. ok (description_arg value))
      else if is_ident key "check"
      then parse_value (stream.parse_path s) make_check
      else if is_ident key "context"
      then parse_value (stream.parse_lit_str s) make_context
      else if is_ident key "member_permissions"
      then parse_value (stream.parse_expr s) (λ value. ok (member_permissions_arg value))
      else if is_ident key "bot_permissions"
      then parse_value (stream.parse_expr s) (λ value. ok (bot_permissions_arg value))
      else if is_ident key "cooldown"
      then parse_value (stream.parse_lit_int s) make_cooldown
      else if is_ident key "max_concurrency"
      then parse_value (stream.parse_lit_int s) make_max_concurrency
      else err unsupported_argument

  unfoldable pub read_key : Ident → S → Result (CommandArgument × S)
  unfolding read_value
  read_key key s =
      if is_ident key "guild_only"
      then ok (guild_only_arg, s)
      else (do t ← stream.parse_eq s; read_value key t)

  unfoldable pub read_command_argument : S → Result (CommandArgument × S)
  unfolding read_key
  read_command_argument s = do (key, t) ← stream.parse_any s; read_key key t

-- `slot.replace(value).is_some()`, an error where the slot was filled.
abbrev pub replace {ℓ} : {A : Type ℓ} → Option A → A → (message : String) → Result (Option A)
replace none value message = ok (some value)
replace (some old) value message = err message

-- `check_names` holds the displayed paths of the checks so far, and `context_kinds` the contexts.
unfoldable pub add_command_argument : CommandArgs → CommandArgument → Result CommandArgs
unfolding path_display contains_context
add_command_argument a (name_arg value) = do
  slot ← replace a.name value "duplicate `name` argument"
  ok (record a { name = slot })
add_command_argument a (description_arg value) = do
  slot ← replace a.description value "duplicate `description` argument"
  ok (record a { description = slot })
add_command_argument a (check_arg path) = do
  guard (not (contains (map path_display a.checks) (path_display path))) "duplicate command check"
  ok (record a { checks = a.checks ++ path ∷ [] })
add_command_argument a (context_arg context) = do
  guard (not (contains_context a.contexts context)) "duplicate command context"
  ok (record a { contexts = a.contexts ++ context ∷ [] })
add_command_argument a guild_only_arg = do
  slot ← replace a.guild_only tt "duplicate `guild_only` argument"
  ok (record a { guild_only = slot })
add_command_argument a (member_permissions_arg value) = do
  slot ← replace a.member_permissions value "duplicate `member_permissions` argument"
  ok (record a { member_permissions = slot })
add_command_argument a (bot_permissions_arg value) = do
  slot ← replace a.bot_permissions value "duplicate `bot_permissions` argument"
  ok (record a { bot_permissions = slot })
add_command_argument a (cooldown_arg seconds) = do
  slot ← replace a.cooldown_seconds seconds "duplicate `cooldown` argument"
  ok (record a { cooldown_seconds = slot })
add_command_argument a (max_concurrency_arg limit) = do
  slot ← replace a.max_concurrency limit "duplicate `max_concurrency` argument"
  ok (record a { max_concurrency = slot })

abbrev pub empty_args : CommandArgs
empty_args = record {
  name = none;
  description = none;
  checks = [];
  contexts = [];
  guild_only = none;
  member_permissions = none;
  bot_permissions = none;
  cooldown_seconds = none;
  max_concurrency = none;
}

-- The guard after the loop.
unfoldable pub exclude_contexts : CommandArgs → Result CommandArgs
exclude_contexts a = do
  guard (not (is_some a.guild_only && not (is_empty a.contexts)))
      "`guild_only` cannot be combined with explicit `context = ...` arguments"
  ok a

unfoldable pub finish_args : Option (Result CommandArgs) → Option (Result CommandArgs)
unfolding exclude_contexts
finish_args none = none
finish_args (some r) = some (r >>= exclude_contexts)

unfoldable pub parse_command_args :
    {S : Type 0} → ParseStream S → (fuel : ℕ) → S → Option (Result CommandArgs)
unfolding read_command_argument add_command_argument finish_args
parse_command_args stream fuel s =
    finish_args
      (parse_arguments stream (read_command_argument stream) add_command_argument fuel s empty_args)
