-- ===== src/Macros/Arguments/Keys.antt =====
-- crates/gloam-commands-macros/src/command.rs, `CommandArgs::parse`: the keys of `#[command(..)]` and
-- what each takes, as a relation on streams.
use gloam_macro_commands.Common.{ℕ, ◌<◌, ◌^◌, ◌≡◌, ◌≢◌, String, true, [], All}
use gloam_macro_commands.Macros.Syntax.{
  ok, Ident, ident_text, Segments, segments_list, plain_arguments, Expr,
}
use gloam_macro_commands.Macros.Stream.{ParseStream}
use gloam_macro_commands.Macros.Arguments.{
  CommandContext, guild, bot_dm, private_channel, CommandArgument, name_arg, description_arg,
  check_arg, context_arg, guild_only_arg, member_permissions_arg, bot_permissions_arg, cooldown_arg,
  max_concurrency_arg,
}

abbrev pub IsContext : String → CommandContext → Type 0
IsContext value guild = value ≡ "guild"
IsContext value bot_dm = value ≡ "bot_dm"
IsContext value private_channel = value ≡ "private_channel"

-- A path without generic arguments.
abbrev pub IsHandlerPath : Segments → Type 0
IsHandlerPath path =
    (segments_list path ≢ []) × All (λ s. plain_arguments s.arguments ≡ true) (segments_list path)

-- What the value of a key says, after the equals sign.
pub data Says {S : Type 0} (stream : ParseStream S) (s : S)
    : String → CommandArgument → S → Type 0 where
  name_said :
      (value : String) (t : S)
      → stream.parse_lit_str s ≡ ok (value, t)
      → Says stream s "name" (name_arg value) t
  description_said :
      (value : String) (t : S)
      → stream.parse_lit_str s ≡ ok (value, t)
      → Says stream s "description" (description_arg value) t
  check_said :
      (path : Segments) (t : S)
      → stream.parse_path s ≡ ok (path, t)
      → IsHandlerPath path
      → Says stream s "check" (check_arg path) t
  context_said :
      (value : String) (context : CommandContext) (t : S)
      → stream.parse_lit_str s ≡ ok (value, t)
      → IsContext value context
      → Says stream s "context" (context_arg context) t
  member_permissions_said :
      (value : Expr) (t : S)
      → stream.parse_expr s ≡ ok (value, t)
      → Says stream s "member_permissions" (member_permissions_arg value) t
  bot_permissions_said :
      (value : Expr) (t : S)
      → stream.parse_expr s ≡ ok (value, t)
      → Says stream s "bot_permissions" (bot_permissions_arg value) t
  cooldown_said :
      (seconds : ℕ) (t : S)
      → stream.parse_lit_int s ≡ ok (seconds, t)
      → seconds < 2 ^ 64
      → Says stream s "cooldown" (cooldown_arg seconds) t
  max_concurrency_said :
      (limit : ℕ) (t : S)
      → stream.parse_lit_int s ≡ ok (limit, t)
      → 0 < limit
      → limit < 2 ^ 64
      → Says stream s "max_concurrency" (max_concurrency_arg limit) t

-- One argument: `guild_only` alone, or another key, an equals sign and what the key takes.
pub data Reads {S : Type 0} (stream : ParseStream S) (s : S) : CommandArgument → S → Type 0 where
  bare :
      (key : Ident) (t : S)
      → stream.parse_any s ≡ ok (key, t)
      → ident_text key ≡ "guild_only"
      → Reads stream s guild_only_arg t
  valued :
      (key : Ident) (u v t : S) (a : CommandArgument)
      → stream.parse_any s ≡ ok (key, u)
      → stream.parse_eq u ≡ ok v
      → Says stream v (ident_text key) a t
      → Reads stream s a t
