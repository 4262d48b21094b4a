-- ===== src/Macros/Groups.antt =====
-- crates/gloam-commands-macros/src/{group,commands}.rs: the groups that `#[group]` makes of modules,
-- and the list that `commands!` makes of paths.
pub mod Building
pub mod Accepted
use gloam_macro_commands.Common.{
  ℕ, String, Bool, true, false, not, ◌||◌, Option, none, some, List, [], ◌∷◌, any, is_empty,
  unwrap_or, ◌<>◌, if◌then◌else◌,
}
use gloam_macro_commands.Descriptor.{new_command}
use gloam_macro_commands.Command.{SlashCommand, Children}
use gloam_macro_commands.Command
use gloam_macro_commands.Macros.Syntax.{
  Result, ok, err, ◌>>=◌, ◌>>◌, guard, or_fail, collect, Ident, is_ident, unraw, Ty, Segments, nil,
  cons, Segment, last_segment, plain_arguments,
}
use gloam_macro_commands.Macros.Functions.{Attribute, ItemFn}
use gloam_macro_commands.Macros.Stream.{ParseStream, parse_arguments}
use gloam_macro_commands.Macros.Arguments.{replace}
use gloam_macro_commands.Macros.Names.{Naming, validate_name, validate_description}
use gloam_macro_commands.Macros.Signature.{context_type, state_type}

pub record GroupArgs : Type 0 where
  pub name : Option String
  pub description : Option String

-- An argument that was read: its key and its value.
pub data GroupArgument : Type 0 where
  group_name : String → GroupArgument
  group_description : String → GroupArgument

-- The value is parsed before the key is looked at, and a key that was given before is found after.
abbrev pub make_group_argument : Ident → String → Result GroupArgument
make_group_argument key value =
    if is_ident key "name"
    then ok (group_name value)
    else if is_ident key "description"
    then ok (group_description value)
    else err "unsupported group argument; expected `name` or `description`"

unfoldable pub read_group_argument : {S : Type 0} → ParseStream S → S → Result (GroupArgument × S)
read_group_argument stream s = do
  (key, t) ← stream.parse_any s
  u ← stream.parse_eq t
  (value, v) ← stream.parse_lit_str u
  a ← make_group_argument key value
  ok (a, v)

unfoldable pub add_group_argument : GroupArgs → GroupArgument → Result GroupArgs
add_group_argument a (group_name value) = do
  slot ← replace a.name value "duplicate `name` argument"
  ok (record a { name = slot })
add_group_argument a (group_description value) = do
  slot ← replace a.description value "duplicate `description` argument"
  ok (record a { description = slot })

unfoldable pub parse_group_args :
    {S : Type 0} → ParseStream S → (fuel : ℕ) → S → Option (Result GroupArgs)
unfolding read_group_argument add_group_argument
parse_group_args stream fuel s =
    parse_arguments stream (read_group_argument stream) add_group_argument fuel s
      (record { name = none; description = none })

-- The items of a module, with the list type of a nested module's. `mod name;` has no items.
mutual
  pub data Item (A : Type 0) : Type 0 where
    fn_item : (attrs : List (Attribute A)) → ItemFn A → Item A
    mod_item : (attrs : List (Attribute A)) → Ident → Items A → Item A
    mod_declaration : (attrs : List (Attribute A)) → Ident → Item A
    other_item : ℕ → Item A

  pub data Items (A : Type 0) : Type 0 where
    no_items : Items A
    item_cons : Item A → Items A → Items A

-- The module that `#[group]` stands before.
pub record ItemMod (A : Type 0) : Type 0 where
  pub ident : Ident
  pub content : Option (Items A)

abbrev is_last : Option Segment → String → Bool
is_last none name = false
is_last (some s) name = is_ident s.ident name

abbrev pub inline_module : String
inline_module = "`#[group]` requires an inline module body"

abbrev push_some : Option String → List String → List String
push_some none names = names
push_some (some name) names = name ∷ names

-- The state type of a nested group, or that of a later item.
abbrev or_later : Result (Option Ty) → Option Ty → Result (Option Ty)
or_later later none = later
or_later later (some state) = ok (some state)

module _ {A : Type 0} where
  unfoldable pub has_attribute : List (Attribute A) → String → Bool
  has_attribute attributes name = any (λ a. is_last (last_segment a.path) name) attributes

  unfoldable pub factory_of : Item A → Option String
  factory_of (fn_item attrs f) =
      if has_attribute attrs "command" then some ("__gloam_command_" <> unraw f.ident) else none
  factory_of (mod_item attrs ident items) =
      if has_attribute attrs "group" then some ("__gloam_command_" <> unraw ident) else none
  factory_of (mod_declaration attrs ident) =
      if has_attribute attrs "group" then some ("__gloam_command_" <> unraw ident) else none
  factory_of (other_item n) = none

  unfoldable pub child_factories : Items A → List String
  unfolding factory_of
  child_factories no_items = []
  child_factories (item_cons item rest) = push_some (factory_of item) (child_factories rest)

  unfoldable pub find_state_type : Items A → Result (Option Ty)
  unfolding has_attribute context_type state_type
  find_state_type no_items = ok none
  find_state_type (item_cons (fn_item attrs f) rest) =
      let later = find_state_type rest in
      if has_attribute attrs "command"
      then (do context ← context_type f; state ← state_type context; ok (some state))
      else later
  find_state_type (item_cons (mod_item attrs ident items) rest) =
      let nested = find_state_type items in
      let later = find_state_type rest in
      if has_attribute attrs "group" then nested >>= or_later later else later
  find_state_type (item_cons (mod_declaration attrs ident) rest) =
      let later = find_state_type rest in
      if has_attribute attrs "group" then err inline_module else later
  find_state_type (item_cons (other_item n) rest) = find_state_type rest

  unfoldable pub is_group_item : Item A → Bool
  unfolding has_attribute
  is_group_item (fn_item attrs f) = false
  is_group_item (mod_item attrs ident items) = has_attribute attrs "group"
  is_group_item (mod_declaration attrs ident) = has_attribute attrs "group"
  is_group_item (other_item n) = false

  unfoldable pub contains_group : Items A → Bool
  unfolding is_group_item
  contains_group no_items = false
  contains_group (item_cons item rest) = is_group_item item || contains_group rest

  -- What is asked of one item.
  unfoldable pub validate_item : Item A → Result (Unit {0})
  unfolding has_attribute contains_group
  validate_item (fn_item attrs f) = ok tt
  validate_item (mod_item attrs ident children) =
      guard (not (has_attribute attrs "group") || not (contains_group children))
        "Discord slash commands support at most `command -> subcommand group -> subcommand`"
  validate_item (mod_declaration attrs ident) =
      guard (not (has_attribute attrs "group")) inline_module
  validate_item (other_item n) = ok tt

  unfoldable pub validate_native_hierarchy : Items A → Result (Unit {0})
  unfolding validate_item
  validate_native_hierarchy no_items = ok tt
  validate_native_hierarchy (item_cons item rest) =
      validate_item item >> validate_native_hierarchy rest

-- What `#[group]` generates: the command that the factory returns, given the values of the child
-- factories it calls, and the factory's name and state type.
pub record GroupExpansion (W : Type 0) : Type 0 where
  pub child_factories : List String
  pub command : Children W → SlashCommand W
  pub factory_name : String
  pub state : Ty

module _ {W A : Type 0} (naming : Naming) where
  unfoldable pub expand_group_args : GroupArgs → ItemMod A → Result (GroupExpansion W)
  unfolding validate_name validate_description validate_native_hierarchy child_factories
      find_state_type
  expand_group_args args m = do
    description ← or_fail args.description "slash-command groups require `description = \"...\"`"
    validate_name naming (unwrap_or args.name (unraw m.ident))
    validate_description description
    items ← or_fail m.content inline_module
    validate_native_hierarchy items
    guard (not (is_empty (child_factories items)))
        "slash-command groups require at least one direct `#[command]` or `#[group]` child"
    found ← find_state_type items
    state ← or_fail found "slash-command groups must contain at least one `#[command]` leaf"
    ok (record {
      child_factories = child_factories items;
      command = λ children.
          Command.group (new_command (unwrap_or args.name (unraw m.ident)) description) children;
      factory_name = "__gloam_command_" <> unraw m.ident;
      state = state;
    })

  unfoldable pub expand_group_parsed :
      Option (Result GroupArgs) → ItemMod A → Option (Result (GroupExpansion W))
  unfolding expand_group_args
  expand_group_parsed none m = none
  expand_group_parsed (some r) m = some (r >>= λ args. expand_group_args args m)

  unfoldable pub expand_group :
      {S : Type 0} → ParseStream S → (fuel : ℕ) → S → ItemMod A → Option (Result (GroupExpansion W))
  unfolding expand_group_parsed parse_group_args
  expand_group stream fuel s m = expand_group_parsed (parse_group_args stream fuel s) m

-- `commands!`: each path with the factory's name as its last.
unfoldable pub factory_path : Segments → Result Segments
factory_path nil = err "expected a slash-command path"
factory_path (cons i a nil) = do
  guard (plain_arguments a) "slash-command paths cannot contain generic arguments"
  ok (cons (record { raw = false; name = "__gloam_command_" <> unraw i }) a nil)
factory_path (cons i a (cons j b more)) = do rest ← factory_path (cons j b more); ok (cons i a rest)

unfoldable pub expand_commands : (paths : List Segments) → Result (List Segments)
unfolding factory_path
expand_commands paths = collect factory_path paths
