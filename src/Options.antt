-- ===== src/Options.antt =====
-- crates/gloam-commands/src/options.rs: typed access to the options submitted for a leaf.
pub mod Extraction
use gloam_macro_commands.Common.{
  ℕ, String, Bool, true, false, Option, none, some, List, find, str_eq,
}
use gloam_macro_commands.Common.Integer.{ℤ}
use gloam_macro_commands.Common.Binary64.{F64}
use gloam_macro_commands.Error.{
  Result, ok, err, ◌>>=◌, ◌>>◌, guard, or_fail, map_ok, missing_option, invalid_option,
}
use gloam_macro_commands.Discord.{
  OptionType, string, integer, number, boolean, user, channel, role, attachment, same_type,
  InteractionValue, string_value, integer_value, number_value, boolean_value, InteractionOption,
  option_name, option_kind, option_value,
}

-- `CommandOptions::get`.
unfoldable pub get_option : List InteractionOption → String → Option InteractionOption
get_option options name = find (λ option. str_eq (option_name option) name) options

-- The trait `CommandOption`.
pub record CommandOption (A : Type 0) : Type 0 where
  pub kind : OptionType
  pub extract : List InteractionOption → String → Result A

unfoldable pub required_option : List InteractionOption → String → Result InteractionOption
unfolding get_option
required_option options name = or_fail (get_option options name) (missing_option name)

unfoldable pub validate_kind : InteractionOption → String → OptionType → String → Result (Unit {0})
validate_kind option name expected_kind expected =
    guard (same_type (option_kind option) expected_kind) (invalid_option name expected)

-- The value of an option that has one of the expected variant.
abbrev pub read_value :
    {A : Type 0} → (InteractionValue → Option A) → Option InteractionValue → Option A
read_value read none = none
read_value read (some v) = read v

-- The body that the implementations share: `read` is their pattern, followed for ids by `parse`.
unfoldable pub extract_value :
    {A : Type 0}
    → OptionType
    → String
    → (InteractionValue → Option A)
    → List InteractionOption
    → String
    → Result A
unfolding required_option validate_kind
extract_value kind expected read options name = do
  option ← required_option options name
  validate_kind option name kind expected
  or_fail (read_value read (option_value option)) (invalid_option name expected)

abbrev pub read_string : InteractionValue → Option String
read_string (string_value s) = some s
read_string _ = none

abbrev pub read_boolean : InteractionValue → Option Bool
read_boolean (boolean_value b) = some b
read_boolean _ = none

abbrev pub read_integer : InteractionValue → Option ℤ
read_integer (integer_value i) = some i
read_integer _ = none

abbrev pub read_number : InteractionValue → Option F64
read_number (number_value x) = some x
read_number _ = none

unfoldable pub string_option : CommandOption String
unfolding extract_value
string_option = record { kind = string; extract = extract_value string "String" read_string }

unfoldable pub boolean_option : CommandOption Bool
unfolding extract_value
boolean_option = record { kind = boolean; extract = extract_value boolean "bool" read_boolean }

unfoldable pub integer_option : CommandOption ℤ
unfolding extract_value
integer_option = record { kind = integer; extract = extract_value integer "i64" read_integer }

unfoldable pub number_option : CommandOption F64
unfolding extract_value
number_option = record { kind = number; extract = extract_value number "f64" read_number }

-- `parse` is Gloamwire's parser of ids.
module _ (parse : String → Option ℕ) where
  abbrev pub read_id : InteractionValue → Option ℕ
  read_id (string_value s) = parse s
  read_id _ = none

  unfoldable pub user_option : CommandOption ℕ
  unfolding extract_value
  user_option = record {
    kind = user;
    extract = extract_value user "gloamwire::model::UserId" read_id;
  }

  unfoldable pub channel_option : CommandOption ℕ
  unfolding extract_value
  channel_option = record {
    kind = channel;
    extract = extract_value channel "gloamwire::model::ChannelId" read_id;
  }

  unfoldable pub role_option : CommandOption ℕ
  unfolding extract_value
  role_option = record {
    kind = role;
    extract = extract_value role "gloamwire::model::RoleId" read_id;
  }

  unfoldable pub attachment_option : CommandOption ℕ
  unfolding extract_value
  attachment_option = record {
    kind = attachment;
    extract = extract_value attachment "gloamwire::model::AttachmentId" read_id;
  }

-- `impl CommandOption for Option<T>`.
unfoldable pub optional : {A : Type 0} → CommandOption A → CommandOption (Option A)
unfolding get_option
optional t = record {
  kind = t.kind;
  extract = λ options name. elim (get_option options name) [
    | none ↦ ok none
    | some _ ↦ map_ok some (t.extract options name)
  ];
}
