-- ===== src/Macros/Names.antt =====
-- crates/gloam-commands-macros/src/command.rs: names and descriptions of commands and options.
use gloam_macro_commands.Common.{
  ◌≤◌, String, Bool, true, ◌&&◌, ◌≡◌, arith, count, leb, str_eq, eq_iff,
}
use gloam_macro_commands.Macros.Syntax.{Result, ok, ◌>>◌, guard, seq_iff, guard_iff}

-- The regex crate's test on Discord's name pattern, and `str::to_lowercase`, which follows Unicode's
-- tables.
pub record Naming : Type 0 where
  pub is_match : String → Bool
  pub to_lowercase : String → String

unfoldable pub validate_name : Naming → String → Result (Unit {0})
validate_name naming name = do
  guard (naming.is_match name)
      "invalid Discord chat-input command name; expected 1-32 characters matching Discord's application-command naming rules"
  guard (str_eq (naming.to_lowercase name) name)
      "Discord chat-input command names must use lowercase variants when available"
  ok tt

-- `(1..=100).contains(&value.chars().count())`.
abbrev pub is_short : String → Bool
is_short text = leb 1 (count text) && leb (count text) 100

unfoldable pub validate_description : String → Result (Unit {0})
validate_description description =
    guard (is_short description)
      "Discord slash-command descriptions must contain between 1 and 100 characters"

abbrev pub IsShort : String → Type 0
IsShort text = (1 ≤ count text) × (count text ≤ 100)

abbrev pub IsName : Naming → String → Type 0
IsName naming name = (naming.is_match name ≡ true) × (naming.to_lowercase name ≡ name)

pub is_short-IsShort : (text : String) → is_short text ≡ true → IsShort text
is_short-IsShort text e = ground arith

pub validate_description-IsShort :
    (text : String) → validate_description text ≡ ok tt → IsShort text
unfolding validate_description
validate_description-IsShort text e = is_short-IsShort text ((guard_iff _ _).0 e)

pub validate_name-IsName :
    (naming : Naming) (name : String) → validate_name naming name ≡ ok tt → IsName naming name
unfolding validate_name
validate_name-IsName naming name e =
    let (matched, rest) = (seq_iff _ _ tt).0 e in
    let (lower, _) = (seq_iff _ _ tt).0 rest in
    (
      (guard_iff _ _).0 matched,
      (eq_iff (naming.to_lowercase name) name).0 ((guard_iff _ _).0 lower),
    )
