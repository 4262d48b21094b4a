-- ===== src/Tests/Trees.antt =====
-- Runs of validation, registration and resolution on one command tree.
use gloam_macro_commands.Common.{ℕ, ◌≡◌, refl, ◌↔◌, some, [], ◌∷◌, Memᴰ, if◌then◌else◌, str_eq}
use gloam_macro_commands.Error.{ok}
use gloam_macro_commands.Discord.{same_type}
use gloam_macro_commands.Command.{SlashCommand, leaf}
use gloam_macro_commands.Registry.{
  validate_leaf, validate_hierarchy, CommandRegistry, new, insert, get,
}
use gloam_macro_commands.Registry.Leaves.{IsValidLeaf, validate_leaf_iff}
use gloam_macro_commands.Registry.Hierarchy.{IsValidCommand, validate_hierarchy_iff}
use gloam_macro_commands.Registry.Ordering.{
  IsWellFormed, new-IsWellFormed, insert-IsWellFormed, get-insert,
}
use gloam_macro_commands.Resolve.{
  ResolvedCommand, find_child, resolve_command, focused_option_index,
}
use gloam_macro_commands.Resolve.Paths.{
  Reaches, submission, resolve_command-submission, IsResolved, resolve_command_sound,
}
use gloam_macro_commands.Resolve.Focus.{IsFocusedAt, focused_option_index_iff}
use gloam_macro_commands.Registration.{create_command, create_commands}
use gloam_macro_commands.Registration.Published.{create_commands_iff}
use gloam_macro_commands.Tests.Fixtures.{
  admin, set_descriptor, set_leaf, count_given, set_submission,
}

validate_leaf_iff_example :
    (validate_leaf set_descriptor set_leaf "set" ≡ ok tt) ↔ IsValidLeaf set_descriptor set_leaf
validate_leaf_iff_example = validate_leaf_iff set_descriptor set_leaf "set"

validate_hierarchy_iff_example : (validate_hierarchy admin ≡ ok tt) ↔ IsValidCommand admin
validate_hierarchy_iff_example = validate_hierarchy_iff admin

validated : validate_hierarchy admin ≡ ok tt
unfolding validate_hierarchy
validated = refl

pub admin-IsValid : IsValidCommand admin
admin-IsValid = (validate_hierarchy_iff admin).0 validated

abbrev pub filled : CommandRegistry ℕ
filled = record { commands = ("admin", admin) ∷ [] }

pub inserted : insert new admin ≡ ok filled
unfolding insert new
inserted = refl

filled-IsWellFormed : IsWellFormed filled
filled-IsWellFormed = insert-IsWellFormed new admin filled new-IsWellFormed inserted

insert-IsWellFormed_example : IsWellFormed filled
insert-IsWellFormed_example = insert-IsWellFormed new admin filled new-IsWellFormed inserted

get-insert_example :
    get filled "admin" ≡ (if str_eq "admin" "admin" then some admin else get (new {W = ℕ}) "admin")
get-insert_example = get-insert new admin filled "admin" inserted

pub set-Reaches : Reaches admin ("admin" ∷ "config" ∷ "set" ∷ []) set_descriptor set_leaf
set-Reaches = Reaches.grandchild (Memᴰ.tail (Memᴰ.head refl)) (Memᴰ.head refl)

resolve_command-submission_example :
    resolve_command admin (submission ("admin" ∷ "config" ∷ "set" ∷ []) (count_given ∷ []))
    ≡ ok (record {
      command = leaf set_descriptor set_leaf;
      path = "admin" ∷ "config" ∷ "set" ∷ [];
      options = count_given ∷ [];
    })
resolve_command-submission_example =
    resolve_command-submission admin ("admin" ∷ "config" ∷ "set" ∷ []) set_descriptor set_leaf
      (count_given ∷ []) admin-IsValid set-Reaches

abbrev set_resolved : ResolvedCommand ℕ
set_resolved = record {
  command = leaf set_descriptor set_leaf;
  path = "admin" ∷ "config" ∷ "set" ∷ [];
  options = count_given ∷ [];
}

resolved : resolve_command admin set_submission ≡ ok set_resolved
unfolding resolve_command find_child same_type
resolved = refl

resolve_command_sound_example : IsResolved admin set_submission set_resolved
resolve_command_sound_example = resolve_command_sound admin set_submission set_resolved resolved

focused_option_index_iff_example :
    (focused_option_index (count_given ∷ []) ("set" ∷ []) ≡ ok 0)
    ↔ (IsFocusedAt (count_given ∷ []) 0 × ((k : ℕ) → IsFocusedAt (count_given ∷ []) k → k ≡ 0))
focused_option_index_iff_example = focused_option_index_iff (count_given ∷ []) ("set" ∷ []) 0

create_commands_iff_example : Memᴰ (create_command admin) (create_commands filled) ↔ (
    (c : SlashCommand ℕ) × (get filled (create_command admin).name ≡ some c)
    × (create_command admin ≡ create_command c))
create_commands_iff_example = create_commands_iff filled (create_command admin) filled-IsWellFormed
