-- ===== src/Registry/Ordering.antt =====
-- crates/gloam-commands/src/registry.rs: the registry as a map from names to accepted commands,
-- which iterates in the order of the names.
use gloam_macro_commands.Common.{
  ◌≡◌, refl, subst, ◌↔◌, inl, inr, String, true, none, some, List, [], ◌∷◌, All, arith,
  if◌then◌else◌, str_eq, str_ltb, str_ltb_trans, str_ltb_connex, eq_iff, Bool-cases,
}
use gloam_macro_commands.Error.{ok, err, seq_iff, duplicate_command}
use gloam_macro_commands.Command.{SlashCommand, command_name}
use gloam_macro_commands.Registry.{
  validate_hierarchy, lookup, insert_vacant, CommandRegistry, new, insert, get,
}
use gloam_macro_commands.Registry.Hierarchy.{IsValidCommand, validate_hierarchy_iff}

module _ {W : Type 0} where
  -- Every key from `name` on is above it.
  abbrev pub Above : String → List (String × SlashCommand W) → Type 0
  Above name = All (λ e. str_ltb name e.0 ≡ true)

  abbrev pub IsSorted : List (String × SlashCommand W) → Type 0
  IsSorted [] = Unit {0}
  IsSorted ((key, c) ∷ rest) = Above key rest × IsSorted rest

  -- An entry's key is its command's name, and the command is accepted.
  abbrev pub IsEntry : String × SlashCommand W → Type 0
  IsEntry (key, c) = (key ≡ command_name c) × IsValidCommand c

  pub record IsWellFormed (r : CommandRegistry W) : Type 0 where
    pub sorted : IsSorted r.commands
    pub entries : All IsEntry r.commands

  lookup-insert_vacant :
      (name j : String) (c : SlashCommand W) (m : List (String × SlashCommand W))
      → lookup name m ≡ none
      → lookup j (insert_vacant name c m) ≡ (if str_eq name j then some c else lookup j m)
  unfolding lookup insert_vacant
  lookup-insert_vacant name j c [] h = refl
  lookup-insert_vacant name j c ((key, d) ∷ m) h =
      ground (arith, eq_iff key name, eq_iff name j, eq_iff key j, lookup-insert_vacant name j c m)

  Above-trans :
      (a b : String) (m : List (String × SlashCommand W))
      → str_ltb a b ≡ true
      → Above b m
      → Above a m
  Above-trans a b [] h k = tt
  Above-trans a b ((key, c) ∷ m) h (k, ks) = (str_ltb_trans a b key h k, Above-trans a b m h ks)

  Above-insert_vacant :
      (a name : String) (c : SlashCommand W) (m : List (String × SlashCommand W))
      → str_ltb a name ≡ true
      → Above a m
      → Above a (insert_vacant name c m)
  unfolding insert_vacant
  Above-insert_vacant a name c [] h k = (h, tt)
  Above-insert_vacant a name c ((key, d) ∷ m) h (k, ks) =
      ground (arith, Above-insert_vacant a name c m h ks)

  insert_vacant-IsSorted :
      (name : String) (c : SlashCommand W) (m : List (String × SlashCommand W))
      → lookup name m ≡ none
      → IsSorted m
      → IsSorted (insert_vacant name c m)
  unfolding insert_vacant lookup
  insert_vacant-IsSorted name c [] h s = (tt, tt)
  insert_vacant-IsSorted name c ((key, d) ∷ m) h (above, s) = elim (Bool-cases (str_ltb name key)) [
    | inl below ↦ rw below ((below, Above-trans name key m below above), (above, s))
    | inr later ↦ elim (Bool-cases (str_eq key name)) [
      | inl same ↦ absurd (ground arith)
      | inr other ↦ elim (Bool-cases (str_ltb key name)) [
        | inl lt ↦ rw later (
          Above-insert_vacant key name c m lt above,
          insert_vacant-IsSorted name c m (ground arith) s,
        )
        | inr no_lt ↦ absurd (ground (arith, eq_iff key name, str_ltb_connex key name no_lt later))
      ]
    ]
  ]

  insert_vacant-All :
      (P : String × SlashCommand W → Type 0) (name : String) (c : SlashCommand W)
      (m : List (String × SlashCommand W))
      → P (name, c)
      → All P m
      → All P (insert_vacant name c m)
  unfolding insert_vacant
  insert_vacant-All P name c [] h k = (h, tt)
  insert_vacant-All P name c ((key, d) ∷ m) h (k, ks) = elim (Bool-cases (str_ltb name key)) [
    | inl below ↦ rw below (h, (k, ks))
    | inr later ↦ rw later (k, insert_vacant-All P name c m h ks)
  ]

  pub new-IsWellFormed : IsWellFormed (new {W = W})
  unfolding new
  new-IsWellFormed = record { sorted = tt; entries = tt }

  -- What a successful insertion has checked, and the registry that it leaves.
  insert_ok :
      (r : CommandRegistry W) (c : SlashCommand W) (r' : CommandRegistry W)
      → insert r c ≡ ok r'
      → IsValidCommand c
        × (lookup (command_name c) r.commands ≡ none)
        × (insert_vacant (command_name c) c r.commands ≡ r'.commands)
  unfolding insert
  insert_ok r c r' e =
      let (valid, e₁) = (seq_iff (validate_hierarchy c) _ r').0 e in
      ((validate_hierarchy_iff c).0 valid, ground arith, ground arith)

  -- Inserting a command keeps the registry sorted by name and every command in it accepted.
  pub insert-IsWellFormed :
      (r : CommandRegistry W) (c : SlashCommand W) (r' : CommandRegistry W)
      → IsWellFormed r
      → insert r c ≡ ok r'
      → IsWellFormed r'
  insert-IsWellFormed r c r' h e =
      let (valid, vacant, same) = insert_ok r c r' e in
      record {
        sorted =
            subst IsSorted same
              (insert_vacant-IsSorted (command_name c) c r.commands vacant h.sorted);
        entries =
            subst (All IsEntry) same
              (insert_vacant-All IsEntry (command_name c) c r.commands (refl, valid) h.entries);
      }

  -- After an insertion the new name resolves to the new command and every other name as before.
  pub get-insert :
      (r : CommandRegistry W) (c : SlashCommand W) (r' : CommandRegistry W) (name : String)
      → insert r c ≡ ok r'
      → get r' name ≡ (if str_eq (command_name c) name then some c else get r name)
  unfolding get
  get-insert r c r' name e =
      let (valid, vacant, same) = insert_ok r c r' e in
      rw (← same) (lookup-insert_vacant (command_name c) name c r.commands vacant)

  -- A command is inserted exactly if it is accepted and its name is still free.
  pub insert_iff :
      (r : CommandRegistry W) (c : SlashCommand W)
      → ((r' : CommandRegistry W) × (insert r c ≡ ok r'))
        ↔ (IsValidCommand c × (get r (command_name c) ≡ none))
  unfolding get insert
  insert_iff r c = (
    λ (r', e). let (valid, vacant, same) = insert_ok r c r' e in (valid, vacant),
    λ (valid, vacant). (
      record { commands = insert_vacant (command_name c) c r.commands },
      rw ((validate_hierarchy_iff c).1 valid, vacant),
    ),
  )

  -- An accepted command of a taken name is refused as a duplicate.
  pub insert_taken :
      (r : CommandRegistry W) (c d : SlashCommand W)
      → IsValidCommand c
      → get r (command_name c) ≡ some d
      → insert r c ≡ err (duplicate_command (command_name c))
  unfolding get insert
  insert_taken r c d valid found = rw ((validate_hierarchy_iff c).1 valid, found)
