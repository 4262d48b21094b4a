-- ===== src/Registry/Hierarchy.antt =====
-- crates/gloam-commands/src/registry.rs, `validate_hierarchy` and `validate_children`: the accepted
-- trees are Discord's, a command, or a group of commands and of groups of commands.
use gloam_macro_commands.Common.{
  ℕ, ◌+◌, ◌≡◌, ◌≢◌, refl, ◌↔◌, String, Bool, true, false, not, ◌||◌, List, [], ◌∷◌, ◌++◌, map, any,
  is_empty, is_empty_iff, contains, contains_iff, not_contains, All, arith, leb, Unique, AllFresh,
  AllFresh-cons, cons-AllFresh, no_names, ap,
}
use gloam_macro_commands.Error.{
  Result, ok, ◌>>◌, guard, seq_iff, guard_iff, duplicate_command_path, invalid_command_hierarchy,
  seq_assoc,
}
use gloam_macro_commands.Descriptor.{CommandDescriptor}
use gloam_macro_commands.Command.{
  SlashCommand, leaf, group, Children, nil, cons, children_list, is_group, command_name,
}
use gloam_macro_commands.Registry.{
  format_path, validate_leaf, validate_children, validate_hierarchy,
}
use gloam_macro_commands.Registry.Leaves.{IsValidLeaf, validate_leaf_iff}

group_guard_iff :
    (options cs : Bool) → (not (not options || cs) ≡ true) ↔ ((options ≡ true) × (cs ≡ false))
group_guard_iff options cs = ground arith

module _ {W : Type 0} where
  abbrev pub child_names : Children W → List String
  child_names cs = map command_name (children_list cs)

  abbrev pub IsLeafNode : SlashCommand W → Type 0
  IsLeafNode (leaf d l) = IsValidLeaf d l
  IsLeafNode (group d cs) = ⊥

  -- A group has no options of its own, at least one child, and no two children of one name.
  pub record IsGroupOf (P : SlashCommand W → Type 0) (d : CommandDescriptor) (cs : Children W)
      : Type 0 where
    pub no_options : d.options ≡ []
    pub some_child : children_list cs ≢ []
    pub distinct : Unique (child_names cs)
    pub each : All P (children_list cs)

  abbrev pub IsValidChild : SlashCommand W → Type 0
  IsValidChild (leaf d l) = IsValidLeaf d l
  IsValidChild (group d cs) = IsGroupOf IsLeafNode d cs

  abbrev pub IsValidCommand : SlashCommand W → Type 0
  IsValidCommand (leaf d l) = IsValidLeaf d l
  IsValidCommand (group d cs) = IsGroupOf IsValidChild d cs

  -- One child's part of a round of the loop.
  validate_node : SlashCommand W → List String → ℕ → Result (Unit {0})
  validate_node (leaf d l) path depth = validate_leaf d l (format_path path d.name)
  validate_node (group d cs) path depth = do
    guard (not (leb 2 depth || not (is_empty d.options) || is_empty (children_list cs)))
        (invalid_command_hierarchy (format_path path d.name))
    guard (not (any is_group (children_list cs)))
        (invalid_command_hierarchy (format_path path d.name))
    validate_children cs (path ++ d.name ∷ []) (depth + 1) []

  validate_children-cons :
      (c : SlashCommand W) (cs : Children W) (path : List String) (depth : ℕ) (names : List String)
      → validate_children (cons c cs) path depth names ≡ (
          guard
            (not (contains names (command_name c)))
            (duplicate_command_path (format_path path (command_name c)))
          >> (validate_node c path depth
              >> validate_children cs path depth (command_name c ∷ names)))
  unfolding validate_children validate_node
  validate_children-cons (leaf d l) cs path depth names = refl
  validate_children-cons (group d cs) rest path depth names = simp seq_assoc

  module _ (P : SlashCommand W → Type 0) (depth : ℕ)
      (node_iff : (c : SlashCommand W) (path : List String)
        → (validate_node c path depth ≡ ok tt) ↔ P c) where
    children_iff :
        (cs : Children W) (path names : List String)
        → (validate_children cs path depth names ≡ ok tt)
          ↔ (Unique (child_names cs) × AllFresh names (child_names cs) × All P (children_list cs))
    children_iff nil path names = (λ _. (tt, tt, tt), λ _. unfold validate_children in refl)
    children_iff (cons c cs) path names =
        let n = command_name c in
        let e = duplicate_command_path (format_path path n) in
        let rest = validate_children cs path depth (n ∷ names) in
        let (s, s') =
          seq_iff (guard (not (contains names n)) e) (validate_node c path depth >> rest) tt in
        let (t, t') = seq_iff (validate_node c path depth) rest tt in
        let (g, g') = guard_iff (not (contains names n)) e in
        let (m, m') = contains_iff names n in
        let (v, v') = node_iff c path in
        let (r, r') = children_iff cs path (n ∷ names) in
        rw (validate_children-cons c cs path depth names) (
          λ h.
              let (fresh, h₁) = s h in
              let (here, h₂) = t h₁ in
              let (unique, below, each) = r h₂ in
              let (below', absent) = AllFresh-cons n names (child_names cs) below in
              ((absent, unique), (λ i. cc (g fresh, m' i), below'), (v here, each)),
          λ h.
              let ((absent, unique), (fresh, below), (here, each)) = h in
              s' (
                g' (ap not (not_contains names n fresh)),
                t' (
                  v' here,
                  r' (unique, cons-AllFresh n names (child_names cs) below absent, each),
                ),
              ),
        )

  IsLeafNode-iff :
      (c : SlashCommand W) (path : List String) → (validate_node c path 2 ≡ ok tt) ↔ IsLeafNode c
  unfolding validate_node
  IsLeafNode-iff (leaf d l) path = validate_leaf_iff d l (format_path path d.name)
  IsLeafNode-iff (group d cs) path = (λ e. cc, λ h. absurd h)

  no_groups : (cs : List (SlashCommand W)) → All IsLeafNode cs → any is_group cs ≡ false
  no_groups [] h = refl
  no_groups (leaf d l ∷ cs) h = no_groups cs h.1
  no_groups (group d gs ∷ cs) h = absurd h.0

  not_empty : (cs : List (SlashCommand W)) → cs ≢ [] → is_empty cs ≡ false
  not_empty [] h = absurd (h refl)
  not_empty (c ∷ cs) h = refl

  child_node_iff :
      (c : SlashCommand W) (path : List String) → (validate_node c path 1 ≡ ok tt) ↔ IsValidChild c
  unfolding validate_node
  child_node_iff (leaf d l) path = validate_leaf_iff d l (format_path path d.name)
  child_node_iff (group d cs) path = (to, from)
    where
      inner : (validate_children cs (path ++ d.name ∷ []) 2 [] ≡ ok tt) ↔ (
          Unique (child_names cs)
          × AllFresh [] (child_names cs)
          × All IsLeafNode (children_list cs))
      inner = children_iff IsLeafNode 2 IsLeafNode-iff cs (path ++ d.name ∷ []) []

      to : validate_node (group d cs) path 1 ≡ ok tt → IsGroupOf IsLeafNode d cs
      to e =
          let (shape, e₁) = (seq_iff _ _ tt).0 e in
          let hierarchy = invalid_command_hierarchy (format_path path d.name) in
          let (flat, e₂) =
            (seq_iff (guard (not (any is_group (children_list cs))) hierarchy)
                (validate_children cs (path ++ d.name ∷ []) 2 []) tt).0
              e₁ in
          let (none_given, some_child) =
            (group_guard_iff (is_empty d.options) (is_empty (children_list cs))).0
              ((guard_iff _ _).0 shape) in
          let (distinct, fresh, each) = inner.0 e₂ in
          record {
            no_options = (is_empty_iff d.options).0 none_given;
            some_child = λ nothing. cc (some_child, (is_empty_iff (children_list cs)).1 nothing);
            distinct = distinct;
            each = each;
          }

      from : IsGroupOf IsLeafNode d cs → validate_node (group d cs) path 1 ≡ ok tt
      from h =
          rw
            (
              (is_empty_iff d.options).1 h.no_options,
              not_empty (children_list cs) h.some_child,
              no_groups (children_list cs) h.each,
            )
            (inner.1 (h.distinct, no_names (child_names cs), h.each))

  -- A command is accepted exactly if it is a valid leaf, or a group without options, with children
  -- of distinct names, each a valid leaf or a group of the same kind whose children are valid
  -- leaves: nothing nests deeper.
  pub validate_hierarchy_iff :
      (c : SlashCommand W) → (validate_hierarchy c ≡ ok tt) ↔ IsValidCommand c
  unfolding validate_hierarchy
  validate_hierarchy_iff (leaf d l) = validate_leaf_iff d l d.name
  validate_hierarchy_iff (group d cs) = (to, from)
    where
      inner : (validate_children cs (d.name ∷ []) 1 [] ≡ ok tt) ↔ (
          Unique (child_names cs)
          × AllFresh [] (child_names cs)
          × All IsValidChild (children_list cs))
      inner = children_iff IsValidChild 1 child_node_iff cs (d.name ∷ []) []

      to : validate_hierarchy (group d cs) ≡ ok tt → IsGroupOf IsValidChild d cs
      to e =
          let (shape, e₁) = (seq_iff _ _ tt).0 e in
          let (none_given, some_child) =
            (group_guard_iff (is_empty d.options) (is_empty (children_list cs))).0
              ((guard_iff _ _).0 shape) in
          let (distinct, fresh, each) = inner.0 e₁ in
          record {
            no_options = (is_empty_iff d.options).0 none_given;
            some_child = λ nothing. cc (some_child, (is_empty_iff (children_list cs)).1 nothing);
            distinct = distinct;
            each = each;
          }

      from : IsGroupOf IsValidChild d cs → validate_hierarchy (group d cs) ≡ ok tt
      from h =
          rw ((is_empty_iff d.options).1 h.no_options, not_empty (children_list cs) h.some_child)
            (inner.1 (h.distinct, no_names (child_names cs), h.each))
