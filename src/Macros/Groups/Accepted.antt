-- ===== src/Macros/Groups/Accepted.antt =====
-- From `#[group] mod ..` with the commands inside it to a tree that the registry accepts.
use gloam_macro_commands.Common.{
  ℕ, String, false, ◌≡◌, ◌≢◌, refl, sym, ap, arith, Option, none, some, [], All, Unique, is_empty,
  not-eq-true, subst,
}
use gloam_macro_commands.Descriptor.{CommandDescriptor, new_command}
use gloam_macro_commands.Command.{
  SlashCommand, leaf, group, Children, children_list, SlashCommandLeaf,
}
use gloam_macro_commands.Error
use gloam_macro_commands.Registry.{validate_hierarchy}
use gloam_macro_commands.Registry.Leaves.{IsValidLeaf}
use gloam_macro_commands.Registry.Hierarchy.{
  validate_hierarchy_iff, child_names, IsLeafNode, IsGroupOf, IsValidChild, IsValidCommand,
}
use gloam_macro_commands.Macros.Syntax.{
  Result, ok, err, or_fail, >>=-eq-ok, seq_iff, guard_iff, ok-injective, Ident,
}
use gloam_macro_commands.Macros.Functions.{ItemFn}
use gloam_macro_commands.Macros.Stream.{ParseStream}
use gloam_macro_commands.Macros.Names.{
  Naming, IsName, IsShort, validate_name-IsName, validate_description-IsShort,
}
use gloam_macro_commands.Macros.Choices.{InlineChoiceArgs}
use gloam_macro_commands.Macros.Parameters.{parameter_names, skip_one}
use gloam_macro_commands.Macros.Commands.{Scope, Expansion, expand}
use gloam_macro_commands.Macros.Commands.Leaves.{Resolves}
use gloam_macro_commands.Macros.Commands.Accepted.{expand-IsValidLeaf}
use gloam_macro_commands.Macros.Groups.{
  GroupArgs, Item, fn_item, mod_item, Items, ItemMod, child_factories, contains_group,
  is_group_item, validate_item, validate_native_hierarchy, GroupExpansion, find_state_type,
  expand_group_args, expand_group_parsed, expand_group, parse_group_args,
}
use gloam_macro_commands.Macros.Groups.Building.{
  HasDistinctParameters, HaveDistinctParameters, HasDistinctNames, HaveDistinctNames, Builds,
  command_built, group_built, BuildsAll, none_built, not_built, child_built,
}

module _ {W V S : Type 0} (naming : Naming) (scope : Scope W V) (stream : ParseStream S) where
  -- A group with its name and description, whose items have the native depth and a child.
  record Groups (ident : Ident) (items : Items InlineChoiceArgs) (x : GroupExpansion W)
      : Type 0 where
    name : String
    description : String
    named : IsName naming name
    short : IsShort description
    native : validate_native_hierarchy items ≡ ok tt
    some_child : is_empty (child_factories items) ≡ false
    command : x.command ≡ (λ cs. group (new_command name description) cs)

  expand_group_parsed-ok :
      (r : Option (Result GroupArgs)) (m : ItemMod InlineChoiceArgs) (x : GroupExpansion W)
      → expand_group_parsed naming r m ≡ some (ok x)
      → (args : GroupArgs) × (r ≡ some (ok args)) × (expand_group_args naming args m ≡ ok x)
  unfolding expand_group_parsed
  expand_group_parsed-ok none m x e = cc
  expand_group_parsed-ok (some (err message)) m x e = cc
  expand_group_parsed-ok (some (ok args)) m x e = (args, refl, cc)

  expand_group-Groups :
      (fuel : ℕ) (s : S) (ident : Ident) (items : Items InlineChoiceArgs) (x : GroupExpansion W)
      → expand_group naming stream fuel s (record { ident = ident; content = some items })
        ≡ some (ok x)
      → Groups ident items x
  unfolding expand_group expand_group_args
  expand_group-Groups fuel s ident items x e =
      let (args, _, e₁) = expand_group_parsed-ok (parse_group_args stream fuel s) _ x e in
      let (description, _, e₂) = >>=-eq-ok (or_fail args.description _) _ e₁ in
      let (named, e₃) = (seq_iff _ _ x).0 e₂ in
      let (short, e₄) = (seq_iff _ _ x).0 e₃ in
      let (native, e₅) = (seq_iff _ _ x).0 e₄ in
      let (some_child, e₆) = (seq_iff _ _ x).0 e₅ in
      let (found, _, e₇) = >>=-eq-ok (find_state_type items) _ e₆ in
      let (state, _, e₈) = >>=-eq-ok (or_fail found _) _ e₇ in
      record {
        name = _;
        description = description;
        named = validate_name-IsName naming _ named;
        short = validate_description-IsShort description short;
        native = native;
        some_child = not-eq-true _ ((guard_iff _ _).0 some_child);
        command = ap (λ y. y.command) (sym (ok-injective e₈));
      }

  BuildsAll-child :
      (items : Items InlineChoiceArgs) (children : Children W)
      → BuildsAll naming scope stream items children
      → is_empty (child_factories items) ≡ false
      → children_list children ≢ []
  unfolding child_factories
  BuildsAll-child _ _ none_built e = absurd (ground arith)
  BuildsAll-child _ _ (not_built item items children skipped rest) e =
      BuildsAll-child items children rest (ground arith)
  BuildsAll-child _ _ (child_built item items c children built rest) e = λ empty. cc

  -- A group of children that are `P`.
  group-IsGroupOf :
      (P : SlashCommand W → Type 0) (ident : Ident) (items : Items InlineChoiceArgs)
      (x : GroupExpansion W) (children : Children W)
      → Groups ident items x
      → BuildsAll naming scope stream items children
      → Unique (child_names children)
      → All P (children_list children)
      → (d : CommandDescriptor) × (x.command children ≡ group d children) × IsGroupOf P d children
  unfolding new_command
  group-IsGroupOf P ident items x children g all names each = (
    new_command g.name g.description,
    ap (λ h. h children) g.command,
    record {
      no_options = refl;
      some_child = BuildsAll-child items children all g.some_child;
      distinct = names;
      each = each;
    },
  )

  module _ (resolves : Resolves scope) where
    command_leaf :
        (f : ItemFn InlineChoiceArgs) (fuel : ℕ) (s : S) (x : Expansion W)
        → Unique (parameter_names (skip_one f.inputs))
        → expand naming scope stream fuel s f ≡ some (ok x)
        → (d : CommandDescriptor) × (l : SlashCommandLeaf W) × (x.command ≡ leaf d l)
          × IsValidLeaf d l
    command_leaf f fuel s x unique e =
        let (d, l, same, valid, _, _, _) =
          expand-IsValidLeaf naming scope stream fuel s f x resolves unique e in
        (d, l, same, valid)

    -- Without groups among the items, the children are leaves.
    BuildsAll-IsLeafNode :
        (items : Items InlineChoiceArgs) (children : Children W)
        → BuildsAll naming scope stream items children
        → contains_group items ≡ false
        → HaveDistinctParameters items
        → All IsLeafNode (children_list children)
    unfolding contains_group is_group_item
    BuildsAll-IsLeafNode _ _ none_built e unique = tt
    BuildsAll-IsLeafNode _ _ (not_built item items children skipped rest) e unique =
        BuildsAll-IsLeafNode items children rest (ground arith) unique.1
    BuildsAll-IsLeafNode _ _
          (child_built _ items _ children (command_built attrs f fuel s x is_command e) rest) plain
          unique =
        let (d, l, same, valid) = command_leaf f fuel s x unique.0 e in
        (
          subst IsLeafNode (sym same) valid,
          BuildsAll-IsLeafNode items children rest (ground arith) unique.1,
        )
    BuildsAll-IsLeafNode _ _
          (child_built _ items _ children
            (group_built attrs ident inner fuel s x cs is_group e all)
            rest)
          plain unique =
        absurd (ground arith)

    -- Where the items have the native depth, the children are leaves and groups of leaves.
    BuildsAll-IsValidChild :
        (items : Items InlineChoiceArgs) (children : Children W)
        → BuildsAll naming scope stream items children
        → validate_native_hierarchy items ≡ ok tt
        → HaveDistinctParameters items
        → HaveDistinctNames children
        → All IsValidChild (children_list children)
    unfolding validate_native_hierarchy validate_item
    BuildsAll-IsValidChild _ _ none_built native unique names = tt
    BuildsAll-IsValidChild _ _ (not_built item items children skipped rest) native unique names =
        let (_, later) = (seq_iff (validate_item item) _ tt).0 native in
        BuildsAll-IsValidChild items children rest later unique.1 names
    BuildsAll-IsValidChild _ _
          (child_built _ items _ children (command_built attrs f fuel s x is_command e) rest) native
          unique names =
        let (_, later) = (seq_iff (validate_item (fn_item attrs f)) _ tt).0 native in
        let (d, l, same, valid) = command_leaf f fuel s x unique.0 e in
        (
          subst IsValidChild (sym same) valid,
          BuildsAll-IsValidChild items children rest later unique.1 names.1,
        )
    BuildsAll-IsValidChild _ _
          (child_built _ items _ children
            (group_built attrs ident inner fuel s x cs is_group e all)
            rest)
          native unique names =
        let (here, later) = (seq_iff (validate_item (mod_item attrs ident inner)) _ tt).0 native in
        let plain : contains_group inner ≡ false = ground (arith, (guard_iff _ _).0 here) in
        let g = expand_group-Groups fuel s ident inner x e in
        let (named, _) = subst HasDistinctNames (ap (λ h. h cs) g.command) names.0 in
        let leaves = BuildsAll-IsLeafNode inner cs all plain unique.0 in
        let (d, same, valid) = group-IsGroupOf IsLeafNode ident inner x cs g all named leaves in
        (
          subst IsValidChild (sym same) valid,
          BuildsAll-IsValidChild items children rest later unique.1 names.1,
        )

    Builds-IsValidCommand :
        (item : Item InlineChoiceArgs) (c : SlashCommand W)
        → Builds naming scope stream item c
        → HasDistinctParameters item
        → HasDistinctNames c
        → IsValidCommand c
    Builds-IsValidCommand _ _ (command_built attrs f fuel s x is_command e) unique names =
        let (d, l, same, valid) = command_leaf f fuel s x unique e in
        subst IsValidCommand (sym same) valid
    Builds-IsValidCommand _ _ (group_built attrs ident items fuel s x cs is_group e all) unique
          names =
        let g = expand_group-Groups fuel s ident items x e in
        let (named, below) = subst HasDistinctNames (ap (λ h. h cs) g.command) names in
        let each = BuildsAll-IsValidChild items cs all g.native unique below in
        let (d, same, valid) = group-IsGroupOf IsValidChild ident items x cs g all named each in
        subst IsValidCommand (sym same) valid

  -- Whatever command or tree of groups the attributes `#[command]` and `#[group]` build of an item is
  -- accepted by the registry, if the option types resolve to the standard ones that they are named
  -- after, no function has two parameters of one name and no group two children of one name.
  pub Builds-accepted :
      (item : Item InlineChoiceArgs) (c : SlashCommand W)
      → Resolves scope
      → Builds naming scope stream item c
      → HasDistinctParameters item
      → HasDistinctNames c
      → validate_hierarchy c ≡ Error.ok tt
  Builds-accepted item c resolves built unique names =
      (validate_hierarchy_iff c).1 (Builds-IsValidCommand resolves item c built unique names)
