-- ===== src/Resolve/Paths.antt =====
-- crates/gloam-commands/src/framework.rs, `resolve_command`: it finds exactly the leaves of a
-- command's tree, each under the path that Discord submits for it.
use gloam_macro_commands.Common.{
  ◌≡◌, refl, inl, inr, sym, subst, String, Bool, true, false, Option, none, some, List, [], ◌∷◌,
  ◌++◌, map, Memᴰ, find, find-Memᴰ, find-passes, str_eq, eq_iff, eq_refl, All-Memᴰ, arith, Unique,
  Bool-cases, if◌then◌else◌, join, Memᴰ-map,
}
use gloam_macro_commands.Error.{
  ok, ◌>>=◌, guard, >>=-eq-ok, seq_iff, guard_iff, unknown_command_path,
}
use gloam_macro_commands.Discord.{
  InteractionOption, submit, option_name, option_kind, nested_options, options_of,
  options_list-options_of, OptionType, same_type, same_type_iff, sub_command, sub_command_group,
}
use gloam_macro_commands.Descriptor.{CommandDescriptor}
use gloam_macro_commands.Command.{
  SlashCommandLeaf, SlashCommand, leaf, group, Children, children_list, command_name, is_leaf,
}
use gloam_macro_commands.Registry.Hierarchy.{
  child_names, IsLeafNode, IsGroupOf, IsValidChild, IsValidCommand,
}
use gloam_macro_commands.Resolve.{
  ResolvedCommand, only_branch, find_child, resolve_nested, resolve_child, resolve_command,
}

module _ {W : Type 0} where
  -- The leaves of a tree with the names that lead to them, at most three.
  pub data Reaches
      : SlashCommand W → List String → CommandDescriptor → SlashCommandLeaf W → Type 0 where
    here : {d : CommandDescriptor} {l : SlashCommandLeaf W} → Reaches (leaf d l) (d.name ∷ []) d l
    child :
        {d e : CommandDescriptor} {cs : Children W} {l : SlashCommandLeaf W}
        → Memᴰ (leaf e l) (children_list cs)
        → Reaches (group d cs) (d.name ∷ e.name ∷ []) e l
    grandchild :
        {d e f : CommandDescriptor} {cs gs : Children W} {l : SlashCommandLeaf W}
        → Memᴰ (group e gs) (children_list cs)
        → Memᴰ (leaf f l) (children_list gs)
        → Reaches (group d cs) (d.name ∷ e.name ∷ f.name ∷ []) f l

-- An option that stands for a subcommand or a group, with the options inside it.
abbrev pub Wraps : InteractionOption → String → Bool → List InteractionOption → Type 0
Wraps o name is_group inside =
    (option_name o ≡ name)
    × (option_kind o ≡ (if is_group then sub_command_group else sub_command))
    × (nested_options o ≡ inside)

-- The submitted options stand for an invocation of `path` with the options `options`.
abbrev pub Submits : List String → List InteractionOption → List InteractionOption → Type 0
Submits (a ∷ []) submitted options = submitted ≡ options
Submits (a ∷ b ∷ []) submitted options =
    (o : InteractionOption) × (submitted ≡ o ∷ []) × Wraps o b false options
Submits (a ∷ b ∷ c ∷ []) submitted options =
    (o p : InteractionOption) × (submitted ≡ o ∷ [])
    × Wraps o b true (p ∷ [])
    × Wraps p c false options
Submits _ submitted options = ⊥

-- What Discord submits for a path.
abbrev pub submission : List String → List InteractionOption → List InteractionOption
submission (a ∷ b ∷ []) options = submit b sub_command none (options_of options) none ∷ []
submission (a ∷ b ∷ c ∷ _) options =
    submit b sub_command_group none
      (options_of (submit c sub_command none (options_of options) none ∷ [])) none
    ∷ []
submission _ options = options

pub same_type_refl : (kind : OptionType) → same_type kind kind ≡ true
same_type_refl kind = (same_type_iff kind kind).1 refl

only_branch_sound :
    (os : List InteractionOption) (path : List String) (o : InteractionOption)
    → only_branch os path ≡ ok o
    → os ≡ o ∷ []
unfolding only_branch
only_branch_sound [] path o e = cc
only_branch_sound (p ∷ []) path o e = cc
only_branch_sound (p ∷ q ∷ os) path o e = cc

module _ {W : Type 0} where
  find-Unique :
      (cs : List (SlashCommand W)) (c : SlashCommand W)
      → Unique (map command_name cs)
      → Memᴰ c cs
      → find (λ x. str_eq (command_name x) (command_name c)) cs ≡ some c
  find-Unique [] c u m = elim m [ ]
  find-Unique (x ∷ cs) c (absent, u) (Memᴰ.head e) = rw (e, eq_refl (command_name x))
  find-Unique (x ∷ cs) c (absent, u) (Memᴰ.tail m) =
      elim (Bool-cases (str_eq (command_name x) (command_name c))) [
        | inl same ↦
            let named : Memᴰ (command_name c) (map command_name cs) = Memᴰ-map command_name m in
            let e = (eq_iff (command_name x) (command_name c)).0 same in
            absurd (absent (subst (λ n. Memᴰ n (map command_name cs)) (sym e) named))
        | inr other ↦ rw other (find-Unique cs c u m)
      ]

  pub find_child-Unique :
      (cs : Children W) (c : SlashCommand W) (name : String)
      → command_name c ≡ name
      → Unique (child_names cs)
      → Memᴰ c (children_list cs)
      → find_child name cs ≡ some c
  unfolding find_child
  find_child-Unique cs c name e u m = rw (← e) (find-Unique (children_list cs) c u m)

  -- Every leaf of an accepted command is found: what Discord submits for its path resolves to it,
  -- with that path and with the submitted options.
  pub resolve_command-submission :
      (c : SlashCommand W) (path : List String) (d : CommandDescriptor) (l : SlashCommandLeaf W)
      (options : List InteractionOption)
      → IsValidCommand c
      → Reaches c path d l
      → resolve_command c (submission path options)
        ≡ ok (record { command = leaf d l; path = path; options = options })
  unfolding resolve_command
  resolve_command-submission c path d l options v here = refl
  resolve_command-submission c path d l options v (child {cs = cs} m) =
      rw (find_child-Unique cs (leaf d l) d.name refl v.distinct m)
        (rw (same_type_refl sub_command, options_list-options_of options))
  resolve_command-submission c path d l options v (grandchild {e = e} {cs = cs} {gs = gs} m n) =
      let below : IsGroupOf IsLeafNode e gs = All-Memᴰ IsValidChild (children_list cs) v.each m in
      rw (find_child-Unique cs (group e gs) e.name refl v.distinct m) (
        rw (same_type_refl sub_command_group) (
          rw (find_child-Unique gs (leaf d l) d.name refl below.distinct n)
            (rw (same_type_refl sub_command, options_list-options_of options))))

  child_sound :
      (name : String) (cs : Children W) {c : SlashCommand W}
      → find_child name cs ≡ some c
      → Memᴰ c (children_list cs) × (name ≡ command_name c)
  unfolding find_child
  child_sound name cs {c} e = (
    find-Memᴰ _ (children_list cs) e,
    sym ((eq_iff (command_name c) name).0 (find-passes _ (children_list cs) {a = c} e)),
  )

  -- What the last level has established when it succeeds.
  abbrev NestedOf : List String → Children W → InteractionOption → ResolvedCommand W → Type 0
  NestedOf path cs o r =
      (f : CommandDescriptor) × (l : SlashCommandLeaf W) × (r.command ≡ leaf f l)
      × Memᴰ (leaf f l) (children_list cs)
      × (r.path ≡ path ++ f.name ∷ [])
      × Wraps o f.name false r.options

  resolve_nested_sound :
      (path : List String) (cs : Children W) (o : InteractionOption)
      (found : Option (SlashCommand W)) (r : ResolvedCommand W)
      → find_child (option_name o) cs ≡ found
      → resolve_nested path found o ≡ ok r
      → NestedOf path cs o r
  unfolding resolve_nested
  resolve_nested_sound path cs o none r f e = cc
  resolve_nested_sound path cs o (some (group d gs)) r f e = cc
  resolve_nested_sound path cs o (some (leaf d l)) r f e =
      let (listed, named) = child_sound (option_name o) cs {c = leaf d l} f in
      (
        d,
        l,
        ground arith,
        listed,
        ground arith,
        (named, (same_type_iff (option_kind o) sub_command).0 (ground arith), ground arith),
      )

  -- A leaf was resolved that lies in the tree under the resolved path, and the options are those
  -- that were submitted inside that path.
  pub record IsResolved (c : SlashCommand W) (submitted : List InteractionOption)
      (r : ResolvedCommand W) : Type 0 where
    pub metadata : CommandDescriptor
    pub content : SlashCommandLeaf W
    pub is_leaf : r.command ≡ leaf metadata content
    pub reached : Reaches c r.path metadata content
    pub submits : Submits r.path submitted r.options

  resolve_child_sound :
      (d : CommandDescriptor) (cs : Children W) (o : InteractionOption)
      (found : Option (SlashCommand W)) (r : ResolvedCommand W)
      → find_child (option_name o) cs ≡ found
      → resolve_child (d.name ∷ []) found o ≡ ok r
      → IsResolved (group d cs) (o ∷ []) r
  unfolding resolve_child
  resolve_child_sound d cs o none r f e = cc
  resolve_child_sound d cs o (some (leaf x l)) r f e =
      let (listed, named) = child_sound (option_name o) cs {c = leaf x l} f in
      let path : r.path ≡ d.name ∷ x.name ∷ [] = ground arith in
      record {
        metadata = x;
        content = l;
        is_leaf = ground arith;
        reached = rw path (child listed);
        submits = rw path (
          o,
          refl,
          (named, (same_type_iff (option_kind o) sub_command).0 (ground arith), ground arith),
        );
      }
  resolve_child_sound d cs o (some (group x gs)) r f e =
      let (listed, named) = child_sound (option_name o) cs {c = group x gs} f in
      let path' = d.name ∷ x.name ∷ [] in
      let (kind, e₁) =
        (seq_iff
            (guard (same_type (option_kind o) sub_command_group)
              (unknown_command_path (join path')))
            (only_branch (nested_options o) path' >>= λ p.
              resolve_nested path' (find_child (option_name p) gs) p)
            r).0
          e in
      let (p, single, e₂) =
        >>=-eq-ok (only_branch (nested_options o) path')
          (λ q. resolve_nested path' (find_child (option_name q) gs) q) e₁ in
      let (y, l, is_leaf, below, path, wraps) =
        resolve_nested_sound (d.name ∷ x.name ∷ []) gs p (find_child (option_name p) gs) r refl
          e₂ in
      record {
        metadata = y;
        content = l;
        is_leaf = is_leaf;
        reached = rw path (grandchild listed below);
        submits = rw path (
          o,
          p,
          refl,
          (
            named,
            (same_type_iff (option_kind o) sub_command_group).0 ((guard_iff _ _).0 kind),
            only_branch_sound (nested_options o) (d.name ∷ x.name ∷ []) p single,
          ),
          wraps,
        );
      }

  -- Whatever is submitted, what `resolve_command` returns is a leaf of the tree, under the path that
  -- was submitted for it, with exactly the options submitted inside that path.
  pub resolve_command_sound :
      (c : SlashCommand W) (submitted : List InteractionOption) (r : ResolvedCommand W)
      → resolve_command c submitted ≡ ok r
      → IsResolved c submitted r
  unfolding resolve_command
  resolve_command_sound (leaf d l) submitted r e =
      let path : r.path ≡ d.name ∷ [] = ground arith in
      record {
        metadata = d;
        content = l;
        is_leaf = ground arith;
        reached = rw path here;
        submits = rw path (ground arith);
      }
  resolve_command_sound (group d cs) submitted r e =
      let (o, single, e₁) = >>=-eq-ok (only_branch submitted (d.name ∷ [])) _ e in
      rw (only_branch_sound submitted (d.name ∷ []) o single)
        (resolve_child_sound d cs o (find_child (option_name o) cs) r refl e₁)
