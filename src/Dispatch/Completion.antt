-- ===== src/Dispatch/Completion.antt =====
-- crates/gloam-commands/src/framework.rs, `prepare_dispatch` for autocomplete interactions: an option
-- that was registered for autocomplete always has its handler.
use gloam_macro_commands.Common.{
  ℕ, ◌≡◌, refl, sym, inl, inr, arith, String, Bool, true, Option, none, some, ap, subst, ◌∙◌, ◌↔◌,
  &&_iff, List, [], ◌∷◌, Memᴰ, All-Memᴰ, find, find-Memᴰ, find-passes, get_elem?, str_eq, eq_iff,
  Bool-cases,
}
use gloam_macro_commands.Error.{ok}
use gloam_macro_commands.Discord.{
  InteractionOption, option_name, option_kind, option_focused, same_type_iff, chat_input,
  application_command_autocomplete, CommandData, Interaction,
}
use gloam_macro_commands.Descriptor.{CommandOptionDescriptor, CommandDescriptor}
use gloam_macro_commands.Command.{
  AutocompleteHandlerDescriptor, SlashCommandLeaf, SlashCommand, leaf, group, children_list,
  command_name, autocomplete_handler,
}
use gloam_macro_commands.Registry.Leaves.{handler_names, IsEligible, IsValidLeaf}
use gloam_macro_commands.Registry.Hierarchy.{IsLeafNode, IsValidChild, IsValidCommand}
use gloam_macro_commands.Resolve.{is_focused, focused_option_index}
use gloam_macro_commands.Resolve.Focus.{focused_option_index_iff}
use gloam_macro_commands.Resolve.Paths.{Reaches, submission, resolve_command-submission}
use gloam_macro_commands.Dispatch.{
  Framework, PreparedAutocomplete, autocomplete, completes_option, prepare_dispatch,
}
use gloam_macro_commands.Builder.{FrameworkBuilder, build}
use gloam_macro_commands.Builder.Contents.{build-Holds}
use gloam_macro_commands.Dispatch.Routing.{created}

-- The option is the only focused one, and stands at this index.
abbrev pub IsOnlyFocused : List InteractionOption → ℕ → InteractionOption → Type 0
IsOnlyFocused options index focused =
    (get_elem? options index ≡ some focused)
    × (option_focused focused ≡ some true)
    × ((k : ℕ) (p : InteractionOption)
        → get_elem? options k ≡ some p
        → option_focused p ≡ some true
        → k ≡ index)

-- The option was registered for autocomplete, under the name and with the kind of the submitted one.
abbrev pub IsRegisteredFor :
    InteractionOption → CommandDescriptor → CommandOptionDescriptor → Type 0
IsRegisteredFor focused d o =
    Memᴰ o d.options
    × (o.name ≡ option_name focused)
    × (o.kind ≡ option_kind focused)
    × (o.autocomplete ≡ true)

focused_flag : (b : Option Bool) → is_focused b ≡ true → b ≡ some true
focused_flag none e = cc
focused_flag (some b) e = ap some e

only_focused :
    (options : List InteractionOption) (path : List String) (index : ℕ)
    (focused : InteractionOption)
    → IsOnlyFocused options index focused
    → focused_option_index options path ≡ ok index
only_focused options path index focused (at, on, only) =
    (focused_option_index_iff options path index).1 (
      (focused, at, rw on refl),
      λ k (p, there, flag). only k p there (focused_flag (option_focused p) flag),
    )

find_passing :
    {A : Type 0} (test : A → Bool) (xs : List A) (x : A)
    → Memᴰ x xs
    → test x ≡ true
    → (y : A) × (find test xs ≡ some y)
find_passing test [] x m e = elim m [ ]
find_passing test (y ∷ ys) x m e = elim (Bool-cases (test y)) [
  | inl hit ↦ (y, rw hit refl)
  | inr miss ↦ elim m [
    | Memᴰ.head same ↦
        let hit : test y ≡ true = subst (λ z. test z ≡ true) same e in absurd (ground arith)
    | Memᴰ.tail n ↦ let (z, found) = find_passing test ys x n e in (z, rw miss found)
  ]
]

completes_option_iff :
    (focused : InteractionOption) (o : CommandOptionDescriptor)
    → (completes_option focused o ≡ true)
      ↔ ((o.name ≡ option_name focused) × (o.kind ≡ option_kind focused) × (o.autocomplete ≡ true))
completes_option_iff focused o =
    let (name_to, name_from) = eq_iff o.name (option_name focused) in
    let (kind_to, kind_from) = same_type_iff o.kind (option_kind focused) in
    (
      λ e.
          let (named, e') = (&&_iff _ _).0 e in
          let (kinded, asks) = (&&_iff _ _).0 e' in (name_to named, kind_to kinded, asks),
      λ (named, kinded, asks).
          (&&_iff _ _).1 (name_from named, (&&_iff _ _).1 (kind_from kinded, asks)),
    )

module _ {W : Type 0} where
  Reaches-IsValidLeaf :
      (c : SlashCommand W) {path : List String} {d : CommandDescriptor} {l : SlashCommandLeaf W}
      → IsValidCommand c
      → Reaches c path d l
      → IsValidLeaf d l
  Reaches-IsValidLeaf (leaf d l) v Reaches.here = v
  Reaches-IsValidLeaf (group d cs) v (Reaches.child m) =
      All-Memᴰ IsValidChild (children_list cs) v.each m
  Reaches-IsValidLeaf (group d cs) v (Reaches.grandchild {gs = gs} m n) =
      let below = All-Memᴰ IsValidChild (children_list cs) v.each m in
      All-Memᴰ IsLeafNode (children_list gs) below.each n

  handler_found :
      (hs : List (AutocompleteHandlerDescriptor W)) (name : String)
      → Memᴰ name (handler_names hs)
      → (h : AutocompleteHandlerDescriptor W) × (find (λ entry. str_eq entry.option_name name) hs
          ≡ some h)
  handler_found [] name m = elim m [ ]
  handler_found (x ∷ hs) name m = elim (Bool-cases (str_eq x.option_name name)) [
    | inl same ↦ (x, rw same refl)
    | inr other ↦ elim m [
      | Memᴰ.head e ↦
          let t : str_eq x.option_name name ≡ true = (eq_iff _ _).1 (sym e) in absurd (ground arith)
      | Memᴰ.tail n ↦ let (h, found) = handler_found hs name n in (h, rw other found)
    ]
  ]

  -- What is prepared for the focused option of a leaf.
  abbrev pub completion :
      Framework W
      → Interaction
      → CommandData
      → List String
      → List InteractionOption
      → ℕ
      → Option ℕ
      → CommandDescriptor
      → CommandOptionDescriptor
      → AutocompleteHandlerDescriptor W
      → PreparedAutocomplete W
  completion f i command_data path options index shard_id d o h = record {
    command_name = d.name;
    option_kind = o.kind;
    handler = h.handler;
    context = record {
      interaction = i;
      command_data = command_data;
      command_path = path;
      command_options = options;
      focused_index = index;
      shard_id = shard_id;
    };
    command_slots = f.command_slots;
  }

  -- The handler that is found for the option that the lookup of the focused one answers.
  found_completion :
      (b : FrameworkBuilder W) (slots : ℕ) (f : Framework W) (c : SlashCommand W)
      (path : List String) (d : CommandDescriptor) (l : SlashCommandLeaf W) (i : Interaction)
      (command_data : CommandData) (options : List InteractionOption) (shard_id : Option ℕ)
      (response_state index : ℕ) (focused : InteractionOption) (o : CommandOptionDescriptor)
      → build b slots ≡ ok f
      → Memᴰ c b.commands
      → Reaches c path d l
      → i.kind ≡ application_command_autocomplete
      → i.command_data ≡ ok (some command_data)
      → command_data.kind ≡ chat_input
      → command_data.name ≡ command_name c
      → command_data.options ≡ submission path options
      → focused_option_index options path ≡ ok index
      → get_elem? options index ≡ some focused
      → find (completes_option focused) d.options ≡ some o
      → (h : AutocompleteHandlerDescriptor W) × Memᴰ h l.autocomplete
        × (h.option_name ≡ o.name)
        × (prepare_dispatch f (created i) shard_id response_state
            ≡ ok (autocomplete (completion f i command_data path options index shard_id d o h)))
  unfolding prepare_dispatch
  found_completion b slots f c path d l i command_data options shard_id response_state index focused
        o e m r kind carried chat named submitted at picked registered =
      let (valid, found) = (build-Holds b slots f e).1.added c m in
      let v = Reaches-IsValidLeaf c valid r in
      let asks : o.autocomplete ≡ true =
        let p = find-passes (completes_option focused) d.options registered in ground arith in
      let (kinds, plain, listed) =
        All-Memᴰ (IsEligible (handler_names l.autocomplete)) d.options v.eligible
          (find-Memᴰ (completes_option focused) d.options registered) asks in
      let (h, served) = handler_found l.autocomplete o.name listed in
      (
        h,
        find-Memᴰ (λ entry. str_eq entry.option_name o.name) l.autocomplete served,
        (eq_iff h.option_name o.name).0
            (find-passes (λ entry. str_eq entry.option_name o.name) l.autocomplete served),
        rw
            (
              kind,
              carried,
              chat,
              named,
              found,
              submitted,
              resolve_command-submission c path d l options valid r,
              at,
              picked,
              registered,
            )
            (rw (answers h served) refl),
      )
    where
      answers :
          (h : AutocompleteHandlerDescriptor W)
          → find (λ entry. str_eq entry.option_name o.name) l.autocomplete ≡ some h
          → autocomplete_handler (leaf d l) o.name ≡ some h.handler
      answers h served = rw (served, autocomplete_handler) refl

  -- A framework that was built prepares a handler of the option's name for every option of a leaf
  -- that was registered for autocomplete, when Discord submits the leaf's path with an option of that
  -- name and kind as the only focused one.
  pub build-completion :
      (b : FrameworkBuilder W) (slots : ℕ) (f : Framework W) (c : SlashCommand W)
      (path : List String) (d : CommandDescriptor) (l : SlashCommandLeaf W) (i : Interaction)
      (command_data : CommandData) (options : List InteractionOption) (shard_id : Option ℕ)
      (response_state index : ℕ) (focused : InteractionOption) (o : CommandOptionDescriptor)
      → build b slots ≡ ok f
      → Memᴰ c b.commands
      → Reaches c path d l
      → i.kind ≡ application_command_autocomplete
      → i.command_data ≡ ok (some command_data)
      → command_data.kind ≡ chat_input
      → command_data.name ≡ command_name c
      → command_data.options ≡ submission path options
      → IsOnlyFocused options index focused
      → IsRegisteredFor focused d o
      → (h : AutocompleteHandlerDescriptor W) × Memᴰ h l.autocomplete
        × (h.option_name ≡ o.name)
        × (prepare_dispatch f (created i) shard_id response_state
            ≡ ok (autocomplete (completion f i command_data path options index shard_id d o h)))
  build-completion b slots f c path d l i command_data options shard_id response_state index focused
        o e m r kind carried chat named submitted only (listed, same_name, same_kind, asks) =
      let at = only_focused options path index focused only in
      let passes = (completes_option_iff focused o).1 (same_name, same_kind, asks) in
      let (o', registered) = find_passing (completes_option focused) d.options o listed passes in
      let (name', kind', _) =
        (completes_option_iff focused o').0
          (find-passes (completes_option focused) d.options registered) in
      let (h, member, served, prepared) =
        found_completion b slots f c path d l i command_data options shard_id response_state index
          focused o' e m r kind carried chat named submitted at only.0 registered in
      let kinds : o'.kind ≡ o.kind = kind' ∙ sym same_kind in
      (
        h,
        member,
        served ∙ name' ∙ sym same_name,
        prepared
            ∙ ap
                (λ k. ok (
                  autocomplete
                    (record (completion f i command_data path options index shard_id d o h) {
                      option_kind = k;
                    })))
                kinds,
      )
