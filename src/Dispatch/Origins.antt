-- ===== src/Dispatch/Origins.antt =====
-- crates/gloam-commands/src/framework.rs, `prepare_dispatch`: the events that a prepared command
-- can come from.
use gloam_macro_commands.Common.{
  ℕ, ◌≡◌, refl, sym, ap, ◌∙◌, subst, inl, inr, arith, String, Bool, true, false, Option, none, some,
  List, str_eq, eq_iff, Bool-cases, if◌then◌else◌, get_elem?, find,
}
use gloam_macro_commands.Error.{Result, ok, err, ◌>>=◌, >>=-eq-ok, or_fail}
use gloam_macro_commands.Discord.{
  InteractionOption, CommandType, chat_input, other_command, InteractionType, application_command,
  application_command_autocomplete, other_interaction, CommandData, Interaction, interaction_create,
  ready, other_event, GatewayEvent, dispatch, other_gateway_event,
}
use gloam_macro_commands.Descriptor.{CommandDescriptor}
use gloam_macro_commands.Command.{
  SlashCommandLeaf, SlashCommand, leaf, group, descriptor, autocomplete_handler,
}
use gloam_macro_commands.Registry.{get}
use gloam_macro_commands.Resolve.{ResolvedCommand, resolve_command, focused_option_index}
use gloam_macro_commands.Dispatch.{
  is_chat_input, completes_option, Framework, PreparedCommand, PreparedAutocomplete,
  PreparedDispatch, command, ignored, autocomplete, prepare_command, prepare_autocomplete,
  prepare_resolved, prepare_found, prepare_interaction, prepare_event, prepare_dispatch,
}
use gloam_macro_commands.Dispatch.Routing.{created, prepared}

module _ {W : Type 0} where
  -- The interaction that a prepared command comes from.
  pub record Routed (f : Framework W) (event : GatewayEvent) (shard_id : Option ℕ)
      (response_state : ℕ) (p : PreparedCommand W) : Type 0 where
    pub interaction : Interaction
    pub command_data : CommandData
    pub found : SlashCommand W
    pub path : List String
    pub options : List InteractionOption
    pub d : CommandDescriptor
    pub l : SlashCommandLeaf W
    pub arrived : event ≡ created interaction
    pub kind : interaction.kind ≡ application_command
    pub carried : interaction.command_data ≡ ok (some command_data)
    pub chat : command_data.kind ≡ chat_input
    pub registered : get f.registry command_data.name ≡ some found
    pub resolved :
        resolve_command found command_data.options
        ≡ ok (record { command = leaf d l; path = path; options = options })
    pub same : p ≡ prepared f interaction command_data path options shard_id response_state d l

  command_sound :
      (f : Framework W) (i : Interaction) (command_data : CommandData) (r : ResolvedCommand W)
      (s : Option ℕ) (rs : ℕ) (p : PreparedCommand W)
      → prepare_command f i command_data r s rs ≡ ok (command p)
      → (d : CommandDescriptor) × (l : SlashCommandLeaf W) × (r.command ≡ leaf d l)
        × (p ≡ prepared f i command_data r.path r.options s rs d l)
  unfolding prepare_command
  command_sound f i command_data r s rs p e = by_node r.command refl
    where
      by_node :
          (c : SlashCommand W)
          → r.command ≡ c
          → (d : CommandDescriptor) × (l : SlashCommandLeaf W) × (r.command ≡ leaf d l)
            × (p ≡ prepared f i command_data r.path r.options s rs d l)
      by_node (leaf d l) n =
          let same : prepare_command f i command_data r s rs
              ≡ ok (command (prepared f i command_data r.path r.options s rs d l)) =
            rw n refl in
          (d, l, n, cc)
      by_node (group d cs) n = absurd (ground arith)

  never :
      {A : Type 0} {p : PreparedCommand W} (r : Result A) (k : A → Result (PreparedDispatch W))
      → ((a : A) → k a ≡ ok (command p) → ⊥)
      → (r >>= k) ≡ ok (command p)
      → ⊥
  never (ok a) k n e = n a e
  never (err x) k n e = cc

  autocomplete_only :
      (f : Framework W) (i : Interaction) (command_data : CommandData) (r : ResolvedCommand W)
      (s : Option ℕ) (p : PreparedCommand W)
      → prepare_autocomplete f i command_data r s ≡ ok (command p)
      → ⊥
  unfolding prepare_autocomplete
  autocomplete_only f i command_data r s p =
      never (focused_option_index r.options r.path) _ (λ index.
        never (or_fail (get_elem? r.options index) _) _ (λ focused.
          never (or_fail (find (completes_option focused) (descriptor r.command).options) _) _
            (λ o. never (or_fail (autocomplete_handler r.command o.name) _) _ (λ h. not_command))))
    where
      not_command :
          {q : PreparedAutocomplete W}
          → ◌≡◌ {A = Result (PreparedDispatch W)} (ok (autocomplete q)) (ok (command p))
          → ⊥
      not_command e = absurd (ground arith)

  autocompletes :
      (f : Framework W) (i : Interaction) (s : Option ℕ) (rs : ℕ) (p : PreparedCommand W)
      → i.kind ≡ application_command_autocomplete
      → prepare_interaction f i s rs ≡ ok (command p)
      → ⊥
  unfolding prepare_interaction prepare_found prepare_resolved
  autocompletes f i s rs p k = never i.command_data _ (λ payload.
      never (or_fail payload _) _ (λ command_data e.
        never_found (is_chat_input command_data.kind) (get f.registry command_data.name)
          command_data e))
    where
      never_resolved :
          (kind : InteractionType) (command_data : CommandData) (r : ResolvedCommand W)
          → kind ≡ application_command_autocomplete
          → prepare_resolved kind f i command_data r s rs ≡ ok (command p)
          → ⊥
      never_resolved application_command command_data r h e = cc
      never_resolved application_command_autocomplete command_data r h e =
          autocomplete_only f i command_data r s p e
      never_resolved (other_interaction n) command_data r h e = cc

      never_found :
          (chat : Bool) (found : Option (SlashCommand W)) (command_data : CommandData)
          → (if chat then prepare_found f i command_data found s rs else ok ignored)
            ≡ ok (command p)
          → ⊥
      never_found false found command_data e = absurd (ground arith)
      never_found true none command_data e = absurd (ground arith)
      never_found true (some c) command_data e =
          never (resolve_command c command_data.options) _
            (λ r e. never_resolved i.kind command_data r k e) e

  interaction_sound :
      (f : Framework W) (i : Interaction) (s : Option ℕ) (rs : ℕ) (p : PreparedCommand W)
      → i.kind ≡ application_command
      → prepare_interaction f i s rs ≡ ok (command p)
      → Routed f (created i) s rs p
  unfolding prepare_interaction
  interaction_sound f i s rs p k e = by_data i.command_data refl
    where
      by_resolved :
          (command_data : CommandData) (c : SlashCommand W)
          → i.command_data ≡ ok (some command_data)
          → command_data.kind ≡ chat_input
          → get f.registry command_data.name ≡ some c
          → Routed f (created i) s rs p
      by_resolved command_data c carried chat found =
          let route : (resolve_command c command_data.options >>= λ r.
          prepare_resolved i.kind f i command_data r s rs)
              ≡ ok (command p) =
            ground arith in
          let (r, resolved, prepares) =
            >>=-eq-ok (resolve_command c command_data.options)
              (λ r. prepare_resolved application_command f i command_data r s rs)
              (subst
                (λ kind.
                  (resolve_command c command_data.options >>= λ r.
                  prepare_resolved kind f i command_data r s rs)
                  ≡ ok (command p))
                k route) in
          let (d, l, node, same) =
            command_sound f i command_data r s rs p (unfold prepare_resolved in prepares) in
          record {
            interaction = i;
            command_data = command_data;
            found = c;
            path = r.path;
            options = r.options;
            d = d;
            l = l;
            arrived = refl;
            kind = k;
            carried = carried;
            chat = chat;
            registered = found;
            resolved =
                resolved
                ∙ ap (λ n. ok (record { command = n; path = r.path; options = r.options })) node;
            same = same;
          }

      by_found :
          (command_data : CommandData) (c : Option (SlashCommand W))
          → i.command_data ≡ ok (some command_data)
          → command_data.kind ≡ chat_input
          → get f.registry command_data.name ≡ c
          → Routed f (created i) s rs p
      by_found command_data none carried chat found = absurd (ground arith)
      by_found command_data (some c) carried chat found =
          by_resolved command_data c carried chat found

      by_chat :
          (command_data : CommandData) (t : CommandType)
          → i.command_data ≡ ok (some command_data)
          → command_data.kind ≡ t
          → Routed f (created i) s rs p
      by_chat command_data chat_input carried chat =
          by_found command_data (get f.registry command_data.name) carried chat refl
      by_chat command_data (other_command n) carried chat = absurd (ground arith)

      by_data : (r : Result (Option CommandData)) → i.command_data ≡ r → Routed f (created i) s rs p
      by_data (err x) h = absurd (ground arith)
      by_data (ok none) h = absurd (ground arith)
      by_data (ok (some command_data)) h = by_chat command_data command_data.kind h refl

  created_sound :
      (f : Framework W) (i : Interaction) (s : Option ℕ) (rs : ℕ) (p : PreparedCommand W)
      (kind : InteractionType)
      → i.kind ≡ kind
      → prepare_event f (interaction_create i) s rs ≡ ok (command p)
      → Routed f (created i) s rs p
  unfolding prepare_event
  created_sound f i s rs p application_command k e = interaction_sound f i s rs p k (ground arith)
  created_sound f i s rs p application_command_autocomplete k e =
      absurd (autocompletes f i s rs p k (ground arith))
  created_sound f i s rs p (other_interaction n) k e = absurd (ground arith)

  -- A command is prepared only for an interaction-create event with a chat-input command whose name
  -- is registered and whose options resolve to a leaf; what is prepared is that leaf.
  pub prepare_dispatch_sound :
      (f : Framework W) (event : GatewayEvent) (shard_id : Option ℕ) (response_state : ℕ)
      (p : PreparedCommand W)
      → prepare_dispatch f event shard_id response_state ≡ ok (command p)
      → Routed f event shard_id response_state p
  unfolding prepare_dispatch
  prepare_dispatch_sound f other_gateway_event s rs p e = cc
  prepare_dispatch_sound f (dispatch name (err x)) s rs p e = absurd (ground arith)
  prepare_dispatch_sound f (dispatch name (ok (ready id))) s rs p e = absurd (ground arith)
  prepare_dispatch_sound f (dispatch name (ok other_event)) s rs p e = absurd (ground arith)
  prepare_dispatch_sound f (dispatch name (ok (interaction_create i))) s rs p e =
      elim (Bool-cases (str_eq name "INTERACTION_CREATE")) [
        | inl same ↦
            let n = (eq_iff name "INTERACTION_CREATE").0 same in
            subst (λ n. Routed f (dispatch n (ok (interaction_create i))) s rs p) (sym n)
              (created_sound f i s rs p i.kind refl (ground arith))
        | inr other ↦ absurd (ground arith)
      ]
