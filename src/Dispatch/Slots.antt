-- ===== src/Dispatch/Slots.antt =====
-- crates/gloam-commands/src/framework.rs, `prepare_dispatch`: whatever is prepared takes its slot from
-- the framework's semaphore.
use gloam_macro_commands.Common.{
  ℕ, ◌≡◌, refl, subst, Bool, true, false, Option, none, some, find, get_elem?, str_eq,
  if◌then◌else◌,
}
use gloam_macro_commands.Error.{Result, ok, err, ◌>>=◌, or_fail}
use gloam_macro_commands.Discord.{
  InteractionType, application_command, application_command_autocomplete, other_interaction,
  CommandData, Interaction, TypedEvent, interaction_create, ready, other_event, GatewayEvent,
  dispatch, other_gateway_event,
}
use gloam_macro_commands.Command.{SlashCommand, descriptor, handler, policy, autocomplete_handler}
use gloam_macro_commands.Registry.{get}
use gloam_macro_commands.Resolve.{ResolvedCommand, resolve_command, focused_option_index}
use gloam_macro_commands.Dispatch.{
  Framework, PreparedDispatch, ignored, command, autocomplete, completes_option, is_chat_input,
  is_command_interaction, prepare_autocomplete, prepare_command, prepare_resolved, prepare_found,
  prepare_interaction, prepare_event, prepare_dispatch,
}

-- A dispatch prepared by a framework whose semaphore is at `command_slots`.
abbrev pub Uses : {W : Type 0} → ℕ → PreparedDispatch W → Type 0
Uses command_slots (command p) = p.command_slots ≡ command_slots
Uses command_slots (autocomplete p) = p.command_slots ≡ command_slots
Uses command_slots _ = Unit

-- What is prepared, if anything is, uses the framework's semaphore.
abbrev Prepares : {W : Type 0} → Framework W → Result (PreparedDispatch W) → Type 0
Prepares f (ok p) = Uses f.command_slots p
Prepares f (err e) = Unit

module _ {W : Type 0} (f : Framework W) where
  after-Prepares :
      {A : Type 0} (r : Result A) (k : A → Result (PreparedDispatch W))
      → ((a : A) → Prepares f (k a))
      → Prepares f (r >>= k)
  after-Prepares (ok a) k h = h a
  after-Prepares (err e) k h = tt

  autocomplete-Prepares :
      (i : Interaction) (command_data : CommandData) (r : ResolvedCommand W) (s : Option ℕ)
      → Prepares f (prepare_autocomplete f i command_data r s)
  unfolding prepare_autocomplete
  autocomplete-Prepares i command_data r s =
      after-Prepares (focused_option_index r.options r.path) _ (λ index.
        after-Prepares (or_fail (get_elem? r.options index) _) _ (λ focused.
          after-Prepares
            (or_fail (find (completes_option focused) (descriptor r.command).options) _) _
            (λ o.
              after-Prepares (or_fail (autocomplete_handler r.command o.name) _) _ (λ h. refl))))

  command-Prepares :
      (i : Interaction) (command_data : CommandData) (r : ResolvedCommand W) (s : Option ℕ) (rs : ℕ)
      → Prepares f (prepare_command f i command_data r s rs)
  unfolding prepare_command
  command-Prepares i command_data r s rs =
      after-Prepares (or_fail (handler r.command) _) _
        (λ h. after-Prepares (or_fail (policy r.command) _) _ (λ p. refl))

  found-Prepares :
      (i : Interaction) (command_data : CommandData) (c : Option (SlashCommand W)) (s : Option ℕ)
      (rs : ℕ)
      → Prepares f (prepare_found f i command_data c s rs)
  unfolding prepare_found prepare_resolved
  found-Prepares i command_data none s rs = tt
  found-Prepares i command_data (some c) s rs =
      after-Prepares (resolve_command c command_data.options) _ (λ r. by_kind i.kind r)
    where
      by_kind :
          (kind : InteractionType) (r : ResolvedCommand W)
          → Prepares f (prepare_resolved kind f i command_data r s rs)
      by_kind application_command r = command-Prepares i command_data r s rs
      by_kind application_command_autocomplete r = autocomplete-Prepares i command_data r s
      by_kind (other_interaction n) r = command-Prepares i command_data r s rs

  if-Prepares :
      (b : Bool) (r : Result (PreparedDispatch W))
      → Prepares f r
      → Prepares f (if b then r else ok ignored)
  if-Prepares true r h = h
  if-Prepares false r h = tt

  event-Prepares :
      (event : TypedEvent) (s : Option ℕ) (rs : ℕ) → Prepares f (prepare_event f event s rs)
  unfolding prepare_event prepare_interaction
  event-Prepares (interaction_create i) s rs = if-Prepares (is_command_interaction i.kind) _ (
      after-Prepares i.command_data _ (λ payload.
        after-Prepares (or_fail payload _) _ (λ command_data.
          if-Prepares (is_chat_input command_data.kind) _
            (found-Prepares i command_data (get f.registry command_data.name) s rs))))
  event-Prepares (ready id) s rs = tt
  event-Prepares other_event s rs = tt

  pub prepare_dispatch-Uses :
      (event : GatewayEvent) (s : Option ℕ) (rs : ℕ) (p : PreparedDispatch W)
      → prepare_dispatch f event s rs ≡ ok p
      → Uses f.command_slots p
  prepare_dispatch-Uses event s rs p e = subst (Prepares f) e (any_event event)
    where
      any_event : (event : GatewayEvent) → Prepares f (prepare_dispatch f event s rs)
      any_event other_gateway_event = unfold prepare_dispatch in tt
      any_event (dispatch name typed) =
          unfold prepare_dispatch in
          if-Prepares (str_eq name "INTERACTION_CREATE") _
            (after-Prepares typed _ (λ event. event-Prepares event s rs))
