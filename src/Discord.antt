-- ===== src/Discord.antt =====
-- The parts of Gloamwire's payload types that the framework reads or builds, as plain data: the
-- fields that the sources name. What a decoder of Gloamwire answers (`dispatch.typed()` and
-- `interaction.application_command_data()`) is a field of the event or interaction, so that every
-- answer is possible. Ids, permission sets and instants are numbers.
use gloam_macro_commands.Common.{
  ℕ, String, Bool, true, ◌≡◌, refl, ◌↔◌, Option, List, [], ◌∷◌, decided, decided_iff,
}
use gloam_macro_commands.Common.Integer.{ℤ}
use gloam_macro_commands.Common.Binary64.{F64}
use gloam_macro_commands.Error.{Result}
use native.Mathlib.Decide.{ℕ_discrete}

-- ApplicationCommandOptionType: the constants that the sources use, and any other.
pub data OptionType : Type 0 where
  sub_command sub_command_group string integer number boolean user channel role attachment :
      OptionType
  other_type : ℕ → OptionType

OptionType-discrete : Discrete OptionType
OptionType-discrete = hlevel ℕ_discrete

-- `==` of two option types.
unfoldable pub same_type : OptionType → OptionType → Bool
unfolding OptionType-discrete
same_type a b = decided (OptionType-discrete a b)

pub same_type_iff : (a b : OptionType) → (same_type a b ≡ true) ↔ (a ≡ b)
unfolding same_type
same_type_iff a b = decided_iff (OptionType-discrete a b)

-- ApplicationCommandInteractionValue.
pub data InteractionValue : Type 0 where
  string_value : String → InteractionValue
  integer_value : ℤ → InteractionValue
  number_value : F64 → InteractionValue
  boolean_value : Bool → InteractionValue

-- ApplicationCommandInteractionDataOption, with the list type of its `options`.
mutual
  pub data InteractionOption : Type 0 where
    submit :
        (name : String) (kind : OptionType) (value : Option InteractionValue)
        (options : InteractionOptions) (focused : Option Bool)
        → InteractionOption

  pub data InteractionOptions : Type 0 where
    nil : InteractionOptions
    cons : InteractionOption → InteractionOptions → InteractionOptions

abbrev pub option_name : InteractionOption → String
option_name (submit name kind value options focused) = name

abbrev pub option_kind : InteractionOption → OptionType
option_kind (submit name kind value options focused) = kind

abbrev pub option_value : InteractionOption → Option InteractionValue
option_value (submit name kind value options focused) = value

abbrev pub option_focused : InteractionOption → Option Bool
option_focused (submit name kind value options focused) = focused

abbrev pub options_list : InteractionOptions → List InteractionOption
options_list nil = []
options_list (cons o os) = o ∷ options_list os

abbrev pub options_of : List InteractionOption → InteractionOptions
options_of [] = nil
options_of (o ∷ os) = cons o (options_of os)

abbrev pub nested_options : InteractionOption → List InteractionOption
nested_options (submit name kind value options focused) = options_list options

pub options_list-options_of : (os : List InteractionOption) → options_list (options_of os) ≡ os
options_list-options_of [] = refl
options_list-options_of (o ∷ os) = rw (options_list-options_of os)

-- InteractionContextType.
pub data ContextType : Type 0 where
  guild bot_dm private_channel : ContextType
  other_context : ℕ → ContextType

ContextType-discrete : Discrete ContextType
ContextType-discrete = hlevel ℕ_discrete

unfoldable pub same_context : ContextType → ContextType → Bool
unfolding ContextType-discrete
same_context a b = decided (ContextType-discrete a b)

pub same_context_iff : (a b : ContextType) → (same_context a b ≡ true) ↔ (a ≡ b)
unfolding same_context
same_context_iff a b = decided_iff (ContextType-discrete a b)

-- ApplicationCommandType and InteractionType.
pub data CommandType : Type 0 where
  chat_input : CommandType
  other_command : ℕ → CommandType

pub data InteractionType : Type 0 where
  application_command application_command_autocomplete : InteractionType
  other_interaction : ℕ → InteractionType

-- ApplicationCommandInteractionData.
pub record CommandData : Type 0 where
  pub name : String
  pub kind : CommandType
  pub options : List InteractionOption

pub record Member : Type 0 where
  pub permissions : Option ℕ
  pub user : Option ℕ

pub record Interaction : Type 0 where
  pub id : ℕ
  pub application_id : ℕ
  pub token : String
  pub kind : InteractionType
  pub context : Option ContextType
  pub member : Option Member
  pub user : Option ℕ
  pub app_permissions : Option ℕ
  pub command_data : Result (Option CommandData)

-- TypedDispatchEvent, GatewayEvent and ShardEvent.
pub data TypedEvent : Type 0 where
  interaction_create : Interaction → TypedEvent
  ready : (application_id : ℕ) → TypedEvent
  other_event : TypedEvent

pub data GatewayEvent : Type 0 where
  dispatch : (name : String) (typed : Result TypedEvent) → GatewayEvent
  other_gateway_event : GatewayEvent

-- ApplicationCommandChoiceValue and ApplicationCommandOptionChoice; the framework sets no
-- localizations.
pub data ChoiceValue : Type 0 where
  string_choice : String → ChoiceValue
  integer_choice : ℤ → ChoiceValue
  number_choice : F64 → ChoiceValue

pub record OptionChoice : Type 0 where
  pub name : String
  pub value : ChoiceValue

-- InteractionMessageData and EditWebhookMessage; an embed is a number that stands for it. The flags
-- are `none` or the single flag EPHEMERAL.
pub data MessageFlags : Type 0 where
  ephemeral_flag : MessageFlags

pub record MessageData : Type 0 where
  pub content : Option String
  pub embeds : List ℕ
  pub flags : Option MessageFlags

pub record EditMessage : Type 0 where
  pub content : Option (Option String)
  pub embeds : Option (Option (List ℕ))

-- InteractionResponse: a message, a deferred message, an autocomplete result.
pub data InteractionResponse : Type 0 where
  message : MessageData → InteractionResponse
  deferred_message : Option MessageData → InteractionResponse
  autocomplete_result : List OptionChoice → InteractionResponse

-- The calls of the REST client that the framework makes for an interaction.
pub data Request : Type 0 where
  create_interaction_response : (id : ℕ) (token : String) → InteractionResponse → Request
  edit_original_response : (application_id : ℕ) (token : String) → EditMessage → Request
  delete_original_response : (application_id : ℕ) (token : String) → Request
  create_followup_message : (application_id : ℕ) (token : String) → MessageData → Request
