-- ===== src/Response.antt =====
-- crates/gloam-commands/src/response.rs: acknowledging an interaction and answering it. The state
-- is behind a mutex that replies, deferrals, edits and deletions hold across their request.
pub mod Protocol
pub mod Interleaving
pub mod Methods
pub mod Visibility
use gloam_macro_commands.Common.{
  ℕ, String, Bool, true, false, not, Option, none, some, List, [], ◌∷◌, ◌++◌, if◌then◌else◌,
}
use gloam_macro_commands.Error.{
  Error, Result, ok, err, is_ok, guard, response_visibility_mismatch, interaction_not_acknowledged,
  original_response_deleted, interaction_already_acknowledged,
}
use gloam_macro_commands.Exec.{Exec, pure, lift, after, ◌>>=◌, ◌>>◌}
use gloam_macro_commands.Discord.{
  Interaction, MessageData, MessageFlags, ephemeral_flag, EditMessage, message, deferred_message,
  Request, create_interaction_response, edit_original_response, delete_original_response,
  create_followup_message,
}

pub data ResponseState : Type 0 where
  pending : ResponseState
  deferred : (ephemeral : Bool) → ResponseState
  responded : ResponseState
  deleted : ResponseState

pub data ReplyAction : Type 0 where
  initial : (ephemeral : Bool) → ReplyAction
  complete_deferred : ReplyAction
  followup_action : (ephemeral : Bool) → ReplyAction

pub data MessagePayload : Type 0 where
  content : String → MessagePayload
  embeds : List ℕ → MessagePayload

abbrev pub flags_of : Bool → Option MessageFlags
flags_of true = some ephemeral_flag
flags_of false = none

unfoldable pub into_message_data : MessagePayload → Bool → MessageData
into_message_data (content text) ephemeral = record {
  content = some text;
  embeds = [];
  flags = flags_of ephemeral;
}
into_message_data (embeds es) ephemeral = record {
  content = none;
  embeds = es;
  flags = flags_of ephemeral;
}

unfoldable pub into_edit : MessagePayload → EditMessage
into_edit (content text) = record { content = some (some text); embeds = none }
into_edit (embeds es) = record { content = none; embeds = some (some es) }

-- `ephemeral != deferred_ephemeral`.
abbrev pub same_visibility : Bool → Bool → Bool
same_visibility true b = b
same_visibility false b = not b

unfoldable pub reply_action : ResponseState → Bool → Result ReplyAction
reply_action pending ephemeral = ok (initial ephemeral)
reply_action (deferred deferred_ephemeral) ephemeral =
    if same_visibility ephemeral deferred_ephemeral
    then ok complete_deferred
    else err response_visibility_mismatch
reply_action responded ephemeral = ok (followup_action ephemeral)
reply_action deleted ephemeral = ok (followup_action ephemeral)

unfoldable pub is_acknowledged : ResponseState → Bool
is_acknowledged pending = false
is_acknowledged _ = true

abbrev is_pending : ResponseState → Bool
is_pending pending = true
is_pending _ = false

-- The guard of edits and deletions.
unfoldable pub original_available : ResponseState → Result (Unit {0})
original_available pending = err interaction_not_acknowledged
original_available deleted = err original_response_deleted
original_available _ = ok tt

-- `if matches!(*state, Deferred) { *state = Responded }`.
abbrev pub completed : ResponseState → ResponseState
completed (deferred e) = responded
completed s = s

-- A followup looks at the state and releases the lock before its request.
unfoldable pub check_followup : ResponseState → Result (Unit {0})
unfolding is_acknowledged
check_followup state = guard (is_acknowledged state) interaction_not_acknowledged

-- The shared cell, the world in which requests are made, and (for the theorems only) the requests
-- made so far, each with whether it succeeded.
pub record Cell (W : Type 0) : Type 0 where
  pub state : ResponseState
  pub world : W
  pub sent : List (Request × Bool)

-- `rest` is the REST client: it answers a request with a message or an error.
module _ {W : Type 0} (rest : Request → Exec W ℕ) (i : Interaction) where
  abbrev pub send : Request → Exec (Cell W) ℕ
  send q c =
      let (w, r) = rest q c.world in (record c { world = w; sent = c.sent ++ (q, is_ok r) ∷ [] }, r)

  abbrev pub become : ResponseState → Exec (Cell W) (Unit {0})
  become state c = (record c { state = state }, ok tt)

  perform : ReplyAction → MessagePayload → Exec (Cell W) (Unit {0})
  unfolding into_message_data into_edit
  perform (initial ephemeral) payload =
      send
        (create_interaction_response i.id i.token (message (into_message_data payload ephemeral)))
      >>= λ _. become responded
  perform complete_deferred payload =
      send (edit_original_response i.application_id i.token (into_edit payload)) >>= λ _.
      become responded
  perform (followup_action ephemeral) payload =
      send (create_followup_message i.application_id i.token (into_message_data payload ephemeral))
      >>= λ _. pure tt

  unfoldable pub reply_inner : MessagePayload → Bool → Exec (Cell W) (Unit {0})
  unfolding perform reply_action
  reply_inner payload ephemeral c =
      after {S = Cell W} (c, reply_action c.state ephemeral) (λ action. perform action payload)

  unfoldable pub defer_inner : Bool → Exec (Cell W) (Unit {0})
  defer_inner ephemeral c =
      (do
        lift (guard (is_pending c.state) interaction_already_acknowledged)
        send (
              create_interaction_response i.id i.token (
                deferred_message (
                  if ephemeral
                  then some (record { content = none; embeds = []; flags = some ephemeral_flag })
                  else none)))
            >>= λ _. become (deferred ephemeral))
        c

  unfoldable pub delete_response : Exec (Cell W) (Unit {0})
  unfolding original_available
  delete_response c =
      (do
        lift (original_available c.state)
        send (delete_original_response i.application_id i.token) >>= λ _. become deleted)
        c

  unfoldable pub edit_response_inner : MessagePayload → Exec (Cell W) ℕ
  unfolding original_available into_edit
  edit_response_inner payload c =
      (lift (original_available c.state) >> (do
        m ← send (edit_original_response i.application_id i.token (into_edit payload))
        become (completed c.state)
        pure m))
        c

  unfoldable pub send_followup : MessagePayload → Bool → Exec (Cell W) ℕ
  unfolding into_message_data
  send_followup payload ephemeral =
      send (create_followup_message i.application_id i.token (into_message_data payload ephemeral))

  unfoldable pub followup_inner : MessagePayload → Bool → Exec (Cell W) ℕ
  unfolding check_followup send_followup
  followup_inner payload ephemeral c =
      (lift (check_followup c.state) >> send_followup payload ephemeral) c
