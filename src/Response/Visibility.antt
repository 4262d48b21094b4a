-- ===== src/Response/Visibility.antt =====
-- crates/gloam-commands/src/response.rs, replies and followups: who sees what is sent.
use gloam_macro_commands.Common.{
  ℕ, ◌≡◌, refl, sym, subst, ◌⊎◌, inl, inr, arith, Bool, true, false, not, none, some, [], ◌∷◌, ◌++◌,
}
use gloam_macro_commands.Error.{err, is_ok, response_visibility_mismatch}
use gloam_macro_commands.Exec.{Exec}
use gloam_macro_commands.Discord.{
  Interaction, MessageData, EditMessage, message, Request, create_interaction_response,
  edit_original_response, create_followup_message, delete_original_response,
}
use gloam_macro_commands.Response.{
  ResponseState, pending, deferred, responded, deleted, MessagePayload, content, embeds,
  into_message_data, into_edit, Cell, reply_inner,
}
use gloam_macro_commands.Response.Protocol.{
  Server, unacknowledged, thinking, shown, removed, is_flagged, Stands, known,
}

-- A new message that holds the payload, flagged for its user only or not.
abbrev pub Holds : MessagePayload → Bool → MessageData → Type 0
Holds (content text) e m = (m.content ≡ some text) × (m.embeds ≡ []) × (is_flagged m.flags ≡ e)
Holds (embeds es) e m = (m.content ≡ none) × (m.embeds ≡ es) × (is_flagged m.flags ≡ e)

abbrev pub Replaces : MessagePayload → EditMessage → Type 0
Replaces (content text) m = (m.content ≡ some (some text)) × (m.embeds ≡ none)
Replaces (embeds es) m = (m.content ≡ none) × (m.embeds ≡ some (some es))

-- The request carries the payload: in a new message with that flag, or to the original response.
abbrev pub Carries : MessagePayload → Bool → Request → Type 0
Carries p e (create_interaction_response i t (message m)) = Holds p e m
Carries p e (create_followup_message a t m) = Holds p e m
Carries p e (edit_original_response a t m) = Replaces p m
Carries p e _ = ⊥

-- Whether Discord shows what the request carries to its user only: by the flag of a new message, but
-- for the original response and for the followup that fills a deferred one by what was announced.
abbrev pub audience : Server → Request → Bool
audience s (create_interaction_response i t (message m)) = is_flagged m.flags
audience s (create_interaction_response i t _) = false
audience (thinking d) (create_followup_message a t m) = d
audience unacknowledged (create_followup_message a t m) = is_flagged m.flags
audience (shown d) (create_followup_message a t m) = is_flagged m.flags
audience removed (create_followup_message a t m) = is_flagged m.flags
audience (thinking d) (edit_original_response a t m) = d
audience (shown d) (edit_original_response a t m) = d
audience unacknowledged (edit_original_response a t m) = false
audience removed (edit_original_response a t m) = false
audience s (delete_original_response a t) = false

-- One request was made, which carries the payload, and Discord shows it to its user only or to all.
pub record Sends {W : Type 0} (p : MessagePayload) (e : Bool) (s : Server) (seen : Bool)
    (c c' : Cell W) : Type 0 where
  pub request : Request
  pub success : Bool
  pub made : c'.sent ≡ c.sent ++ (request, success) ∷ []
  pub carries : Carries p e request
  pub seen_by : audience s request ≡ seen

-- Who sees a followup: the first one after a deferral whoever that announced.
abbrev pub followup_audience : Server → Bool → Bool
followup_audience (thinking d) e = d
followup_audience unacknowledged e = e
followup_audience (shown d) e = e
followup_audience removed e = e

message-Holds : (p : MessagePayload) (e : Bool) → Holds p e (into_message_data p e)
unfolding into_message_data
message-Holds (content text) true = (refl, refl, refl)
message-Holds (content text) false = (refl, refl, refl)
message-Holds (embeds es) true = (refl, refl, refl)
message-Holds (embeds es) false = (refl, refl, refl)

message-flagged : (p : MessagePayload) (e : Bool) → is_flagged (into_message_data p e).flags ≡ e
unfolding into_message_data
message-flagged (content text) true = refl
message-flagged (content text) false = refl
message-flagged (embeds es) true = refl
message-flagged (embeds es) false = refl

edit-Replaces : (p : MessagePayload) → Replaces p (into_edit p)
unfolding into_edit
edit-Replaces (content text) = (refl, refl)
edit-Replaces (embeds es) = (refl, refl)

module _ {W : Type 0} (rest : Request → Exec W ℕ) (i : Interaction) where
  -- What a sent request leaves, where Discord stands at `x`.
  sent_by :
      (p : MessagePayload) (e seen : Bool) (q : Request) (s x : Server) (c c' : Cell W)
      → c'.sent ≡ c.sent ++ (q, is_ok (rest q c.world).1) ∷ []
      → Carries p e q
      → s ≡ x
      → audience x q ≡ seen
      → Sends p e s seen c c'
  sent_by p e seen q s x c c' m carried at a = record {
    request = q;
    success = is_ok (rest q c.world).1;
    made = m;
    carries = carried;
    seen_by = subst (λ y. audience y q ≡ seen) (sym at) a;
  }

  -- What a reply is allowed to leave.
  abbrev pub Replies : MessagePayload → Bool → Cell W → Server → Type 0
  Replies p e c s =
      Sends p e s e c (reply_inner rest i p e c).0
      ⊎ ((c.state ≡ deferred (not e))
          × (reply_inner rest i p e c ≡ (c, err response_visibility_mismatch)))

  completes-Replies :
      (p : MessagePayload) (e : Bool) (c : Cell W) (s : Server)
      → c.state ≡ deferred e
      → Stands c s
      → Replies p e c s
  unfolding reply_inner
  completes-Replies p true c s h st =
      let q = edit_original_response i.application_id i.token (into_edit p) in
      elim (known rest i c (deferred true) s h st) [
        | inl waits ↦
            inl (sent_by p true true q s _ c _ (ground arith) (edit-Replaces p) waits refl)
        | inr done ↦ inl (sent_by p true true q s _ c _ (ground arith) (edit-Replaces p) done refl)
      ]
  completes-Replies p false c s h st =
      let q = edit_original_response i.application_id i.token (into_edit p) in
      elim (known rest i c (deferred false) s h st) [
        | inl waits ↦
            inl (sent_by p false false q s _ c _ (ground arith) (edit-Replaces p) waits refl)
        | inr done ↦
            inl (sent_by p false false q s _ c _ (ground arith) (edit-Replaces p) done refl)
      ]

  -- In agreement with Discord, a reply either makes one request, whose payload Discord shows with
  -- the visibility asked for, or is refused without a request because the interaction was deferred
  -- with the other visibility.
  pub reply_inner-Sends :
      (p : MessagePayload) (e : Bool) (c : Cell W) (s : Server)
      → Stands c s
      → Sends p e s e c (reply_inner rest i p e c).0
        ⊎ ((c.state ≡ deferred (not e))
            × (reply_inner rest i p e c ≡ (c, err response_visibility_mismatch)))
  unfolding reply_inner
  reply_inner-Sends p e c s st = in_state c.state refl
    where
      deferred_as : (d : Bool) (e : Bool) → c.state ≡ deferred d → Replies p e c s
      deferred_as true true h = completes-Replies p true c s h st
      deferred_as false false h = completes-Replies p false c s h st
      deferred_as true false h = inr (h, ground arith)
      deferred_as false true h = inr (h, ground arith)

      followup : Request
      followup = create_followup_message i.application_id i.token (into_message_data p e)

      in_state : (state : ResponseState) → c.state ≡ state → Replies p e c s
      in_state pending h =
          let q = create_interaction_response i.id i.token (message (into_message_data p e)) in
          inl (
            sent_by p e e q s unacknowledged c _ (ground arith) (message-Holds p e)
              (known rest i c pending s h st) (message-flagged p e))
      in_state (deferred d) h = deferred_as d e h
      in_state responded h =
          let (d, done) = known rest i c responded s h st in
          inl (
            sent_by p e e followup s (shown d) c _ (ground arith) (message-Holds p e) done
              (message-flagged p e))
      in_state deleted h = inl (
          sent_by p e e followup s removed c _ (ground arith) (message-Holds p e)
            (known rest i c deleted s h st) (message-flagged p e))
