-- ===== src/Response/Protocol.antt =====
-- Discord's rules for answering one interaction, as an automaton over the requests made, and that
-- each locked operation of crates/gloam-commands/src/response.rs follows them.
use gloam_macro_commands.Common.{
  ℕ, ◌≡◌, refl, sym, subst, ◌⊎◌, inl, inr, Bool-cases, Bool, true, false, Option, none, some, List,
  [], ◌∷◌, ◌++◌, arith, if◌then◌else◌,
}
use gloam_macro_commands.Error.{is_ok}
use gloam_macro_commands.Exec.{Exec}
use gloam_macro_commands.Discord.{
  Interaction, MessageData, MessageFlags, ephemeral_flag, message, deferred_message,
  autocomplete_result, Request, create_interaction_response, edit_original_response,
  delete_original_response, create_followup_message,
}
use gloam_macro_commands.Response.{
  ResponseState, pending, deferred, responded, deleted, MessagePayload, Cell, reply_inner,
  defer_inner, delete_response, edit_response_inner, send_followup, is_acknowledged,
  into_message_data, into_edit, same_visibility,
}

-- The interaction as Discord sees it, with who sees its original response.
pub data Server : Type 0 where
  unacknowledged : Server
  thinking : (ephemeral : Bool) → Server
  shown : (ephemeral : Bool) → Server
  removed : Server

-- An initial response is made once, to an interaction without one; the original response is edited
-- and deleted only while there is one; a followup needs an acknowledged interaction.
abbrev pub legal : Server → Request → Bool
legal unacknowledged (create_interaction_response i t r) = true
legal unacknowledged _ = false
legal removed (create_followup_message a t m) = true
legal removed _ = false
legal s (create_interaction_response i t r) = false
legal s _ = true

-- A message is for its user only if it carries the flag.
abbrev pub is_flagged : Option MessageFlags → Bool
is_flagged none = false
is_flagged (some ephemeral_flag) = true

abbrev is_ephemeral : Option MessageData → Bool
is_ephemeral none = false
is_ephemeral (some m) = is_flagged m.flags

-- The response is there from now on, with the visibility that it was announced with.
abbrev filled : Server → Server
filled (thinking e) = shown e
filled unacknowledged = unacknowledged
filled (shown e) = shown e
filled removed = removed

-- What a successful request makes of the interaction. A followup that is the first after a deferral
-- edits the deferred response, and its own flag is ignored.
abbrev pub effect : Server → Request → Server
effect s (create_interaction_response i t (message m)) = shown (is_flagged m.flags)
effect s (create_interaction_response i t (deferred_message m)) = thinking (is_ephemeral m)
effect s (create_interaction_response i t (autocomplete_result cs)) = s
effect s (edit_original_response a t e) = filled s
effect s (delete_original_response a t) = removed
effect s (create_followup_message a t m) = filled s

-- The state after a sequence of requests, if each was legal when it was made, whether or not it
-- succeeded.
unfoldable pub accept : Server → List (Request × Bool) → Option Server
accept s [] = some s
accept s ((q, success) ∷ rest) =
    let next = accept (if success then effect s q else s) rest in if legal s q then next else none

-- What the cell knows of it: a deferral that was not completed by a reply or an edit may have been
-- completed by a followup.
abbrev pub Matches : ResponseState → Server → Type 0
Matches pending s = s ≡ unacknowledged
Matches (deferred e) s = (s ≡ thinking e) ⊎ (s ≡ shown e)
Matches responded s = (e : Bool) × (s ≡ shown e)
Matches deleted s = s ≡ removed

pub accept-snoc :
    (s t : Server) (log : List (Request × Bool)) (q : Request) (success : Bool)
    → accept s log ≡ some t
    → legal t q ≡ true
    → accept s (log ++ (q, success) ∷ []) ≡ some (if success then effect t q else t)
unfolding accept
accept-snoc s t [] q success e l = ground arith
accept-snoc s t ((p, b) ∷ log) q success e l =
    ground (arith, accept-snoc (if b then effect s p else s) t log q success)

-- The requests made so far were legal, and this is what Discord has made of them.
abbrev pub Stands : {W : Type 0} → Cell W → Server → Type 0
Stands c s = (accept unacknowledged c.sent ≡ some s) × Matches c.state s

abbrev pub Agrees : {W : Type 0} → Cell W → Type 0
Agrees c = (s : Server) × Stands c s

pub data Locked : Type 0 where
  reply : MessagePayload → Bool → Locked
  defer : Bool → Locked
  edit : MessagePayload → Locked
  delete : Locked

module _ {W : Type 0} (rest : Request → Exec W ℕ) (i : Interaction) where
  -- The cell after an operation that holds the lock from its check to its end.
  abbrev pub run_locked : Locked → Cell W → Cell W
  run_locked (reply p e) c = (reply_inner rest i p e c).0
  run_locked (defer e) c = (defer_inner rest i e c).0
  run_locked (edit p) c = (edit_response_inner rest i p c).0
  run_locked delete c = (delete_response rest i c).0

  -- The cell after a request and its answer, with the state that is stored if it succeeds.
  abbrev pub sent : Request → ResponseState → Cell W → Cell W
  sent q state c = record c {
    state = if is_ok (rest q c.world).1 then state else c.state;
    world = (rest q c.world).0;
    sent = c.sent ++ (q, is_ok (rest q c.world).1) ∷ [];
  }

  -- Sending a legal request, and storing a state that matches what it makes of the interaction.
  send-Agrees :
      (q : Request) (c c' : Cell W) (s : Server) (state : ResponseState)
      → Stands c s
      → c' ≡ sent q state c
      → legal s q ≡ true
      → Matches state (effect s q)
      → Agrees c'
  send-Agrees q c c' s state (accepted, known) same l m =
      subst Agrees (sym same) (by_success (is_ok (rest q c.world).1))
    where
      by_success :
          (success : Bool)
          → Agrees {W = W} (record c {
            state = if success then state else c.state;
            world = (rest q c.world).0;
            sent = c.sent ++ (q, success) ∷ [];
          })
      by_success true = (effect s q, (accept-snoc unacknowledged s c.sent q true accepted l, m))
      by_success false = (s, (accept-snoc unacknowledged s c.sent q false accepted l, known))

  -- What the state of the cell tells of the interaction.
  pub known :
      (c : Cell W) (state : ResponseState) (s : Server)
      → c.state ≡ state
      → Stands c s
      → Matches state s
  known c state s h st = subst (λ x. Matches x s) h st.1

  reply-Agrees :
      (p : MessagePayload) (e : Bool) (c : Cell W) (state : ResponseState)
      → c.state ≡ state
      → Agrees c
      → Agrees (reply_inner rest i p e c).0
  unfolding reply_inner
  reply-Agrees p e c pending h (s, st) =
      let q = create_interaction_response i.id i.token (message (into_message_data p e)) in
      send-Agrees q c (reply_inner rest i p e c).0 unacknowledged responded
        (subst (Stands c) (known c pending s h st) st) (ground arith) refl (_, refl)
  reply-Agrees p e c (deferred d) h (s, st) = elim (Bool-cases (same_visibility e d)) [
    | inl same ↦
        let q = edit_original_response i.application_id i.token (into_edit p) in
        elim (known c (deferred d) s h st) [
          | inl waits ↦
              send-Agrees q c (reply_inner rest i p e c).0 (thinking d) responded
                (subst (Stands c) waits st) (ground arith) refl (d, refl)
          | inr done ↦
              send-Agrees q c (reply_inner rest i p e c).0 (shown d) responded
                (subst (Stands c) done st) (ground arith) refl (d, refl)
        ]
    | inr other ↦
        let stays : (reply_inner rest i p e c).0 ≡ c = ground arith in
        subst Agrees (sym stays) (s, st)
  ]
  reply-Agrees p e c responded h (s, st) =
      let q = create_followup_message i.application_id i.token (into_message_data p e) in
      let (d, done) = known c responded s h st in
      send-Agrees q c (reply_inner rest i p e c).0 (shown d) responded (subst (Stands c) done st)
        (ground arith) refl (d, refl)
  reply-Agrees p e c deleted h (s, st) =
      let q = create_followup_message i.application_id i.token (into_message_data p e) in
      send-Agrees q c (reply_inner rest i p e c).0 removed deleted
        (subst (Stands c) (known c deleted s h st) st) (ground arith) refl refl

  defer-Agrees :
      (e : Bool) (c : Cell W) (state : ResponseState)
      → c.state ≡ state
      → Agrees c
      → Agrees (defer_inner rest i e c).0
  unfolding defer_inner
  defer-Agrees true c pending h (s, st) =
      let flagged : MessageData = record {
        content = none;
        embeds = [];
        flags = some ephemeral_flag;
      } in
      let q = create_interaction_response i.id i.token (deferred_message (some flagged)) in
      send-Agrees q c (defer_inner rest i true c).0 unacknowledged (deferred true)
        (subst (Stands c) (known c pending s h st) st) (ground arith) refl (inl refl)
  defer-Agrees false c pending h (s, st) =
      let q = create_interaction_response i.id i.token (deferred_message none) in
      send-Agrees q c (defer_inner rest i false c).0 unacknowledged (deferred false)
        (subst (Stands c) (known c pending s h st) st) (ground arith) refl (inl refl)
  defer-Agrees e c (deferred d) h a =
      let stays : (defer_inner rest i e c).0 ≡ c = ground arith in subst Agrees (sym stays) a
  defer-Agrees e c responded h a =
      let stays : (defer_inner rest i e c).0 ≡ c = ground arith in subst Agrees (sym stays) a
  defer-Agrees e c deleted h a =
      let stays : (defer_inner rest i e c).0 ≡ c = ground arith in subst Agrees (sym stays) a

  edit-Agrees :
      (p : MessagePayload) (c : Cell W) (state : ResponseState)
      → c.state ≡ state
      → Agrees c
      → Agrees (edit_response_inner rest i p c).0
  unfolding edit_response_inner
  edit-Agrees p c pending h a =
      let stays : (edit_response_inner rest i p c).0 ≡ c = ground arith in
      subst Agrees (sym stays) a
  edit-Agrees p c (deferred d) h (s, st) =
      let q = edit_original_response i.application_id i.token (into_edit p) in
      elim (known c (deferred d) s h st) [
        | inl waits ↦
            send-Agrees q c (edit_response_inner rest i p c).0 (thinking d) responded
              (subst (Stands c) waits st) (ground arith) refl (d, refl)
        | inr done ↦
            send-Agrees q c (edit_response_inner rest i p c).0 (shown d) responded
              (subst (Stands c) done st) (ground arith) refl (d, refl)
      ]
  edit-Agrees p c responded h (s, st) =
      let q = edit_original_response i.application_id i.token (into_edit p) in
      let (d, done) = known c responded s h st in
      send-Agrees q c (edit_response_inner rest i p c).0 (shown d) responded
        (subst (Stands c) done st) (ground arith) refl (d, refl)
  edit-Agrees p c deleted h a =
      let stays : (edit_response_inner rest i p c).0 ≡ c = ground arith in
      subst Agrees (sym stays) a

  delete-Agrees :
      (c : Cell W) (state : ResponseState)
      → c.state ≡ state
      → Agrees c
      → Agrees (delete_response rest i c).0
  unfolding delete_response
  delete-Agrees c pending h a =
      let stays : (delete_response rest i c).0 ≡ c = ground arith in subst Agrees (sym stays) a
  delete-Agrees c (deferred d) h (s, st) =
      let q = delete_original_response i.application_id i.token in
      elim (known c (deferred d) s h st) [
        | inl waits ↦
            send-Agrees q c (delete_response rest i c).0 (thinking d) deleted
              (subst (Stands c) waits st) (ground arith) refl refl
        | inr done ↦
            send-Agrees q c (delete_response rest i c).0 (shown d) deleted
              (subst (Stands c) done st) (ground arith) refl refl
      ]
  delete-Agrees c responded h (s, st) =
      let q = delete_original_response i.application_id i.token in
      let (d, done) = known c responded s h st in
      send-Agrees q c (delete_response rest i c).0 (shown d) deleted (subst (Stands c) done st)
        (ground arith) refl refl
  delete-Agrees c deleted h a =
      let stays : (delete_response rest i c).0 ≡ c = ground arith in subst Agrees (sym stays) a

  -- Every operation that holds the lock makes only legal requests, whether or not they succeed, and
  -- leaves in the cell a state that matches what Discord makes of them.
  pub run_locked-Agrees : (op : Locked) (c : Cell W) → Agrees c → Agrees (run_locked op c)
  run_locked-Agrees (reply p e) c a = reply-Agrees p e c c.state refl a
  run_locked-Agrees (defer e) c a = defer-Agrees e c c.state refl a
  run_locked-Agrees (edit p) c a = edit-Agrees p c c.state refl a
  run_locked-Agrees delete c a = delete-Agrees c c.state refl a

  -- A followup that is sent after the interaction was acknowledged.
  pub send_followup-Agrees :
      (p : MessagePayload) (e : Bool) (c : Cell W)
      → is_acknowledged c.state ≡ true
      → Agrees c
      → Agrees (send_followup rest i p e c).0
  unfolding send_followup is_acknowledged
  send_followup-Agrees p e c k (s, st) = sent_in c.state refl
    where
      q : Request
      q = create_followup_message i.application_id i.token (into_message_data p e)

      sent_in : (state : ResponseState) → c.state ≡ state → Agrees (send_followup rest i p e c).0
      sent_in pending h = absurd (ground arith)
      sent_in (deferred d) h = elim (known c (deferred d) s h st) [
        | inl waits ↦
            send-Agrees q c (send_followup rest i p e c).0 (thinking d) (deferred d)
              (subst (Stands c) waits st) (ground arith) refl (inr refl)
        | inr done ↦
            send-Agrees q c (send_followup rest i p e c).0 (shown d) (deferred d)
              (subst (Stands c) done st) (ground arith) refl (inr refl)
      ]
      sent_in responded h =
          let (d, done) = known c responded s h st in
          send-Agrees q c (send_followup rest i p e c).0 (shown d) responded
            (subst (Stands c) done st) (ground arith) refl (d, refl)
      sent_in deleted h =
          send-Agrees q c (send_followup rest i p e c).0 removed deleted
            (subst (Stands c) (known c deleted s h st) st) (ground arith) refl refl
