-- ===== src/Response/Methods.antt =====
-- crates/gloam-commands/src/response.rs: the public methods of a context that answer the interaction.
use gloam_macro_commands.Common.{ℕ, String, true, false, List, [], ◌∷◌}
use gloam_macro_commands.Exec.{Exec}
use gloam_macro_commands.Discord.{Interaction, Request}
use gloam_macro_commands.Response.{
  content, embeds, Cell, reply_inner, defer_inner, edit_response_inner, followup_inner,
}

module _ {W : Type 0} (rest : Request → Exec W ℕ) (i : Interaction) where
  unfoldable pub reply : String → Exec (Cell W) (Unit {0})
  unfolding reply_inner
  reply text = reply_inner rest i (content text) false

  unfoldable pub reply_embeds : List ℕ → Exec (Cell W) (Unit {0})
  unfolding reply_inner
  reply_embeds es = reply_inner rest i (embeds es) false

  unfoldable pub reply_embed : ℕ → Exec (Cell W) (Unit {0})
  unfolding reply_embeds
  reply_embed e = reply_embeds (e ∷ [])

  unfoldable pub reply_ephemeral : String → Exec (Cell W) (Unit {0})
  unfolding reply_inner
  reply_ephemeral text = reply_inner rest i (content text) true

  unfoldable pub reply_ephemeral_embeds : List ℕ → Exec (Cell W) (Unit {0})
  unfolding reply_inner
  reply_ephemeral_embeds es = reply_inner rest i (embeds es) true

  unfoldable pub reply_ephemeral_embed : ℕ → Exec (Cell W) (Unit {0})
  unfolding reply_ephemeral_embeds
  reply_ephemeral_embed e = reply_ephemeral_embeds (e ∷ [])

  unfoldable pub defer : Exec (Cell W) (Unit {0})
  unfolding defer_inner
  defer = defer_inner rest i false

  unfoldable pub defer_ephemeral : Exec (Cell W) (Unit {0})
  unfolding defer_inner
  defer_ephemeral = defer_inner rest i true

  unfoldable pub edit_response : String → Exec (Cell W) ℕ
  unfolding edit_response_inner
  edit_response text = edit_response_inner rest i (content text)

  unfoldable pub edit_response_embeds : List ℕ → Exec (Cell W) ℕ
  unfolding edit_response_inner
  edit_response_embeds es = edit_response_inner rest i (embeds es)

  unfoldable pub edit_response_embed : ℕ → Exec (Cell W) ℕ
  unfolding edit_response_embeds
  edit_response_embed e = edit_response_embeds (e ∷ [])

  unfoldable pub followup : String → Exec (Cell W) ℕ
  unfolding followup_inner
  followup text = followup_inner rest i (content text) false

  unfoldable pub followup_embeds : List ℕ → Exec (Cell W) ℕ
  unfolding followup_inner
  followup_embeds es = followup_inner rest i (embeds es) false

  unfoldable pub followup_embed : ℕ → Exec (Cell W) ℕ
  unfolding followup_embeds
  followup_embed e = followup_embeds (e ∷ [])

  unfoldable pub followup_ephemeral : String → Exec (Cell W) ℕ
  unfolding followup_inner
  followup_ephemeral text = followup_inner rest i (content text) true

  unfoldable pub followup_ephemeral_embeds : List ℕ → Exec (Cell W) ℕ
  unfolding followup_inner
  followup_ephemeral_embeds es = followup_inner rest i (embeds es) true

  unfoldable pub followup_ephemeral_embed : ℕ → Exec (Cell W) ℕ
  unfolding followup_ephemeral_embeds
  followup_ephemeral_embed e = followup_ephemeral_embeds (e ∷ [])
