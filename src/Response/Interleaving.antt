-- ===== src/Response/Interleaving.antt =====
-- crates/gloam-commands/src/response.rs with cloned contexts in concurrent tasks: operations that
-- hold the lock are single steps, and a followup's request is a step of its own after its check.
use gloam_macro_commands.Common.{ℕ, ◌≡◌, refl, ◌⊎◌, Bool, true, List, [], ◌∷◌, Memᴰ}
use gloam_macro_commands.Error.{ok}
use gloam_macro_commands.Exec.{Exec}
use gloam_macro_commands.Discord.{Interaction, Request}
use gloam_macro_commands.Response.{
  pending, MessagePayload, Cell, check_followup, send_followup, is_acknowledged,
}
use gloam_macro_commands.Response.Protocol.{Agrees, Locked, run_locked}

-- The tasks that share one interaction: the cell, and the followups that have passed their check.
pub record Tasks (W : Type 0) : Type 0 where
  pub cell : Cell W
  pub checked : List (MessagePayload × Bool)

module _ {W : Type 0} (rest : Request → Exec W ℕ) (i : Interaction) where
  pub data Step : Tasks W → Tasks W → Type 0 where
    locked : (t : Tasks W) (op : Locked) → Step t (record t { cell = run_locked rest i op t.cell })
    check :
        (t : Tasks W) (p : MessagePayload) (e : Bool)
        → check_followup t.cell.state ≡ ok tt
        → Step t (record t { checked = (p, e) ∷ t.checked })
    transmit :
        (t : Tasks W) (p : MessagePayload) (e : Bool)
        → Memᴰ (p, e) t.checked
        → Step t (record t { cell = (send_followup rest i p e t.cell).0 })

  pub data Reach (s : Tasks W) : Tasks W → Type 0 where
    here : Reach s s
    next : {t u : Tasks W} → Reach s t → Step t u → Reach s u

  -- A new context: nothing was sent.
  abbrev pub IsNew : Tasks W → Type 0
  IsNew t = (t.cell.state ≡ pending) × (t.cell.sent ≡ []) × (t.checked ≡ [])

  record Inv (t : Tasks W) : Type 0 where
    agrees : Agrees t.cell
    checked_later : (t.checked ≡ []) ⊎ (is_acknowledged t.cell.state ≡ true)

  send_followup-state :
      (p : MessagePayload) (e : Bool) (c : Cell W) → (send_followup rest i p e c).0.state ≡ c.state
  unfolding send_followup
  send_followup-state p e c = refl
