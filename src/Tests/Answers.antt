-- ===== src/Tests/Answers.antt =====
-- Runs of the response protocol, of autocomplete results and of option extraction.
use gloam_macro_commands.Response.{deferred, reply_inner}
use gloam_macro_commands.Response.Visibility.{Sends, reply_inner-Sends}
use gloam_macro_commands.Error.{err, response_visibility_mismatch}
use gloam_macro_commands.Common.{ℕ, ◌≤◌, ◌≡◌, refl, ◌↔◌, true, false, [], ◌∷◌, All, map, ◌⊎◌}
use gloam_macro_commands.Common.Integer.{pos}
use gloam_macro_commands.Error.{ok}
use gloam_macro_commands.Discord.{integer}
use gloam_macro_commands.Command.{AutocompleteChoice, integer_result}
use gloam_macro_commands.Autocomplete.{autocomplete_response_choices}
use gloam_macro_commands.Autocomplete.Choices.{
  IsValidChoice, sent_choice, autocomplete_response_choices_iff,
}
use gloam_macro_commands.Options.{extract_value, read_integer}
use gloam_macro_commands.Options.Extraction.{Extracts, extract_value_iff}
use gloam_macro_commands.Response.{pending, Cell, send_followup}
use gloam_macro_commands.Response.Protocol.{unacknowledged, Stands, defer, edit, run_locked, accept}
use gloam_macro_commands.Response.Interleaving.{Tasks}
use gloam_macro_commands.Tests.Fixtures.{interaction, rest, pong, count_given}

abbrev fresh : Cell ℕ
fresh = record { state = pending; world = 0; sent = [] }

abbrev new_tasks : Tasks ℕ
new_tasks = record { cell = fresh; checked = [] }

-- A deferral, a followup that passes its check, an edit, and the followup's request.
abbrev deferred_tasks : Tasks ℕ
deferred_tasks = record new_tasks { cell = run_locked rest interaction (defer true) fresh }

abbrev checked_tasks : Tasks ℕ
checked_tasks = record deferred_tasks { checked = (pong, false) ∷ [] }

abbrev edited_tasks : Tasks ℕ
edited_tasks = record checked_tasks {
  cell = run_locked rest interaction (edit pong) checked_tasks.cell;
}

abbrev sent_tasks : Tasks ℕ
sent_tasks = record edited_tasks {
  cell = (send_followup rest interaction pong false edited_tasks.cell).0;
}

abbrev suggestion : AutocompleteChoice
suggestion = record { name = "Three"; value = integer_result (pos 3) }

autocomplete_response_choices_iff_example :
    (autocomplete_response_choices integer (suggestion ∷ []) ≡ ok (sent_choice suggestion ∷ [])) ↔ (
      (1 ≤ 25)
      × All (IsValidChoice integer) (suggestion ∷ [])
      × (sent_choice suggestion ∷ [] ≡ map sent_choice (suggestion ∷ [])))
autocomplete_response_choices_iff_example =
    autocomplete_response_choices_iff integer (suggestion ∷ []) (sent_choice suggestion ∷ [])

extract_value_iff_example :
    (extract_value integer "i64" read_integer (count_given ∷ []) "count" ≡ ok (pos 3))
    ↔ Extracts integer "i64" read_integer (count_given ∷ []) "count" (ok (pos 3))
extract_value_iff_example =
    extract_value_iff integer "i64" read_integer (count_given ∷ []) "count" (ok (pos 3))

fresh-Stands : Stands fresh unacknowledged
unfolding accept
fresh-Stands = (refl, refl)

reply_inner-Sends_example :
    Sends pong true unacknowledged true fresh (reply_inner rest interaction pong true fresh).0
    ⊎ ((pending ≡ deferred false)
        × (reply_inner rest interaction pong true fresh
            ≡ (fresh, err response_visibility_mismatch)))
reply_inner-Sends_example =
    reply_inner-Sends rest interaction pong true fresh unacknowledged fresh-Stands

-- Deferred for all: the ephemeral followup is shown to all, and the next reply replaces it.
abbrev public_cell : Cell ℕ
public_cell = run_locked rest interaction (defer false) fresh
