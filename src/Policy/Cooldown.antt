-- ===== src/Policy/Cooldown.antt =====
-- crates/gloam-commands/src/policy.rs, `reserve_cooldown`: the per-user map behind the mutex, from
-- the moment that the lock is held.
pub mod Laws
pub mod Spacing
use gloam_macro_commands.Common.{
  ℕ, ◌-◌, String, Option, none, some, List, [], ◌∷◌, nat_eq, ltb, if◌then◌else◌,
}
use gloam_macro_commands.Error.{Result, ok, err, command_on_cooldown}

-- `HashMap<UserId, Instant>`, without order.
abbrev pub Cooldowns : Type 0
Cooldowns = List (ℕ × ℕ)

unfoldable pub get : ℕ → Cooldowns → Option ℕ
get user [] = none
get user ((u, deadline) ∷ rest) = if nat_eq u user then some deadline else get user rest

unfoldable pub insert : ℕ → ℕ → Cooldowns → Cooldowns
insert user ready [] = (user, ready) ∷ []
insert user ready ((u, deadline) ∷ rest) =
    if nat_eq u user then (user, ready) ∷ rest else (u, deadline) ∷ insert user ready rest

-- `retain(|_, deadline| *deadline > now)`.
unfoldable pub retain : ℕ → Cooldowns → Cooldowns
retain now [] = []
retain now ((u, deadline) ∷ rest) =
    if ltb now deadline then (u, deadline) ∷ retain now rest else retain now rest

-- `if let Some(deadline) = cooldowns.get(&user_id) && *deadline > now`.
unfoldable pub active : ℕ → Option ℕ → Option ℕ
active now none = none
active now (some deadline) = if ltb now deadline then some deadline else none

unfoldable pub reserve : String → ℕ → (now ready_at : ℕ) → Cooldowns → Cooldowns × Result (Unit {0})
unfolding get insert retain active
reserve path user now ready_at cooldowns = elim (active now (get user cooldowns)) [
  | some deadline ↦ (cooldowns, err (command_on_cooldown path (deadline - now)))
  | none ↦ (retain now (insert user ready_at cooldowns), ok tt)
]
