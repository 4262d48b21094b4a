-- ===== src/Policy.antt =====
-- crates/gloam-commands/src/policy.rs: a command's execution policy and its evaluation.
pub mod Cooldown
pub mod Eligibility
pub mod Evaluation
pub mod Reservation
use gloam_macro_commands.Common.{
  ℕ, ◌+◌, String, Bool, true, false, not, ◌&&◌, Option, none, some, List, [], ◌∷◌, ◌++◌, is_empty,
  any, leb, nat_eq, if◌then◌else◌, unwrap_or, join,
}
use gloam_macro_commands.Error
use gloam_macro_commands.Error.{
  or_fail, Result, ok, err, guard, Error, command_context_not_allowed, missing_member_permissions,
  missing_bot_permissions, command_check_failed, command_user_unavailable, command_on_cooldown,
  invalid_command_policy,
}
use gloam_macro_commands.Exec.{Exec, pure, lift, after, ◌>>=◌, ◌>>◌}
use gloam_macro_commands.Discord.{ContextType, guild, same_context, Interaction, Member}
use gloam_macro_commands.Observability.{Observation}
use gloam_macro_commands.Context.{Context}
use Cooldown.{Cooldowns, reserve}

-- A custom check acts on the world `W` that handlers share.
pub record CheckDescriptor (W : Type 0) : Type 0 where
  pub name : String
  pub handler : Context → Exec W Bool

-- The mutex over the cooldown map and the semaphore are shared objects, named by their addresses.
pub record CommandPolicy (W : Type 0) : Type 0 where
  pub checks : List (CheckDescriptor W)
  pub contexts : List ContextType
  pub member_permissions : Option ℕ
  pub bot_permissions : Option ℕ
  pub cooldown : Option ℕ
  pub cooldowns : ℕ
  pub max_concurrency : Option ℕ
  pub command_slots : Option ℕ

module _ {W : Type 0} where
  -- A policy without restrictions, over a fresh cooldown map at the address `cooldowns`.
  unfoldable pub new : (cooldowns : ℕ) → CommandPolicy W
  new cooldowns = record {
    checks = [];
    contexts = [];
    member_permissions = none;
    bot_permissions = none;
    cooldown = none;
    cooldowns = cooldowns;
    max_concurrency = none;
    command_slots = none;
  }

  unfoldable pub check : CommandPolicy W → CheckDescriptor W → CommandPolicy W
  check policy c = record policy { checks = policy.checks ++ c ∷ [] }

  unfoldable pub contexts : CommandPolicy W → List ContextType → CommandPolicy W
  contexts policy cs = record policy { contexts = cs }

  unfoldable pub guild_only : CommandPolicy W → CommandPolicy W
  unfolding contexts
  guild_only policy = contexts policy (guild ∷ [])

  unfoldable pub member_permissions : CommandPolicy W → ℕ → CommandPolicy W
  member_permissions policy permissions = record policy { member_permissions = some permissions }

  unfoldable pub bot_permissions : CommandPolicy W → ℕ → CommandPolicy W
  bot_permissions policy permissions = record policy { bot_permissions = some permissions }

  unfoldable pub cooldown : CommandPolicy W → ℕ → CommandPolicy W
  cooldown policy duration = record policy { cooldown = some duration }

  -- The semaphore is created with `limit` permits at the address `slots`.
  unfoldable pub max_concurrency : CommandPolicy W → (limit slots : ℕ) → CommandPolicy W
  max_concurrency policy limit slots = record policy {
    max_concurrency = some limit;
    command_slots = some slots;
  }

-- Gloamwire's permission sets and the process's clock. `now` is the instant that `Instant::now()`
-- returns in a world, and `last_instant` the largest instant that can be represented.
pub record Host (W : Type 0) : Type 0 where
  pub no_permissions : ℕ
  pub contains : ℕ → ℕ → Bool
  pub now : W → ℕ
  pub last_instant : ℕ

-- What the execution of a command reads and writes: the cooldown maps by address, the world of the
-- handlers, and the records emitted so far.
pub record State (W : Type 0) : Type 0 where
  pub cooldowns : ℕ → Cooldowns
  pub trace : List Observation
  pub world : W

abbrev pub command_path : Context → String
command_path c = join c.command_path

-- `!contexts.is_empty() && current.is_none_or(|current| !contexts.contains(&current))`.
unfoldable pub context_denied : List ContextType → Option ContextType → Bool
unfolding same_context
context_denied allowed none = not (is_empty allowed)
context_denied allowed (some current) =
    not (is_empty allowed) && not (any (same_context current) allowed)

unfoldable pub user_id : Interaction → Option ℕ
user_id i = elim i.user [
  | some user ↦ some user
  | none ↦ elim i.member [ none ↦ none | some member ↦ member.user ]
]

unfoldable pub update : (ℕ → Cooldowns) → ℕ → Cooldowns → ℕ → Cooldowns
update cells address value a = if nat_eq a address then value else cells a

module _ {W : Type 0} where
  -- A handler acts on the world and cannot reach the cooldown maps.
  abbrev pub foreign : {A : Type 0} → Exec W A → Exec (State W) A
  foreign m s = let (w, r) = m s.world in (record s { world = w }, r)

  -- The permissions that the interaction supplied for the invoking member.
  unfoldable pub supplied_permissions : Host W → Option Member → ℕ
  supplied_permissions host none = host.no_permissions
  supplied_permissions host (some member) = unwrap_or member.permissions host.no_permissions

  unfoldable pub require : Host W → Option ℕ → (actual : ℕ) → (ℕ → Error) → Result (Unit {0})
  require host none actual denied = ok tt
  require host (some required) actual denied =
      guard (host.contains actual required) (denied required)

  -- The guards on the interaction, which come before the custom checks.
  unfoldable pub admit : Host W → CommandPolicy W → Context → Result (Unit {0})
  unfolding context_denied supplied_permissions require
  admit host policy c =
      let member = supplied_permissions host c.interaction.member in
      let application = unwrap_or c.interaction.app_permissions host.no_permissions in
      Error.◌>>◌
        (guard (not (context_denied policy.contexts c.interaction.context))
          (command_context_not_allowed (command_path c)))
        (Error.◌>>◌
          (require host policy.member_permissions member
            (λ required. missing_member_permissions (command_path c) required member))
          (require host policy.bot_permissions application
            (λ required. missing_bot_permissions (command_path c) required application)))

  unfoldable pub run_checks : List (CheckDescriptor W) → Context → Exec W (Unit {0})
  run_checks [] c = pure tt
  run_checks (k ∷ ks) c = do
    passed ← k.handler c
    lift (guard passed (command_check_failed (command_path c) k.name))
    run_checks ks c

  -- `Instant::checked_add`.
  unfoldable pub checked_add : Host W → ℕ → ℕ → Option ℕ
  checked_add host now duration =
      if leb (now + duration) host.last_instant then some (now + duration) else none

  -- The map is read and written under the policy's lock.
  unfoldable pub locked : (address : ℕ) → Exec Cooldowns (Unit {0}) → Exec (State W) (Unit {0})
  locked address m s =
      let (map, r) = m (s.cooldowns address) in
      (record s { cooldowns = update s.cooldowns address map }, r)

  unfoldable pub reserve_cooldown :
      Host W → CommandPolicy W → Context → ℕ → Exec (State W) (Unit {0})
  unfolding user_id checked_add locked
  reserve_cooldown host policy c duration s =
      let now = host.now s.world in
      (do
        user ← lift (or_fail (user_id c.interaction) (command_user_unavailable (command_path c)))
        ready_at ←
            lift (or_fail (checked_add host now duration) (invalid_command_policy (command_path c)))
        locked policy.cooldowns (reserve (command_path c) user now ready_at))
        s

  unfoldable pub take_cooldown :
      Host W → CommandPolicy W → Context → Option ℕ → Exec (State W) (Unit {0})
  take_cooldown host policy c none = pure tt
  take_cooldown host policy c (some duration) = reserve_cooldown host policy c duration

  unfoldable pub evaluate : Host W → CommandPolicy W → Context → Exec (State W) (Unit {0})
  unfolding run_checks take_cooldown
  evaluate host policy c = do
    lift (admit host policy c)
    foreign (run_checks policy.checks c)
    take_cooldown host policy c policy.cooldown
