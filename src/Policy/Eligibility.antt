-- ===== src/Policy/Eligibility.antt =====
-- Which invocations a policy lets through, stated without the code's tests.
use gloam_macro_commands.Common.{
  ℕ, ◌+◌, ◌≤◌, ◌≡◌, refl, ◌↔◌, ◌⊎◌, inl, inr, true, false, not, Option, none, some, List, [], ◌∷◌,
  Memᴰ, any, arith, unwrap_or, Bool-cases,
}
use mathlib.Core.Option.{some-injective}
use gloam_macro_commands.Error.{ok, Error}
use gloam_macro_commands.Discord.{ContextType, same_context, same_context_iff}
use gloam_macro_commands.Context.{Context}
use gloam_macro_commands.Policy.Cooldown.{Cooldowns, get}
use gloam_macro_commands.Policy.{
  CheckDescriptor, CommandPolicy, Host, State, context_denied, supplied_permissions, require,
  run_checks, user_id,
}

-- The empty list allows every context, also an unknown one.
abbrev pub Allows : List ContextType → Option ContextType → Type 0
Allows allowed current = (allowed ≡ []) ⊎ ((x : ContextType) × (current ≡ some x) × Memᴰ x allowed)

any-Memᴰ : (x : ContextType) (xs : List ContextType) → any (same_context x) xs ≡ true → Memᴰ x xs
any-Memᴰ x [] e = cc
any-Memᴰ x (y ∷ ys) e = elim (Bool-cases (same_context x y)) [
  | inl same ↦ Memᴰ.head ((same_context_iff x y).0 same)
  | inr other ↦ Memᴰ.tail (any-Memᴰ x ys (ground arith))
]

Memᴰ-any : (x : ContextType) (xs : List ContextType) → Memᴰ x xs → any (same_context x) xs ≡ true
Memᴰ-any x [] m = elim m [ ]
Memᴰ-any x (y ∷ ys) (Memᴰ.head e) = ground (arith, same_context_iff x y)
Memᴰ-any x (y ∷ ys) (Memᴰ.tail m) = ground (arith, Memᴰ-any x ys m)

pub context_denied_iff :
    (allowed : List ContextType) (current : Option ContextType)
    → (context_denied allowed current ≡ false) ↔ Allows allowed current
unfolding context_denied
context_denied_iff [] none = (λ _. inl refl, λ _. refl)
context_denied_iff [] (some x) = (λ _. inl refl, λ _. refl)
context_denied_iff (y ∷ ys) none = (λ e. cc, from)
  where
    from : Allows (y ∷ ys) none → not false ≡ false
    from (inl e) = cc
    from (inr (x, e, m)) = cc
context_denied_iff (y ∷ ys) (some x) = (to, from)
  where
    to : context_denied (y ∷ ys) (some x) ≡ false → Allows (y ∷ ys) (some x)
    to e = inr (x, refl, any-Memᴰ x (y ∷ ys) (ground arith))

    from : Allows (y ∷ ys) (some x) → context_denied (y ∷ ys) (some x) ≡ false
    from (inl e) = cc
    from (inr (z, e, m)) = ground (arith, Memᴰ-any z (y ∷ ys) m, some-injective e)

-- The permissions that a policy requires are among those supplied.
abbrev pub Grants : {W : Type 0} → Host W → Option ℕ → ℕ → Type 0
Grants host none actual = Unit {0}
Grants host (some required) actual = host.contains actual required ≡ true

module _ {W : Type 0} (host : Host W) where
  pub require_iff :
      (wanted : Option ℕ) (actual : ℕ) (denied : ℕ → Error)
      → (require host wanted actual denied ≡ ok tt) ↔ Grants host wanted actual
  unfolding require
  require_iff none actual denied = (λ _. tt, λ _. refl)
  require_iff (some r) actual denied = ground arith

-- Every check in turn answers `true`, each in the world that the one before it left.
abbrev pub AllPass : {W : Type 0} → List (CheckDescriptor W) → Context → W → Type 0
AllPass [] c w = Unit {0}
AllPass (k ∷ ks) c w = ((k.handler c w).1 ≡ ok true) × AllPass ks c (k.handler c w).0

module _ {W : Type 0} where
  pub run_checks_iff :
      (ks : List (CheckDescriptor W)) (c : Context) (w : W)
      → ((run_checks ks c w).1 ≡ ok tt) ↔ AllPass ks c w
  unfolding run_checks
  run_checks_iff [] c w = (λ _. tt, λ _. refl)
  run_checks_iff (k ∷ ks) c w = ground (arith, run_checks_iff ks c (k.handler c w).0)

-- The world after the checks, if all of them are run.
abbrev pub checked_world : {W : Type 0} → List (CheckDescriptor W) → Context → W → W
checked_world [] c w = w
checked_world (k ∷ ks) c w = checked_world ks c (k.handler c w).0

-- No cooldown is running at the instant `now`.
abbrev pub IsOver : (now : ℕ) → Option ℕ → Type 0
IsOver now none = Unit {0}
IsOver now (some deadline) = deadline ≤ now

module _ {W : Type 0} (host : Host W) (policy : CommandPolicy W) (c : Context) where
  -- The cooldown can be taken in the world `w`: the invoking user is known, the new deadline can be
  -- represented, and the user's last one has passed.
  abbrev pub IsReady : Option ℕ → (ℕ → Cooldowns) → W → Type 0
  IsReady none cells w = Unit {0}
  IsReady (some duration) cells w =
      (user : ℕ) × (user_id c.interaction ≡ some user)
      × (host.now w + duration ≤ host.last_instant)
      × IsOver (host.now w) (get user (cells policy.cooldowns))

  pub record IsEligible (s : State W) : Type 0 where
    pub context : Allows policy.contexts c.interaction.context
    pub member :
        Grants host policy.member_permissions (supplied_permissions host c.interaction.member)
    pub bot :
        Grants host policy.bot_permissions
          (unwrap_or c.interaction.app_permissions host.no_permissions)
    pub checks : AllPass policy.checks c s.world
    pub ready : IsReady policy.cooldown s.cooldowns (checked_world policy.checks c s.world)
