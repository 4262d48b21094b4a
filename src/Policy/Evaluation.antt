-- ===== src/Policy/Evaluation.antt =====
-- crates/gloam-commands/src/policy.rs, `evaluate`: exactly the eligible invocations pass, and only
-- those reserve a cooldown.
use gloam_macro_commands.Common.{
  not-eq-true, ℕ, ◌+◌, ◌≡◌, refl, ◌↔◌, inl, inr, not, Option, none, some, List, [], ◌∷◌, arith,
  unwrap_or, Option-cases, String, subst, sym, ap,
}
use gloam_macro_commands.Error
use gloam_macro_commands.Error.{
  seq_iff, guard_iff, Result, ok, err, guard, Error, missing_bot_permissions,
  missing_member_permissions, command_context_not_allowed,
}
use gloam_macro_commands.Exec.{after_iff}
use gloam_macro_commands.Context.{Context}
use gloam_macro_commands.Policy.Cooldown.{Cooldowns, get, reserve}
use gloam_macro_commands.Policy.{
  CheckDescriptor, CommandPolicy, Host, State, foreign, command_path, context_denied,
  supplied_permissions, require, run_checks, user_id, reserve_cooldown, take_cooldown, admit,
  evaluate,
}
use gloam_macro_commands.Policy.Eligibility.{
  Allows, context_denied_iff, Grants, require_iff, AllPass, run_checks_iff, checked_world, IsOver,
  IsReady, IsEligible,
}

module _ {W : Type 0} (host : Host W) where
  run_checks_world :
      (ks : List (CheckDescriptor W)) (c : Context) (w : W)
      → AllPass ks c w
      → (run_checks ks c w).0 ≡ checked_world ks c w
  unfolding run_checks
  run_checks_world [] c w h = refl
  run_checks_world (k ∷ ks) c w h = ground (arith, run_checks_world ks c (k.handler c w).0)

  reserve_iff :
      (path : String) (user now ready_at : ℕ) (map : Cooldowns)
      → ((reserve path user now ready_at map).1 ≡ ok tt) ↔ IsOver now (get user map)
  unfolding reserve
  reserve_iff path user now ready_at map = ground arith

  reserve_cooldown_iff :
      (policy : CommandPolicy W) (c : Context) (duration : ℕ) (s : State W)
      → ((reserve_cooldown host policy c duration s).1 ≡ ok tt)
        ↔ IsReady host policy c (some duration) s.cooldowns s.world
  unfolding reserve_cooldown
  reserve_cooldown_iff policy c duration s = elim (Option-cases (user_id c.interaction)) [
    | inl unknown ↦ ground arith
    | inr (user, known) ↦ ground (
      arith,
      reserve_iff (command_path c) user (host.now s.world) (host.now s.world + duration)
          (s.cooldowns policy.cooldowns),
    )
  ]

  take_cooldown_iff :
      (policy : CommandPolicy W) (c : Context) (cooldown : Option ℕ) (s : State W)
      → ((take_cooldown host policy c cooldown s).1 ≡ ok tt)
        ↔ IsReady host policy c cooldown s.cooldowns s.world
  unfolding take_cooldown
  take_cooldown_iff policy c none s = (λ _. tt, λ _. refl)
  take_cooldown_iff policy c (some duration) s = reserve_cooldown_iff policy c duration s

  admit_iff :
      (policy : CommandPolicy W) (c : Context)
      → (admit host policy c ≡ ok tt) ↔ (
          Allows policy.contexts c.interaction.context
          × Grants host policy.member_permissions (supplied_permissions host c.interaction.member)
          × Grants host policy.bot_permissions
              (unwrap_or c.interaction.app_permissions host.no_permissions))
  unfolding admit
  admit_iff policy c =
      let member = supplied_permissions host c.interaction.member in
      let application = unwrap_or c.interaction.app_permissions host.no_permissions in
      let denied = context_denied policy.contexts c.interaction.context in
      let context_guard = guard (not denied) (command_context_not_allowed (command_path c)) in
      let member_guard =
        require host policy.member_permissions member
          (λ required. missing_member_permissions (command_path c) required member) in
      let bot_guard =
        require host policy.bot_permissions application
          (λ required. missing_bot_permissions (command_path c) required application) in
      let (allowed, allowed') = context_denied_iff policy.contexts c.interaction.context in
      let (seq, seq') = seq_iff context_guard (Error.◌>>◌ member_guard bot_guard) tt in
      let (seq₁, seq₁') = seq_iff member_guard bot_guard tt in
      let (open₁, open₁') = guard_iff (not denied) (command_context_not_allowed (command_path c)) in
      let (m, m') =
        require_iff host policy.member_permissions member
          (λ required. missing_member_permissions (command_path c) required member) in
      let (b, b') =
        require_iff host policy.bot_permissions application
          (λ required. missing_bot_permissions (command_path c) required application) in
      (
        λ e.
            let (e₁, e₂) = seq e in
            let (e₃, e₄) = seq₁ e₂ in (allowed (not-eq-true denied (open₁ e₁)), m e₃, b e₄),
        λ h. seq' (open₁' (ap not (allowed' h.0)), seq₁' (m' h.1, b' h.2)),
      )

  -- An invocation passes the policy exactly if its context is allowed, the member and the
  -- application hold the required permissions, every check answers true in turn, and the user's
  -- cooldown, if there is one, is over.
  pub evaluate_iff :
      (policy : CommandPolicy W) (c : Context) (s : State W)
      → ((evaluate host policy c s).1 ≡ ok tt) ↔ IsEligible host policy c s
  unfolding evaluate
  evaluate_iff policy c s = (to, from)
    where
      checked : State W
      checked = (foreign (run_checks policy.checks c) s).0

      to : (evaluate host policy c s).1 ≡ ok tt → IsEligible host policy c s
      to e =
          let (admitted, e₁) = (after_iff (s, admit host policy c) _ tt).0 e in
          let (passed, e₂) = (after_iff (foreign (run_checks policy.checks c) s) _ tt).0 e₁ in
          let (context, member, bot) = (admit_iff policy c).0 admitted in
          let checks = (run_checks_iff policy.checks c s.world).0 passed in
          record {
            context = context;
            member = member;
            bot = bot;
            checks = checks;
            ready =
                subst (IsReady host policy c policy.cooldown s.cooldowns)
                  (run_checks_world policy.checks c s.world checks)
                  ((take_cooldown_iff policy c policy.cooldown checked).0 e₂);
          }

      from : IsEligible host policy c s → (evaluate host policy c s).1 ≡ ok tt
      from h = (after_iff (s, admit host policy c) _ tt).1 (
        (admit_iff policy c).1 (h.context, h.member, h.bot),
        (after_iff (foreign (run_checks policy.checks c) s) _ tt).1 (
          (run_checks_iff policy.checks c s.world).1 h.checks,
          (take_cooldown_iff policy c policy.cooldown checked).1 (
              subst (IsReady host policy c policy.cooldown s.cooldowns)
                (sym (run_checks_world policy.checks c s.world h.checks)) h.ready),
        ),
      )
