-- ===== src/Policy/Reservation.antt =====
-- crates/gloam-commands/src/policy.rs, `evaluate`: what it writes.
use gloam_macro_commands.Common.{
  ℕ, ◌+◌, ◌≡◌, refl, inl, inr, String, Option, none, some, arith, nat_eq, nat_eq_iff, Option-cases,
  Bool-cases, leb,
}
use gloam_macro_commands.Error.{Error, err}
use gloam_macro_commands.Exec.{Exec}
use gloam_macro_commands.Context.{Context}
use gloam_macro_commands.Policy.Cooldown.{Cooldowns, reserve}
use gloam_macro_commands.Policy.{
  CommandPolicy, Host, State, foreign, command_path, run_checks, user_id, update, locked,
  reserve_cooldown, take_cooldown, evaluate,
}

update_same :
    (cells : ℕ → Cooldowns) (address a : ℕ) → update cells address (cells address) a ≡ cells a
unfolding update
update_same cells address a = elim (Bool-cases (nat_eq a address)) [
  | inl same ↦ rw (same, (nat_eq_iff a address).0 same)
  | inr other ↦ rw other
]

module _ {W : Type 0} (host : Host W) where
  reserve_err :
      (path : String) (user now ready : ℕ) (map : Cooldowns) {e : Error}
      → (reserve path user now ready map).1 ≡ err e
      → (reserve path user now ready map).0 ≡ map
  unfolding reserve
  reserve_err path user now ready map h = ground arith

  locked_same :
      (address : ℕ) (m : Exec Cooldowns (Unit {0})) (s : State W) (a : ℕ)
      → (m (s.cooldowns address)).0 ≡ s.cooldowns address
      → (locked address m s).0.cooldowns a ≡ s.cooldowns a
  unfolding locked
  locked_same address m s a h = rw h (update_same s.cooldowns address a)

  reserve_cooldown_err :
      (policy : CommandPolicy W) (c : Context) (duration : ℕ) (s : State W) (e : Error) (a : ℕ)
      → (reserve_cooldown host policy c duration s).1 ≡ err e
      → (reserve_cooldown host policy c duration s).0.cooldowns a ≡ s.cooldowns a
  unfolding reserve_cooldown
  reserve_cooldown_err policy c duration s e a h = elim (Option-cases (user_id c.interaction)) [
    | inl unknown ↦ rw unknown
    | inr (user, known) ↦
        let now = host.now s.world in
        let act = reserve (command_path c) user now (now + duration) in
        elim (Bool-cases (leb (now + duration) host.last_instant)) [
          | inl fits ↦
              rw (known, fits)
                (locked_same policy.cooldowns act s a (
                  reserve_err (command_path c) user now (now + duration)
                    (s.cooldowns policy.cooldowns) (rw (known, fits) at h)))
          | inr large ↦ rw (known, large)
        ]
  ]

  take_cooldown_err :
      (policy : CommandPolicy W) (c : Context) (cooldown : Option ℕ) (s : State W) (e : Error)
      (a : ℕ)
      → (take_cooldown host policy c cooldown s).1 ≡ err e
      → (take_cooldown host policy c cooldown s).0.cooldowns a ≡ s.cooldowns a
  unfolding take_cooldown
  take_cooldown_err policy c none s e a h = cc
  take_cooldown_err policy c (some d) s e a h = reserve_cooldown_err policy c d s e a h

  -- An evaluation that fails, at whichever step, leaves every cooldown map as it was.
  pub evaluate-err_cooldowns :
      (policy : CommandPolicy W) (c : Context) (s : State W) (e : Error) (a : ℕ)
      → (evaluate host policy c s).1 ≡ err e
      → (evaluate host policy c s).0.cooldowns a ≡ s.cooldowns a
  unfolding evaluate
  evaluate-err_cooldowns policy c s e a h = ground (
    arith,
    take_cooldown_err policy c policy.cooldown (foreign (run_checks policy.checks c) s).0 e a,
  )

  reserve_cooldown-trace :
      (policy : CommandPolicy W) (c : Context) (duration : ℕ) (s : State W)
      → (reserve_cooldown host policy c duration s).0.trace ≡ s.trace
  unfolding reserve_cooldown
  reserve_cooldown-trace policy c duration s = ground arith

  take_cooldown-trace :
      (policy : CommandPolicy W) (c : Context) (cooldown : Option ℕ) (s : State W)
      → (take_cooldown host policy c cooldown s).0.trace ≡ s.trace
  unfolding take_cooldown
  take_cooldown-trace policy c none s = refl
  take_cooldown-trace policy c (some d) s = reserve_cooldown-trace policy c d s

  pub evaluate-trace :
      (policy : CommandPolicy W) (c : Context) (s : State W)
      → (evaluate host policy c s).0.trace ≡ s.trace
  unfolding evaluate
  evaluate-trace policy c s = ground (
    arith,
    take_cooldown-trace policy c policy.cooldown (foreign (run_checks policy.checks c) s).0,
  )
