-- ===== src/Scheduling/Permits.antt =====
-- crates/gloam-commands/src/framework.rs, `try_execute`: no permit is lost or invented.
use gloam_macro_commands.Common.{ℕ, ◌+◌, ◌≡◌, refl, arith, Option, none, some, List, [], ◌∷◌}
use gloam_macro_commands.Error.{Result, ok, err}
use gloam_macro_commands.Scheduling.{
  Acquired, permit, no_permits, closed, one_at, Semaphores, drop_permits, match_acquired,
  acquire_next, acquire_global, try_execute,
}

-- How many of the permits belong to the semaphore `b`.
abbrev pub held : ℕ → List ℕ → ℕ
held b [] = 0
held b (a ∷ rest) = one_at a b + held b rest

abbrev pub permits_of : Result (Option (List ℕ)) → List ℕ
permits_of (ok (some permits)) = permits
permits_of _ = []

module _ {S : Type 0} (semaphores : Semaphores S) where
  pub drop_permits-available :
      (permits : List ℕ) (s : S) (b : ℕ)
      → semaphores.available_permits b (drop_permits semaphores permits s)
        ≡ semaphores.available_permits b s + held b permits
  unfolding drop_permits
  drop_permits-available [] s b = omega arith
  drop_permits-available (a ∷ rest) s b =
      let next = drop_permits-available rest (semaphores.release a s) b in
      let here = semaphores.released a s b in omega arith

  match_acquired-conserves :
      (a : ℕ) (permits : List ℕ) (s : S) (r : S × Acquired)
      → semaphores.try_acquire a s ≡ r
      → (b : ℕ)
      → semaphores.available_permits b (match_acquired semaphores a permits r).0
          + held b (permits_of (match_acquired semaphores a permits r).1)
        ≡ semaphores.available_permits b s + held b permits
  unfolding match_acquired
  match_acquired-conserves a permits s (t, permit) e b =
      let taken = semaphores.acquired a s t e b in omega arith
  match_acquired-conserves a permits s (t, no_permits) e b =
      let same = semaphores.refused a s t no_permits e (λ h. cc) b in
      let dropped = drop_permits-available permits t b in omega arith
  match_acquired-conserves a permits s (t, closed) e b =
      let same = semaphores.refused a s t closed e (λ h. cc) b in
      let dropped = drop_permits-available permits t b in omega arith

  acquire_next-conserves :
      (a : ℕ) (permits : List ℕ) (s : S) (b : ℕ)
      → semaphores.available_permits b (acquire_next semaphores a permits s).0
          + held b (permits_of (acquire_next semaphores a permits s).1)
        ≡ semaphores.available_permits b s + held b permits
  unfolding acquire_next
  acquire_next-conserves a permits s =
      match_acquired-conserves a permits s (semaphores.try_acquire a s) refl

  acquire_global-conserves :
      (a : ℕ) (r : S × Result (Option (List ℕ))) (b : ℕ)
      → semaphores.available_permits b (acquire_global semaphores a r).0
          + held b (permits_of (acquire_global semaphores a r).1)
        ≡ semaphores.available_permits b r.0 + held b (permits_of r.1)
  unfolding acquire_global
  acquire_global-conserves a (s, ok (some permits)) b = acquire_next-conserves a permits s b
  acquire_global-conserves a (s, ok none) b = refl
  acquire_global-conserves a (s, err e) b = refl

  -- Whatever `try_execute` answers, the permits that are gone from each semaphore are those that the
  -- future holds: a command that cannot start, or fails to, holds none.
  pub try_execute-conserves :
      (policy_slots : Option ℕ) (command_slots : ℕ) (s : S) (b : ℕ)
      → semaphores.available_permits b (try_execute semaphores policy_slots command_slots s).0
          + held b (permits_of (try_execute semaphores policy_slots command_slots s).1)
        ≡ semaphores.available_permits b s
  unfolding try_execute
  try_execute-conserves none command_slots s b =
      let next = acquire_global-conserves command_slots (s, ok (some [])) b in omega arith
  try_execute-conserves (some policy_slots) command_slots s b =
      let first = acquire_next-conserves policy_slots [] s b in
      let next =
        acquire_global-conserves command_slots (acquire_next semaphores policy_slots [] s) b in
      omega arith

  -- The permits of a started future: the policy's, if it has a limit, and the framework's.
  abbrev pub needed : Option ℕ → ℕ → List ℕ
  needed none command_slots = command_slots ∷ []
  needed (some policy_slots) command_slots = command_slots ∷ policy_slots ∷ []

  match_acquired-permits :
      (a : ℕ) (held : List ℕ) (r : S × Acquired) (permits : List ℕ)
      → (match_acquired semaphores a held r).1 ≡ ok (some permits)
      → permits ≡ a ∷ held
  unfolding match_acquired
  match_acquired-permits a held (t, permit) permits e = cc
  match_acquired-permits a held (t, no_permits) permits e = cc
  match_acquired-permits a held (t, closed) permits e = cc

  -- A command starts only with a permit of its policy, if that has a limit, and one of the framework.
  pub try_execute-needed :
      (policy_slots : Option ℕ) (command_slots : ℕ) (s : S) (permits : List ℕ)
      → (try_execute semaphores policy_slots command_slots s).1 ≡ ok (some permits)
      → permits ≡ needed policy_slots command_slots
  unfolding try_execute acquire_next
  try_execute-needed none command_slots s permits e =
      match_acquired-permits command_slots [] (semaphores.try_acquire command_slots s) permits e
  try_execute-needed (some policy_slots) command_slots s permits e =
      by_answer (semaphores.try_acquire policy_slots s) e
    where
      by_answer :
          (r : S × Acquired)
          → (acquire_global semaphores command_slots
              (match_acquired semaphores policy_slots [] r)).1
            ≡ ok (some permits)
          → permits ≡ command_slots ∷ policy_slots ∷ []
      by_answer (t, permit) e =
          match_acquired-permits command_slots (policy_slots ∷ [])
            (semaphores.try_acquire command_slots t) permits e
      by_answer (t, no_permits) e = cc
      by_answer (t, closed) e = cc
