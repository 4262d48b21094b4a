-- ===== src/Scheduling/Spawning.antt =====
-- crates/gloam-commands/src/framework.rs, `spawn_prepared`: the permits of the futures that run.
use gloam_macro_commands.Common.{
  ℕ, ◌+◌, ◌≤◌, ◌≡◌, refl, ap, ◌∙◌, arith, String, Bool, true, false, Option, none, some, List, [],
  ◌∷◌, ◌++◌, length, All,
}
use gloam_macro_commands.Error.{Result, ok, err}
use gloam_macro_commands.Dispatch.{PreparedDispatch, ignored, unregistered, command, autocomplete}
use gloam_macro_commands.Scheduling.{
  Semaphores, Task, DispatchOutcome, spawned, try_execute, outcome, spawn_prepared,
}
use gloam_macro_commands.Scheduling.Permits.{
  held, permits_of, try_execute-conserves, needed, try_execute-needed,
}
use gloam_macro_commands.Dispatch.Slots.{Uses}

abbrev pub started : Result DispatchOutcome → List Task
started (ok (spawned task)) = task ∷ []
started _ = []

-- The permits that the running futures hold of the semaphore `b`.
abbrev pub in_use : ℕ → List Task → ℕ
in_use b [] = 0
in_use b (task ∷ tasks) = held b task.permits + in_use b tasks

pub in_use-append : (b : ℕ) (xs ys : List Task) → in_use b (xs ++ ys) ≡ in_use b xs + in_use b ys
in_use-append b [] ys = omega arith
in_use-append b (x ∷ xs) ys = let rest = in_use-append b xs ys in omega arith

outcome-started :
    {S : Type 0} (b : ℕ) (name : String) (r : S × Result (Option (List ℕ)))
    → in_use b (started (outcome name r).1) ≡ held b (permits_of r.1)
unfolding outcome
outcome-started b name (s, ok (some permits)) = omega arith
outcome-started b name (s, ok none) = refl
outcome-started b name (s, err e) = refl

outcome-slots :
    {S : Type 0} (name : String) (r : S × Result (Option (List ℕ))) → (outcome name r).0 ≡ r.0
unfolding outcome
outcome-slots name (s, ok (some permits)) = refl
outcome-slots name (s, ok none) = refl
outcome-slots name (s, err e) = refl

-- The future holds a permit of the semaphore.
unfoldable pub HoldsSlot : ℕ → Task → Type 0
HoldsSlot command_slots task = 1 ≤ held command_slots task.permits

pub All-remove :
    {A : Type 0} (P : A → Type 0) (before : List A) (x : A) (after : List A)
    → All P (before ++ x ∷ after)
    → All P (before ++ after)
All-remove P [] x after h = h.1
All-remove P (y ∷ before) x after h = (h.0, All-remove P before x after h.1)

pub length-in_use :
    (command_slots : ℕ) (tasks : List Task)
    → All (HoldsSlot command_slots) tasks
    → length tasks ≤ in_use command_slots tasks
unfolding HoldsSlot
length-in_use command_slots [] h = omega arith
length-in_use command_slots (task ∷ tasks) (h, hs) =
    let rest = length-in_use command_slots tasks hs in omega arith

module _ {S : Type 0} (semaphores : Semaphores S) (command_slots : ℕ) where
  pub spawn_prepared-conserves :
      {W : Type 0} (has_runtime : Bool) (p : PreparedDispatch W) (s : S) (b : ℕ)
      → semaphores.available_permits b (spawn_prepared semaphores has_runtime p s).0
          + in_use b (started (spawn_prepared semaphores has_runtime p s).1)
        ≡ semaphores.available_permits b s
  unfolding spawn_prepared
  spawn_prepared-conserves has_runtime ignored s b = omega arith
  spawn_prepared-conserves has_runtime (unregistered name) s b = omega arith
  spawn_prepared-conserves false (command p) s b = omega arith
  spawn_prepared-conserves true (command p) s b =
      let r = try_execute semaphores p.policy.command_slots p.command_slots s in
      rw (outcome-slots p.command_name r, outcome-started b p.command_name r)
        (try_execute-conserves semaphores p.policy.command_slots p.command_slots s b)
  spawn_prepared-conserves false (autocomplete p) s b = omega arith
  spawn_prepared-conserves true (autocomplete p) s b =
      let r = try_execute semaphores none p.command_slots s in
      rw (outcome-slots p.command_name r, outcome-started b p.command_name r)
        (try_execute-conserves semaphores none p.command_slots s b)

  outcome-HoldsSlot :
      (policy_slots : Option ℕ) (name : String) (r : S × Result (Option (List ℕ)))
      → ((permits : List ℕ)
          → r.1 ≡ ok (some permits)
          → permits ≡ needed semaphores policy_slots command_slots)
      → All (HoldsSlot command_slots) (started (outcome name r).1)
  unfolding outcome HoldsSlot
  outcome-HoldsSlot none name (s, ok (some permits)) h = (rw (h permits refl) (ground arith), tt)
  outcome-HoldsSlot (some a) name (s, ok (some permits)) h =
      (rw (h permits refl) (ground arith), tt)
  outcome-HoldsSlot q name (s, ok none) h = tt
  outcome-HoldsSlot q name (s, err e) h = tt

  pub spawn_prepared-HoldsSlot :
      {W : Type 0} (has_runtime : Bool) (p : PreparedDispatch W) (s : S)
      → Uses command_slots p
      → All (HoldsSlot command_slots) (started (spawn_prepared semaphores has_runtime p s).1)
  unfolding spawn_prepared
  spawn_prepared-HoldsSlot has_runtime ignored s u = tt
  spawn_prepared-HoldsSlot has_runtime (unregistered name) s u = tt
  spawn_prepared-HoldsSlot false (command p) s u = tt
  spawn_prepared-HoldsSlot true (command p) s u =
      outcome-HoldsSlot p.policy.command_slots p.command_name
        (try_execute semaphores p.policy.command_slots p.command_slots s)
        (λ permits e.
          try_execute-needed semaphores p.policy.command_slots p.command_slots s permits e
          ∙ ap (needed semaphores p.policy.command_slots) u)
  spawn_prepared-HoldsSlot false (autocomplete p) s u = tt
  spawn_prepared-HoldsSlot true (autocomplete p) s u =
      outcome-HoldsSlot none p.command_name (try_execute semaphores none p.command_slots s)
        (λ permits e.
          try_execute-needed semaphores none p.command_slots s permits e
          ∙ ap (needed semaphores none) u)
