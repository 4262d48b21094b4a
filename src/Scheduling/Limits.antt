-- ===== src/Scheduling/Limits.antt =====
-- crates/gloam-commands/src/framework.rs, from the builder's limit to the futures that run at once.
use gloam_macro_commands.Common.{
  ℕ, ◌≤◌, ◌≡◌, refl, sym, ap, ◌∙◌, [], length, nat_eq, if◌then◌else◌, arith,
}
use gloam_macro_commands.Error.{Result, ok, err}
use gloam_macro_commands.Dispatch.{Framework}
use gloam_macro_commands.Builder.{FrameworkBuilder, build}
use gloam_macro_commands.Builder.Contents.{build-Holds}
use gloam_macro_commands.Scheduling.{Semaphores, create_slots, build_slots}
use gloam_macro_commands.Scheduling.Capacity.{Scheduler, Reach, Reach-capacity}

own : (a n m : ℕ) → (if nat_eq a a then n else m) ≡ n
own a n m = ground arith

module _ {W S : Type 0} (semaphores : Semaphores S) where
  -- What a build leaves: the semaphore of the framework has the permits of the builder's limit.
  build_slots-permits :
      (b : FrameworkBuilder W) (slots : ℕ) (s t : S) (f : Framework W)
      → build_slots semaphores b slots s ≡ (t, ok f)
      → semaphores.available_permits f.command_slots t ≡ b.max_concurrent_commands
  unfolding build_slots
  build_slots-permits b slots s t f e = by_build (build b slots) refl e
    where
      n : ℕ
      n = b.max_concurrent_commands

      by_build :
          (r : Result (Framework W))
          → build b slots ≡ r
          → create_slots semaphores slots n s r ≡ (t, ok f)
          → semaphores.available_permits f.command_slots t ≡ n
      by_build (err x) h e = absurd (unfold create_slots in cc)
      by_build (ok g) h e =
          let made : (semaphores.create slots n s, ok g) ≡ (t, ok f) = unfold create_slots in e in
          let same : g ≡ f = cc in
          let at : f.command_slots ≡ slots =
            sym (ap (λ x. x.command_slots) same)
            ∙ ap (λ x. x.command_slots) (build-Holds b slots g h).0 in
          let here : semaphores.available_permits slots (semaphores.create slots n s) ≡ n =
            semaphores.created slots n s slots ∙ own slots n _ in
          ap (λ a. semaphores.available_permits a t) at
          ∙ ap (semaphores.available_permits slots) (sym (ap (λ p. p.0) made))
          ∙ here

  -- Of a framework that was just built, never more commands and autocomplete handlers run at once
  -- than the limit that its builder was given.
  pub build_slots-capacity :
      (b : FrameworkBuilder W) (slots : ℕ) (s : S) (f : Framework W) (x y : Scheduler S)
      → build_slots semaphores b slots s ≡ (x.slots, ok f)
      → x.running ≡ []
      → Reach semaphores f x y
      → length y.running ≤ b.max_concurrent_commands
  build_slots-capacity b slots s f x y e none_running r =
      let permits = build_slots-permits b slots s x.slots f e in
      let few = Reach-capacity semaphores f none_running r in omega arith
