-- ===== src/Tests/Counters.antt =====
-- Semaphores as counters, never closed: they behave as tokio documents.
use gloam_macro_commands.Common.{
  ℕ, zero, suc, ◌+◌, ◌-◌, ◌≡◌, refl, sym, ap, ◌∙◌, arith, Bool, true, false, nat_eq, if◌then◌else◌,
  nat_eq_iff,
}
use gloam_macro_commands.Scheduling.{Acquired, permit, no_permits, one_at, Semaphores}

abbrev pub taken : ℕ → (ℕ → ℕ) → ℕ → ℕ
taken a s b = s b - one_at a b

abbrev pub answer : ℕ → (ℕ → ℕ) → ℕ → (ℕ → ℕ) × Acquired
answer a s zero = (s, no_permits)
answer a s (suc n) = (taken a s, permit)

pub acquired_law :
    (a : ℕ) (s t : ℕ → ℕ) (n : ℕ)
    → s a ≡ n
    → answer a s n ≡ (t, permit)
    → (b : ℕ) → t b + one_at a b ≡ s b
acquired_law a s t zero h e b = cc
acquired_law a s t (suc n) h e b =
    let same : taken a s b ≡ t b = ap (λ r. r.0 b) e in by_slot (nat_eq a b) refl same
  where
    by_slot : (x : Bool) → nat_eq a b ≡ x → taken a s b ≡ t b → t b + one_at a b ≡ s b
    by_slot true k same =
        let here : s b ≡ suc n = ap s (sym ((nat_eq_iff a b).0 k)) ∙ h in ground arith
    by_slot false k same = ground arith

pub exhausted_law :
    (a : ℕ) (s t : ℕ → ℕ) (n : ℕ) → s a ≡ n → answer a s n ≡ (t, no_permits) → s a ≡ 0
exhausted_law a s t zero h e = h
exhausted_law a s t (suc n) h e = cc

pub refused_law :
    (a : ℕ) (s t : ℕ → ℕ) (n : ℕ) (x : Acquired)
    → answer a s n ≡ (t, x)
    → (x ≡ permit → ⊥)
    → (b : ℕ) → t b ≡ s b
refused_law a s t zero x e refused b = ap (λ r. r.0 b) (sym e)
refused_law a s t (suc n) x e refused b = absurd (refused (ap (λ r. r.1) (sym e)))

abbrev pub counters : Semaphores (ℕ → ℕ)
counters = record {
  available_permits = λ a s. s a;
  create = λ a n s b. if nat_eq a b then n else s b;
  created = λ a n s b. refl;
  try_acquire = λ a s. answer a s (s a);
  release = λ a s b. s b + one_at a b;
  acquired = λ a s t. acquired_law a s t (s a) refl;
  exhausted = λ a s t. exhausted_law a s t (s a) refl;
  refused = λ a s t x. refused_law a s t (s a) x;
  released = λ a s b. refl;
}
