-- ===== src/Resolve/Focus.antt =====
-- crates/gloam-commands/src/framework.rs, `focused_option_index`.
use gloam_macro_commands.Common.{
  ℕ, zero, suc, ◌+◌, ◌≡◌, refl, ◌↔◌, inl, inr, ◌∙◌, sym, String, true, false, some, List, [], ◌∷◌,
  join, get_elem?, arith, Bool-cases, ap,
}
use gloam_macro_commands.Error.{ok}
use gloam_macro_commands.Discord.{InteractionOption, option_focused}
use gloam_macro_commands.Resolve.{is_focused, focused_indices, only_index, focused_option_index}

-- The option at this index is there and is focused.
abbrev pub IsFocusedAt : List InteractionOption → ℕ → Type 0
IsFocusedAt options i =
    (o : InteractionOption) × (get_elem? options i ≡ some o)
    × (is_focused (option_focused o) ≡ true)

focused_indices-cons_on :
    (s : ℕ) (o : InteractionOption) (os : List InteractionOption)
    → is_focused (option_focused o) ≡ true
    → focused_indices s (o ∷ os) ≡ s ∷ focused_indices (suc s) os
unfolding focused_indices
focused_indices-cons_on s o os h = ground arith

focused_indices-cons_off :
    (s : ℕ) (o : InteractionOption) (os : List InteractionOption)
    → is_focused (option_focused o) ≡ false
    → focused_indices s (o ∷ os) ≡ focused_indices (suc s) os
unfolding focused_indices
focused_indices-cons_off s o os h = ground arith

none_sound :
    (s : ℕ) (os : List InteractionOption) → focused_indices s os ≡ [] → (k : ℕ) → ¬ IsFocusedAt os k
none_sound s [] e k (o, at, on) = cc
none_sound s (o ∷ os) e zero (p, at, on) = elim (Bool-cases (is_focused (option_focused o))) [
  | inl focused ↦ cc (focused_indices-cons_on s o os focused)
  | inr off ↦ absurd (ground arith)
]
none_sound s (o ∷ os) e (suc k) f = elim (Bool-cases (is_focused (option_focused o))) [
  | inl focused ↦ cc (focused_indices-cons_on s o os focused)
  | inr off ↦ none_sound (suc s) os (sym (focused_indices-cons_off s o os off) ∙ e) k f
]

none_complete :
    (s : ℕ) (os : List InteractionOption)
    → ((k : ℕ) → ¬ IsFocusedAt os k)
    → focused_indices s os ≡ []
none_complete s [] h = unfold focused_indices in refl
none_complete s (o ∷ os) h = elim (Bool-cases (is_focused (option_focused o))) [
  | inl on ↦ absurd (h 0 (o, refl, on))
  | inr off ↦
      focused_indices-cons_off s o os off
      ∙ none_complete (suc s) os (λ k (p, at, on). h (suc k) (p, at, on))
]

-- The only focused option, seen from the index `s` on.
abbrev IsOnlyFrom : ℕ → List InteractionOption → ℕ → Type 0
IsOnlyFrom s os i = (j : ℕ) × (i ≡ s + j) × IsFocusedAt os j × ((k : ℕ) → IsFocusedAt os k → k ≡ j)

one_sound :
    (s : ℕ) (os : List InteractionOption) (i : ℕ)
    → focused_indices s os ≡ i ∷ []
    → IsOnlyFrom s os i
one_sound s [] i e = absurd (unfold focused_indices in ground arith)
one_sound s (o ∷ os) i e = elim (Bool-cases (is_focused (option_focused o))) [
  | inl on ↦
      let e' = sym (focused_indices-cons_on s o os on) ∙ e in
      let rest : focused_indices (suc s) os ≡ [] = ground arith in
      (0, ground arith, (o, refl, on), only_first rest)
  | inr off ↦
      let (j, same, at, only) =
        one_sound (suc s) os i (sym (focused_indices-cons_off s o os off) ∙ e) in
      (suc j, omega arith, at, only_later j off only)
]
  where
    only_first : focused_indices (suc s) os ≡ [] → (k : ℕ) → IsFocusedAt (o ∷ os) k → k ≡ 0
    only_first rest zero f = refl
    only_first rest (suc k) f = absurd (none_sound (suc s) os rest k f)

    only_later :
        (j : ℕ)
        → is_focused (option_focused o) ≡ false
        → ((k : ℕ) → IsFocusedAt os k → k ≡ j)
        → (k : ℕ) → IsFocusedAt (o ∷ os) k
        → k ≡ suc j
    only_later j off only zero (p, at, on) = absurd (ground arith)
    only_later j off only (suc k) f = ap suc (only k f)

one_complete :
    (s : ℕ) (os : List InteractionOption) (i : ℕ)
    → IsOnlyFrom s os i
    → focused_indices s os ≡ i ∷ []
one_complete s [] i (j, same, (o, at, on), only) = cc
one_complete s (o ∷ os) i (zero, same, (p, at, on), only) =
    let on' : is_focused (option_focused o) ≡ true = ground arith in
    let rest = none_complete (suc s) os (λ k f. absurd (omega (arith, only (suc k) f))) in
    focused_indices-cons_on s o os on' ∙ rw rest (ground arith)
one_complete s (o ∷ os) i (suc j, same, f, only) =
    elim (Bool-cases (is_focused (option_focused o))) [
      | inl on ↦ absurd (omega (arith, only 0 (o, refl, on)))
      | inr off ↦
          focused_indices-cons_off s o os off
          ∙ one_complete (suc s) os i (j, omega arith, f, λ k g. omega (arith, only (suc k) g))
    ]

only_index_iff : (xs : List ℕ) (path : String) (i : ℕ) → (only_index xs path ≡ ok i) ↔ (xs ≡ i ∷ [])
unfolding only_index
only_index_iff [] path i = (λ e. cc, λ e. cc)
only_index_iff (x ∷ []) path i = (λ e. cc, λ e. cc)
only_index_iff (x ∷ y ∷ xs) path i = (λ e. cc, λ e. cc)

-- The index returned is that of the only focused option; with none or several focused, the
-- interaction is refused.
pub focused_option_index_iff :
    (options : List InteractionOption) (path : List String) (i : ℕ)
    → (focused_option_index options path ≡ ok i)
      ↔ (IsFocusedAt options i × ((k : ℕ) → IsFocusedAt options k → k ≡ i))
unfolding focused_option_index
focused_option_index_iff options path i =
    let (to, from) = only_index_iff (focused_indices 0 options) (join path) i in
    (
      λ e.
          let (j, same, f, only) = one_sound 0 options i (to e) in
          let i≡j : i ≡ j = omega arith in rw i≡j (f, only),
      λ h. from (one_complete 0 options i (i, omega arith, h.0, h.1)),
    )
