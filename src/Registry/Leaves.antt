-- ===== src/Registry/Leaves.antt =====
-- crates/gloam-commands/src/registry.rs, `validate_leaf`: which leaf commands are accepted.
use gloam_macro_commands.Common.{
  is_empty_iff, no_names, collected-Memᴰ, Memᴰ-collected, suc, ◌&&◌, ◌||◌, not_contains,
  contains_iff, Unique, AllFresh, AllFresh-cons, cons-AllFresh, collected, ℕ, ◌≡◌, ◌≢◌, refl, ◌↔◌,
  ◌⊎◌, inl, inr, subst, String, Bool, true, false, not, Option, none, some, List, [], ◌∷◌, Memᴰ,
  map, find, contains, str_eq, All, arith, Bool-cases, Option-cases, is_empty, ◌<>◌, zero,
}
use gloam_macro_commands.Error.{
  ok, guard, seq_iff, guard_iff, >>=-eq-ok, invalid_autocomplete_configuration,
}
use gloam_macro_commands.Discord.{OptionType, string, integer, number}
use gloam_macro_commands.Descriptor.{CommandOptionDescriptor, CommandDescriptor}
use gloam_macro_commands.Command.{AutocompleteHandlerDescriptor, SlashCommandLeaf}
use gloam_macro_commands.Registry.{
  allows_execution, completes, check_handlers, check_options, validate_leaf,
}

-- The handler's option is the first of its name, and it asks for autocomplete.
abbrev pub IsServed :
    {W : Type 0} → List CommandOptionDescriptor → AutocompleteHandlerDescriptor W → Type 0
IsServed options h =
    (o : CommandOptionDescriptor) × (find (λ option. str_eq option.name h.option_name) options
      ≡ some o)
    × (o.autocomplete ≡ true)

-- The kinds that Discord completes.
abbrev pub IsCompletable : OptionType → Type 0
IsCompletable kind = (kind ≡ string) ⊎ (kind ≡ integer) ⊎ (kind ≡ number)

-- An option that asks for autocomplete is of such a kind, has no fixed choices and has a handler.
abbrev pub IsEligible : List String → CommandOptionDescriptor → Type 0
IsEligible names o =
    o.autocomplete ≡ true → IsCompletable o.kind × (o.choices ≡ []) × Memᴰ o.name names

module _ {W : Type 0} where
  abbrev pub handler_names : List (AutocompleteHandlerDescriptor W) → List String
  handler_names = map (λ h. h.option_name)

  pub record IsValidLeaf (d : CommandDescriptor) (l : SlashCommandLeaf W) : Type 0 where
    pub slots : l.policy.max_concurrency ≢ some 0
    pub distinct : Unique (handler_names l.autocomplete)
    pub served : All (IsServed d.options) l.autocomplete
    pub eligible : All (IsEligible (handler_names l.autocomplete)) d.options

  check_handlers-ok :
      (hs : List (AutocompleteHandlerDescriptor W)) (options : List CommandOptionDescriptor)
      (path : String) (seen : List String) {names : List String}
      → check_handlers hs options path seen ≡ ok names
      → names ≡ collected (handler_names hs) seen
  unfolding check_handlers
  check_handlers-ok [] options path seen e = ground arith
  check_handlers-ok (h ∷ hs) options path seen {names} e =
      ground (arith, check_handlers-ok hs options path (h.option_name ∷ seen) {names = names})

  -- What one round of the loop has established when the loop succeeds.
  round_passed :
      (h : AutocompleteHandlerDescriptor W) (hs : List (AutocompleteHandlerDescriptor W))
      (options : List CommandOptionDescriptor) (path : String) (seen names : List String)
      → check_handlers (h ∷ hs) options path seen ≡ ok names
      → (contains seen h.option_name ≡ false)
        × IsServed options h
        × (check_handlers hs options path (h.option_name ∷ seen) ≡ ok names)
  unfolding check_handlers
  round_passed h hs options path seen names e =
      elim (Option-cases (find (λ option. str_eq option.name h.option_name) options)) [
        | inl missing ↦ absurd (ground arith)
        | inr (o, found) ↦ (ground arith, (o, found, ground arith), ground arith)
      ]

  check_handlers_sound :
      (hs : List (AutocompleteHandlerDescriptor W)) (options : List CommandOptionDescriptor)
      (path : String) (seen : List String) {names : List String}
      → check_handlers hs options path seen ≡ ok names
      → Unique (handler_names hs) × AllFresh seen (handler_names hs) × All (IsServed options) hs
  unfolding check_handlers
  check_handlers_sound [] options path seen e = (tt, tt, tt)
  check_handlers_sound (h ∷ hs) options path seen {names} e =
      let (fresh, served, rest) = round_passed h hs options path seen names e in
      let (unique, below, all_served) =
        check_handlers_sound hs options path (h.option_name ∷ seen) {names = names} rest in
      let (below', absent) = AllFresh-cons h.option_name seen (handler_names hs) below in
      (
        (absent, unique),
        (λ m. cc (fresh, (contains_iff seen h.option_name).1 m), below'),
        (served, all_served),
      )

  check_handlers_complete :
      (hs : List (AutocompleteHandlerDescriptor W)) (options : List CommandOptionDescriptor)
      (path : String) (seen : List String)
      → Unique (handler_names hs)
      → AllFresh seen (handler_names hs)
      → All (IsServed options) hs
      → check_handlers hs options path seen ≡ ok (collected (handler_names hs) seen)
  unfolding check_handlers
  check_handlers_complete [] options path seen u f s = refl
  check_handlers_complete (h ∷ hs) options path seen (absent, u) (fresh, f) ((o, found, on), s) =
      let rest =
        check_handlers_complete hs options path (h.option_name ∷ seen) u
          (cons-AllFresh h.option_name seen (handler_names hs) f absent) s in
      rw (not_contains seen h.option_name fresh, found, on) rest

completes_iff : (kind : OptionType) → (completes kind ≡ true) ↔ IsCompletable kind
completes_iff kind = ground arith

-- The test on one option, as the loop makes it.
abbrev option_test : List String → CommandOptionDescriptor → Bool
option_test names o =
    not o.autocomplete || (completes o.kind && is_empty o.choices && contains names o.name)

option_test_iff :
    (names : List String) (o : CommandOptionDescriptor)
    → (option_test names o ≡ true) ↔ IsEligible names o
option_test_iff names o =
    let (k, k') = completes_iff o.kind in
    let (c, c') = is_empty_iff o.choices in
    let (m, m') = contains_iff names o.name in
    (
      λ e on. (k (ground arith), c (ground arith), m (ground arith)),
      λ h. elim (Bool-cases o.autocomplete) [
        | inl on ↦ let (a, b, n) = h on in ground (arith, k' a, c' b, m' n)
        | inr off ↦ rw off
      ],
    )

check_options_iff :
    (os : List CommandOptionDescriptor) (path : String) (names : List String)
    → (check_options os path names ≡ ok tt) ↔ All (IsEligible names) os
unfolding check_options
check_options_iff [] path names = (λ _. tt, λ _. refl)
check_options_iff (o ∷ os) path names =
    let e = invalid_autocomplete_configuration (path <> " " <> o.name) in
    let (s, s') = seq_iff (guard (option_test names o) e) (check_options os path names) tt in
    let (g, g') = guard_iff (option_test names o) e in
    let (t, t') = option_test_iff names o in
    let (r, r') = check_options_iff os path names in
    (λ h. (t (g (s h).0), r (s h).1), λ h. s' (g' (t' h.0), r' h.1))

IsEligible-mono :
    (names others : List String) (os : List CommandOptionDescriptor)
    → ((n : String) → Memᴰ n names → Memᴰ n others)
    → All (IsEligible names) os
    → All (IsEligible others) os
IsEligible-mono names others [] f h = tt
IsEligible-mono names others (o ∷ os) f (h, hs) =
    (λ on. let (k, c, m) = h on in (k, c, f o.name m), IsEligible-mono names others os f hs)

allows_execution_iff : (limit : Option ℕ) → (allows_execution limit ≡ true) ↔ (limit ≢ some 0)
allows_execution_iff none = (λ _ e. cc, λ _. refl)
allows_execution_iff (some zero) = (λ e. cc, λ h. absurd (h refl))
allows_execution_iff (some (suc n)) = (λ _ e. cc, λ _. refl)

-- A leaf is accepted exactly if its concurrency limit is not zero, its autocomplete handlers have
-- distinct names and each serves an option that asks for autocomplete, and every such option has
-- a completable kind, no fixed choices and a handler.
pub validate_leaf_iff :
    {W : Type 0} (d : CommandDescriptor) (l : SlashCommandLeaf W) (path : String)
    → (validate_leaf d l path ≡ ok tt) ↔ IsValidLeaf d l
unfolding validate_leaf
validate_leaf_iff d l path = (to, from)
  where
    in_names :
        (found : List String)
        → found ≡ collected (handler_names l.autocomplete) []
        → (n : String) → Memᴰ n found
        → Memᴰ n (handler_names l.autocomplete)
    in_names found same n m =
        elim (collected-Memᴰ n (handler_names l.autocomplete) [] (subst (Memᴰ n) same m)) [
          | inl h ↦ h
          | inr h ↦ elim h [ ]
        ]

    to : validate_leaf d l path ≡ ok tt → IsValidLeaf d l
    to e =
        let (allowed, e₁) = (seq_iff _ _ tt).0 e in
        let (found, handled, e₂) =
          >>=-eq-ok (check_handlers l.autocomplete d.options path []) _ e₁ in
        let (distinct, fresh, served) =
          check_handlers_sound l.autocomplete d.options path [] {names = found} handled in
        record {
          slots = (allows_execution_iff l.policy.max_concurrency).0 ((guard_iff _ _).0 allowed);
          distinct = distinct;
          served = served;
          eligible =
              IsEligible-mono found (handler_names l.autocomplete) d.options
                (in_names found
                  (check_handlers-ok l.autocomplete d.options path [] {names = found} handled))
                ((check_options_iff d.options path found).0 e₂);
        }

    from : IsValidLeaf d l → validate_leaf d l path ≡ ok tt
    from h =
        let names = collected (handler_names l.autocomplete) [] in
        let handled =
          check_handlers_complete l.autocomplete d.options path [] h.distinct
            (no_names (handler_names l.autocomplete)) h.served in
        let completed = (check_options_iff d.options path names).1 (
          IsEligible-mono (handler_names l.autocomplete) names d.options
            (λ n m. Memᴰ-collected n (handler_names l.autocomplete) [] (inl m)) h.eligible) in
        rw ((allows_execution_iff l.policy.max_concurrency).1 h.slots, handled) completed
