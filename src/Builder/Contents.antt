-- ===== src/Builder/Contents.antt =====
-- crates/gloam-commands/src/framework.rs, `FrameworkBuilder::build`: which sets of commands make a
-- framework, and what its registry holds.
use gloam_macro_commands.Common.{
  ℕ, zero, suc, ◌-◌, ◌≤◌, ◌≡◌, refl, sym, ap, ◌∙◌, subst, ◌↔◌, inl, inr, arith, String, true, false,
  none, some, List, [], ◌∷◌, map, Memᴰ, All, Unique, str_eq, eq_iff, eq_refl, Bool-cases,
}
use gloam_macro_commands.Error.{ok, ◌>>=◌, >>=-eq-ok}
use gloam_macro_commands.Command.{SlashCommand, command_name}
use gloam_macro_commands.Registry.{CommandRegistry, new, insert, get}
use gloam_macro_commands.Registry.Hierarchy.{IsValidCommand}
use gloam_macro_commands.Registry.Ordering.{
  IsWellFormed, new-IsWellFormed, insert-IsWellFormed, get-insert, insert_iff,
}
use gloam_macro_commands.Dispatch.{Framework}
use gloam_macro_commands.Builder.{FrameworkBuilder, insert_all, build}

module _ {W : Type 0} where
  -- What a registry built from `r` and `cs` holds.
  pub record Holds (r : CommandRegistry W) (cs : List (SlashCommand W)) (r' : CommandRegistry W)
      : Type 0 where
    pub well_formed : IsWellFormed r'
    pub added :
        (c : SlashCommand W) → Memᴰ c cs → IsValidCommand c × (get r' (command_name c) ≡ some c)
    pub kept : (name : String) (d : SlashCommand W) → get r name ≡ some d → get r' name ≡ some d

  insert-kept :
      (r : CommandRegistry W) (c : SlashCommand W) (r' : CommandRegistry W)
      → insert r c ≡ ok r'
      → (name : String) (d : SlashCommand W) → get r name ≡ some d
      → get r' name ≡ some d
  insert-kept r c r' e name d g =
      let now = get-insert r c r' name e in
      let vacant : get r (command_name c) ≡ none = ((insert_iff r c).0 (r', e)).1 in
      elim (Bool-cases (str_eq (command_name c) name)) [
        | inl same ↦
            let n = (eq_iff (command_name c) name).0 same in
            let absent : get r name ≡ none = subst (λ k. get r k ≡ none) n vacant in
            absurd (ground arith)
        | inr other ↦ ground arith
      ]

  insert_all-Holds :
      (r : CommandRegistry W) (cs : List (SlashCommand W)) (r' : CommandRegistry W)
      → IsWellFormed r
      → insert_all r cs ≡ ok r'
      → Holds r cs r'
  unfolding insert_all
  insert_all-Holds r [] r' h e =
      let same : r ≡ r' = cc in
      subst (Holds r []) same
        (record { well_formed = h; added = λ c m. elim m [ ]; kept = λ name d g. g })
  insert_all-Holds r (c ∷ cs) r' h e =
      let (mid, first, rest) = >>=-eq-ok (insert r c) (λ s. insert_all s cs) e in
      let below = insert_all-Holds mid cs r' (insert-IsWellFormed r c mid h first) rest in
      let here : get mid (command_name c) ≡ some c =
        get-insert r c mid (command_name c) first ∙ rw (eq_refl (command_name c)) in
      record {
        well_formed = below.well_formed;
        added = λ d m. elim m [
          | Memᴰ.head same ↦
              let valid : IsValidCommand c = ((insert_iff r c).0 (mid, first)).0 in
              subst (λ x. IsValidCommand x × (get r' (command_name x) ≡ some x)) (sym same)
                (valid, below.kept (command_name c) c here)
          | Memᴰ.tail n ↦ below.added d n
        ];
        kept = λ name d g. below.kept name d (insert-kept r c mid first name d g);
      }

  abbrev Vacant : CommandRegistry W → List (SlashCommand W) → Type 0
  Vacant r = All (λ c. get r (command_name c) ≡ none)

  Vacant-insert :
      (r : CommandRegistry W) (c : SlashCommand W) (mid : CommandRegistry W)
      → insert r c ≡ ok mid
      → (cs : List (SlashCommand W))
      → Vacant mid cs ↔ ((¬ Memᴰ (command_name c) (map command_name cs)) × Vacant r cs)
  Vacant-insert r c mid e [] = (λ v. (λ m. elim m [ ], tt), λ h. tt)
  Vacant-insert r c mid e (d ∷ cs) =
      let now = get-insert r c mid (command_name d) e in
      let vacant : get r (command_name c) ≡ none = ((insert_iff r c).0 (mid, e)).1 in
      let (to, from) = Vacant-insert r c mid e cs in
      let step : (get mid (command_name d) ≡ none)
          ↔ ((str_eq (command_name c) (command_name d) ≡ false) × (get r (command_name d) ≡ none)) =
        ground arith in
      (
        λ v.
            let (fresh, free) = step.0 v.0 in
            let (absent, rest) = to v.1 in
            (
              λ m. elim m [
                | Memᴰ.head same ↦
                    let t : str_eq (command_name c) (command_name d) ≡ true = (eq_iff _ _).1 same in
                    cc
                | Memᴰ.tail n ↦ absent n
              ],
              (free, rest),
            ),
        λ h.
            let fresh : str_eq (command_name c) (command_name d) ≡ false =
              elim (Bool-cases (str_eq (command_name c) (command_name d))) [
                | inl same ↦ absurd (h.0 (Memᴰ.head ((eq_iff _ _).0 same)))
                | inr other ↦ other
              ] in
            (step.1 (fresh, h.1.0), from (λ n. h.0 (Memᴰ.tail n), h.1.1)),
      )

  insert_all_iff :
      (r : CommandRegistry W) (cs : List (SlashCommand W))
      → ((r' : CommandRegistry W) × (insert_all r cs ≡ ok r'))
        ↔ (All IsValidCommand cs × Unique (map command_name cs) × Vacant r cs)
  unfolding insert_all
  insert_all_iff r [] = (λ h. (tt, tt, tt), λ h. (r, refl))
  insert_all_iff r (c ∷ cs) = (
    λ (r', e).
        let (mid, first, rest) = >>=-eq-ok (insert r c) (λ s. insert_all s cs) e in
        let (valid, free) = (insert_iff r c).0 (mid, first) in
        let (valids, unique, vacants) = (insert_all_iff mid cs).0 (r', rest) in
        let (absent, frees) = (Vacant-insert r c mid first cs).0 vacants in
        ((valid, valids), (absent, unique), (free, frees)),
    λ (valid, unique, free).
        let (mid, first) = (insert_iff r c).1 (valid.0, free.0) in
        let vacants = (Vacant-insert r c mid first cs).1 (unique.0, free.1) in
        let (r', rest) = (insert_all_iff mid cs).1 (valid.1, unique.1, vacants) in
        (r', rw first rest),
  )

  new-Vacant : (cs : List (SlashCommand W)) → Vacant new cs
  unfolding new get
  new-Vacant [] = tt
  new-Vacant (c ∷ cs) = (refl, new-Vacant cs)

  -- The framework that a builder makes, over the registry that it filled.
  abbrev pub built : FrameworkBuilder W → ℕ → CommandRegistry W → Framework W
  built b slots registry = record {
    registry = registry;
    registration = b.registration;
    max_concurrent_commands = b.max_concurrent_commands;
    command_slots = slots;
    before_hooks = b.before_hooks;
    after_hooks = b.after_hooks;
    error_handler = b.error_handler;
  }

  build_limit :
      (b : FrameworkBuilder W) (slots limit : ℕ)
      → b.max_concurrent_commands ≡ suc limit
      → build b slots ≡ (insert_all new b.commands >>= λ registry. ok (built b slots registry))
  unfolding build
  build_limit b slots limit z = rw z

  pub build_ok :
      (b : FrameworkBuilder W) (slots : ℕ) (f : Framework W)
      → build b slots ≡ ok f
      → (1 ≤ b.max_concurrent_commands)
        × (registry : CommandRegistry W) × (insert_all new b.commands ≡ ok registry)
        × (built b slots registry ≡ f)
  unfolding build
  build_ok b slots f e = by_limit b.max_concurrent_commands refl
    where
      by_limit :
          (limit : ℕ)
          → b.max_concurrent_commands ≡ limit
          → (1 ≤ b.max_concurrent_commands)
            × (registry : CommandRegistry W) × (insert_all new b.commands ≡ ok registry)
            × (built b slots registry ≡ f)
      by_limit zero z = absurd (ground arith)
      by_limit (suc n) z =
          let (registry, filled, same) =
            >>=-eq-ok (insert_all new b.commands) (λ registry. ok (built b slots registry))
              (sym (build_limit b slots n z) ∙ e) in
          (ground arith, registry, filled, cc)

  -- A builder makes a framework exactly if it allows at least one command at a time, every command
  -- is an accepted tree and no two commands share a name.
  pub build_iff :
      (b : FrameworkBuilder W) (slots : ℕ)
      → ((f : Framework W) × (build b slots ≡ ok f)) ↔ (
          (1 ≤ b.max_concurrent_commands)
          × All IsValidCommand b.commands
          × Unique (map command_name b.commands))
  build_iff b slots = (
    λ (f, e).
        let (limit, registry, filled, same) = build_ok b slots f e in
        let (valid, unique, free) = (insert_all_iff new b.commands).0 (registry, filled) in
        (limit, valid, unique),
    λ (limit, valid, unique).
        let (registry, filled) =
          (insert_all_iff new b.commands).1 (valid, unique, new-Vacant b.commands) in
        (
          built b slots registry,
          build_limit b slots (b.max_concurrent_commands - 1) (omega arith) ∙ rw filled,
        ),
  )

  -- The framework made keeps the builder's settings, and its registry is well formed and holds every
  -- command of the builder under its name.
  pub build-Holds :
      (b : FrameworkBuilder W) (slots : ℕ) (f : Framework W)
      → build b slots ≡ ok f
      → (f ≡ built b slots f.registry) × Holds new b.commands f.registry
  build-Holds b slots f e =
      let (limit, registry, filled, same) = build_ok b slots f e in
      let named : registry ≡ f.registry = ap (λ g. g.registry) same in
      (
        sym (subst (λ r. built b slots r ≡ f) named same),
        insert_all-Holds new b.commands f.registry new-IsWellFormed (filled ∙ ap ok named),
      )
