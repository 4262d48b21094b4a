-- ===== src/Registration/Published.antt =====
-- crates/gloam-commands/src/registration.rs, `create_commands` and `Registration::synchronize`: what
-- of a registry is published.
use gloam_macro_commands.Common.{
  ◌≡◌, sym, ap, ◌∙◌, subst, ◌↔◌, String, true, some, List, [], ◌∷◌, Memᴰ, All-Memᴰ, Memᴰ-map,
  Memᴰ-map-inverse, arith, str_eq, eq_iff, eq_refl, str_ltb, str_ltb_irrefl, Bool-cases, inl, inr,
}
use gloam_macro_commands.Command.{SlashCommand, command_name}
use gloam_macro_commands.Registry.{CommandRegistry, lookup, get, iter}
use gloam_macro_commands.Registry.Ordering.{IsSorted, IsEntry, IsWellFormed}
use gloam_macro_commands.Registration.{CreateCommand, create_command, create_commands}

module _ {W : Type 0} where
  lookup-Memᴰ :
      (m : List (String × SlashCommand W)) (e : String × SlashCommand W)
      → IsSorted m
      → Memᴰ e m
      → lookup e.0 m ≡ some e.1
  unfolding lookup
  lookup-Memᴰ [] e s m = elim m [ ]
  lookup-Memᴰ ((key, c) ∷ rest) e s (Memᴰ.head h) = rw (h, eq_refl key)
  lookup-Memᴰ ((key, c) ∷ rest) e s (Memᴰ.tail m) =
      let above : str_ltb key e.0 ≡ true = All-Memᴰ (λ x. str_ltb key x.0 ≡ true) rest s.0 m in
      elim (Bool-cases (str_eq key e.0)) [
        | inl same ↦
            let below : str_ltb e.0 e.0 ≡ true =
              subst (λ k. str_ltb k e.0 ≡ true) ((eq_iff key e.0).0 same) above in
            absurd (ground (arith, str_ltb_irrefl e.0))
        | inr other ↦ rw other (lookup-Memᴰ rest e s.1 m)
      ]

  lookup_sound :
      (m : List (String × SlashCommand W)) (name : String) {c : SlashCommand W}
      → lookup name m ≡ some c
      → Memᴰ (name, c) m
  unfolding lookup
  lookup_sound [] name h = cc
  lookup_sound ((key, d) ∷ rest) name h = elim (Bool-cases (str_eq key name)) [
    | inl same ↦ Memᴰ.head (let e = (eq_iff key name).0 same in ground arith)
    | inr other ↦ Memᴰ.tail (lookup_sound rest name (ground arith))
  ]

  -- A well-formed registry publishes exactly the commands that dispatch finds in it, under their names.
  pub create_commands_iff :
      (r : CommandRegistry W) (x : CreateCommand)
      → IsWellFormed r
      → Memᴰ x (create_commands r)
        ↔ ((c : SlashCommand W) × (get r x.name ≡ some c) × (x ≡ create_command c))
  unfolding create_commands get iter
  create_commands_iff r x h = (found, listed)
    where
      entry_found :
          (entry : String × SlashCommand W)
          → Memᴰ entry r.commands
          → (c : SlashCommand W) → c ≡ entry.1
          → x ≡ create_command c
          → (c : SlashCommand W) × (get r x.name ≡ some c) × (x ≡ create_command c)
      entry_found (key, d) at c same e =
          let is_entry : key ≡ command_name d = (All-Memᴰ IsEntry r.commands h.entries at).0 in
          let named : x.name ≡ key = ap (λ y. y.name) e ∙ (ap command_name same ∙ sym is_entry) in
          (
            d,
            subst (λ n. get r n ≡ some d) (sym named) (lookup-Memᴰ r.commands (key, d) h.sorted at),
            e ∙ ap create_command same,
          )

      found :
          Memᴰ x (create_commands r)
          → (c : SlashCommand W) × (get r x.name ≡ some c) × (x ≡ create_command c)
      found m =
          let (c, n, e) = Memᴰ-map-inverse create_command (iter r) m in
          let (entry, at, same) = Memᴰ-map-inverse (λ e. e.1) r.commands n in
          entry_found entry at c same e

      listed :
          ((c : SlashCommand W) × (get r x.name ≡ some c) × (x ≡ create_command c))
          → Memᴰ x (create_commands r)
      listed (c, e, same) =
          subst (λ y. Memᴰ y (create_commands r)) (sym same)
            (Memᴰ-map create_command (Memᴰ-map (λ e. e.1) (lookup_sound r.commands x.name e)))
