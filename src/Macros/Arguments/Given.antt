-- ===== src/Macros/Arguments/Given.antt =====
-- Which arguments `#[command(..)]` accepts, and what it makes of them, whatever their order.
use gloam_macro_commands.Common.{
  ℕ, Distinct, Distinct-snoc, Distinct-middle, subst, ap, ◌∙◌, ◌||◌, String, true, false, ◌≡◌, refl,
  sym, ◌↔◌, inl, inr, Option, none, some, List, [], ◌∷◌, ◌++◌, map, Memᴰ, arith, contains,
  contains_iff, Bool-cases,
}
use mathlib.Core.List.{append-nil, append_assoc, map-append}
use gloam_macro_commands.Macros.Syntax.{ok, err, Segments, Expr, Result-cases}
use gloam_macro_commands.Macros.Stream.{add_all}
use gloam_macro_commands.Macros.Arguments.{
  CommandContext, CommandArgs, CommandArgument, name_arg, description_arg, check_arg, context_arg,
  guild_only_arg, member_permissions_arg, bot_permissions_arg, cooldown_arg, max_concurrency_arg,
  contains_context, same_command_context, same_command_context_iff, path_display,
  add_command_argument,
}

-- The values of one key, in order.
abbrev pub select {ℓ κ} : {A : Type ℓ} {B : Type κ} → (A → Option B) → List A → List B
select f [] = []
select f (a ∷ rest) = elim (f a) [ none ↦ select f rest | some b ↦ b ∷ select f rest ]

abbrev pub given_name : CommandArgument → Option String
given_name (name_arg v) = some v
given_name _ = none

abbrev pub given_description : CommandArgument → Option String
given_description (description_arg v) = some v
given_description _ = none

abbrev pub given_check : CommandArgument → Option Segments
given_check (check_arg v) = some v
given_check _ = none

abbrev pub given_context : CommandArgument → Option CommandContext
given_context (context_arg v) = some v
given_context _ = none

abbrev pub given_guild_only : CommandArgument → Option (Unit {0})
given_guild_only guild_only_arg = some tt
given_guild_only _ = none

abbrev pub given_member_permissions : CommandArgument → Option Expr
given_member_permissions (member_permissions_arg v) = some v
given_member_permissions _ = none

abbrev pub given_bot_permissions : CommandArgument → Option Expr
given_bot_permissions (bot_permissions_arg v) = some v
given_bot_permissions _ = none

abbrev pub given_cooldown : CommandArgument → Option ℕ
given_cooldown (cooldown_arg v) = some v
given_cooldown _ = none

abbrev pub given_max_concurrency : CommandArgument → Option ℕ
given_max_concurrency (max_concurrency_arg v) = some v
given_max_concurrency _ = none

-- A slot that holds `slot` and is given the values `vs` ends as `r`: it takes one value at most.
abbrev pub IsFilled : {A : Type 0} → Option A → List A → Option A → Type 0
IsFilled slot [] r = r ≡ slot
IsFilled none (v ∷ vs) r = (vs ≡ []) × (r ≡ some v)
IsFilled (some w) (v ∷ vs) r = ⊥

IsFilled-some :
    {A : Type 0} (v : A) (vs : List A) (r : Option A)
    → IsFilled (some v) vs r ↔ IsFilled none (v ∷ vs) r
IsFilled-some v [] r = (λ e. (refl, e), λ h. h.1)
IsFilled-some v (w ∷ vs) r = (λ h. absurd h, λ h. cc)

-- What the arguments leave of a state: single values, and lists without repetition.
pub record Leaves (a : CommandArgs) (given : List CommandArgument) (r : CommandArgs) : Type 0 where
  pub name : IsFilled a.name (select given_name given) r.name
  pub description : IsFilled a.description (select given_description given) r.description
  pub checks : r.checks ≡ a.checks ++ select given_check given
  pub distinct_checks : Distinct (map path_display r.checks)
  pub contexts : r.contexts ≡ a.contexts ++ select given_context given
  pub distinct_contexts : Distinct r.contexts
  pub guild_only : IsFilled a.guild_only (select given_guild_only given) r.guild_only
  pub member_permissions :
      IsFilled a.member_permissions (select given_member_permissions given) r.member_permissions
  pub bot_permissions :
      IsFilled a.bot_permissions (select given_bot_permissions given) r.bot_permissions
  pub cooldown : IsFilled a.cooldown_seconds (select given_cooldown given) r.cooldown_seconds
  pub max_concurrency :
      IsFilled a.max_concurrency (select given_max_concurrency given) r.max_concurrency

abbrev pub IsDistinct : CommandArgs → Type 0
IsDistinct a = Distinct (map path_display a.checks) × Distinct a.contexts

-- What the argument does to the state, where it is accepted.
accepted :
    (a b : CommandArgs) (x : CommandArgument) (rest : List CommandArgument) (r : CommandArgs)
    → add_command_argument a x ≡ ok b
    → Leaves b rest r ↔ Leaves a (x ∷ rest) r
unfolding add_command_argument
accepted a b (name_arg v) rest r e = ground (arith, IsFilled-some v (select given_name rest) r.name)
accepted a b (description_arg v) rest r e =
    ground (arith, IsFilled-some v (select given_description rest) r.description)
accepted a b guild_only_arg rest r e =
    ground (arith, IsFilled-some tt (select given_guild_only rest) r.guild_only)
accepted a b (member_permissions_arg v) rest r e =
    ground (arith, IsFilled-some v (select given_member_permissions rest) r.member_permissions)
accepted a b (bot_permissions_arg v) rest r e =
    ground (arith, IsFilled-some v (select given_bot_permissions rest) r.bot_permissions)
accepted a b (cooldown_arg v) rest r e =
    ground (arith, IsFilled-some v (select given_cooldown rest) r.cooldown_seconds)
accepted a b (max_concurrency_arg v) rest r e =
    ground (arith, IsFilled-some v (select given_max_concurrency rest) r.max_concurrency)
accepted a b (check_arg path) rest r e =
    ground (arith, append_assoc a.checks (path ∷ []) (select given_check rest))
accepted a b (context_arg c) rest r e =
    ground (arith, append_assoc a.contexts (c ∷ []) (select given_context rest))

contains_context_iff :
    (seen : List CommandContext) (c : CommandContext)
    → (contains_context seen c ≡ true) ↔ Memᴰ c seen
unfolding contains_context
contains_context_iff [] c = (λ e. cc, λ m. elim m [ ])
contains_context_iff (d ∷ seen) c =
    (to (contains_context_iff seen c).0, from (contains_context_iff seen c).1)
  where
    to :
        (contains_context seen c ≡ true → Memᴰ c seen)
        → (same_command_context d c || contains_context seen c) ≡ true
        → Memᴰ c (d ∷ seen)
    to ih e = elim (Bool-cases (same_command_context d c)) [
      | inl same ↦ Memᴰ.head (sym ((same_command_context_iff d c).0 same))
      | inr other ↦ Memᴰ.tail (ih (ground arith))
    ]

    from :
        (Memᴰ c seen → contains_context seen c ≡ true)
        → Memᴰ c (d ∷ seen)
        → (same_command_context d c || contains_context seen c) ≡ true
    from ih (Memᴰ.head e) = ground (arith, same_command_context_iff d c)
    from ih (Memᴰ.tail m) = ground (arith, ih m)

-- A path or a context that was given before cannot be given again.
repeated_check :
    (a r : CommandArgs) (path : Segments) (rest : List CommandArgument)
    → contains (map path_display a.checks) (path_display path) ≡ true
    → Leaves a (check_arg path ∷ rest) r
    → ⊥
repeated_check a r path rest seen h =
    Distinct-middle (map path_display a.checks) (map path_display (select given_check rest))
      (path_display path)
      (subst Distinct (ap (map path_display) h.checks ∙ map-append _ a.checks _) h.distinct_checks)
      ((contains_iff _ _).0 seen)

repeated_context :
    (a r : CommandArgs) (c : CommandContext) (rest : List CommandArgument)
    → contains_context a.contexts c ≡ true
    → Leaves a (context_arg c ∷ rest) r
    → ⊥
repeated_context a r c rest seen h =
    Distinct-middle a.contexts (select given_context rest) c
      (subst Distinct h.contexts h.distinct_contexts) ((contains_context_iff _ _).0 seen)

-- An argument that is refused leaves nothing.
refused :
    (a : CommandArgs) (x : CommandArgument) (rest : List CommandArgument) (r : CommandArgs)
    (m : String)
    → add_command_argument a x ≡ err m
    → Leaves a (x ∷ rest) r
    → ⊥
unfolding add_command_argument
refused a (check_arg path) rest r m e h = repeated_check a r path rest (ground arith) h
refused a (context_arg c) rest r m e h = repeated_context a r c rest (ground arith) h
refused a x rest r m e h = ground arith

new_check :
    (checks : List Segments) (path : Segments)
    → contains (map path_display checks) (path_display path) ≡ false
    → Distinct (map path_display checks)
    → Distinct (map path_display (checks ++ path ∷ []))
new_check checks path fresh d = subst Distinct (sym (map-append path_display checks (path ∷ []))) (
    Distinct-snoc (map path_display checks) (path_display path) d
      (λ m. cc (fresh, (contains_iff (map path_display checks) (path_display path)).1 m)))

new_context :
    (contexts : List CommandContext) (c : CommandContext)
    → contains_context contexts c ≡ false
    → Distinct contexts
    → Distinct (contexts ++ c ∷ [])
new_context contexts c fresh d =
    Distinct-snoc contexts c d (λ m. cc (fresh, (contains_context_iff contexts c).1 m))

kept :
    (a b : CommandArgs) (x : CommandArgument)
    → add_command_argument a x ≡ ok b
    → IsDistinct a
    → IsDistinct b
unfolding add_command_argument
kept a b (check_arg path) e h = ground (arith, new_check a.checks path (ground arith) h.0)
kept a b (context_arg c) e h = ground (arith, new_context a.contexts c (ground arith) h.1)
kept a b x e h = ground arith

pub add_all-Leaves :
    (given : List CommandArgument) (a r : CommandArgs)
    → IsDistinct a
    → (add_all add_command_argument a given ≡ ok r) ↔ Leaves a given r
unfolding add_all
add_all-Leaves [] a r d = ground (arith, append-nil a.checks, append-nil a.contexts)
add_all-Leaves (x ∷ rest) a r d = elim (Result-cases (add_command_argument a x)) [
  | inl (b, e) ↦
      let (to, from) = add_all-Leaves rest b r (kept a b x e d) in
      let (out, back) = accepted a b x rest r e in
      (λ h. out (to (ground arith)), λ h. ground (arith, from (back h)))
  | inr (m, e) ↦ (λ h. absurd (ground arith), λ h. absurd (refused a x rest r m e h))
]
