-- ===== src/Macros/Arguments/Parsing.antt =====
-- `#[command(..)]` parses its arguments in any order, without repeated ones.
use gloam_macro_commands.Common.{
  ℕ, ◌≤◌, ◌<◌, true, ◌≡◌, ◌≢◌, refl, ◌↔◌, inl, inr, Option, none, some, List, [], arith, is_some,
  is_empty, not, ◌&&◌, sym, subst, ap, ◌∷◌,
}
use gloam_macro_commands.Macros.Syntax.{
  Result, ok-injective, Result-cases, err, ok, >>=-eq-ok, seq_iff, guard_iff, Ident,
}
use gloam_macro_commands.Macros.Stream.{ParseStream, Advances, parse_arguments}
use gloam_macro_commands.Macros.Stream.Reading.{
  parse_value-advances, Answers, Holds, Holds-imp, parse_arguments_iff, parse_arguments-Holds,
  parse_arguments-returns,
}
use gloam_macro_commands.Macros.Arguments.{
  CommandContext, CommandArgs, CommandArgument, name_arg, description_arg, member_permissions_arg,
  bot_permissions_arg, make_check, make_context, make_cooldown, make_max_concurrency, read_value,
  read_key, read_command_argument, add_command_argument, empty_args, exclude_contexts, finish_args,
  parse_command_args,
}
use gloam_macro_commands.Macros.Arguments.Given.{Leaves, add_all-Leaves}
use gloam_macro_commands.Macros.Arguments.Keys.{Reads}
use gloam_macro_commands.Macros.Arguments.Readings.{
  read_command_argument-Reads, Reads-read_command_argument,
}

finish_args-returns :
    (x : Option (Result CommandArgs)) → is_some x ≡ true → is_some (finish_args x) ≡ true
unfolding finish_args
finish_args-returns none e = e
finish_args-returns (some r) e = refl

exclusive_iff :
    (g : Option (Unit {0})) (cs : List CommandContext)
    → (not (is_some g && not (is_empty cs)) ≡ true) ↔ (g ≢ none → cs ≡ [])
exclusive_iff none cs = (λ _ h. absurd (h refl), λ _. refl)
exclusive_iff (some tt) [] = (λ _ _. refl, λ _. refl)
exclusive_iff (some tt) (c ∷ cs) = (λ e. cc, λ h. let none_left : c ∷ cs ≡ [] = h (λ e. cc) in cc)

exclude_contexts_iff :
    (a r : CommandArgs)
    → (exclude_contexts a ≡ ok r) ↔ ((a ≡ r) × (r.guild_only ≢ none → r.contexts ≡ []))
unfolding exclude_contexts
exclude_contexts_iff a r =
    let (to, from) = exclusive_iff a.guild_only a.contexts in
    let (passed, guarded) = guard_iff (not (is_some a.guild_only && not (is_empty a.contexts))) _ in
    (
      λ e.
          let (test, same) = (seq_iff _ (ok a) r).0 e in
          let equal : a ≡ r = ok-injective same in
          (equal, subst (λ x. x.guild_only ≢ none → x.contexts ≡ []) equal (to (passed test))),
      λ (equal, exclusive). (seq_iff _ (ok a) r).1 (
        guarded (from (subst (λ x. x.guild_only ≢ none → x.contexts ≡ []) (sym equal) exclusive)),
        ap ok equal,
      ),
    )

finish_args_iff :
    (x : Option (Result CommandArgs)) (r : CommandArgs)
    → (finish_args x ≡ some (ok r)) ↔ ((x ≡ some (ok r)) × (r.guild_only ≢ none → r.contexts ≡ []))
unfolding finish_args
finish_args_iff none r = (λ e. cc, λ h. cc)
finish_args_iff (some (err m)) r = (λ e. cc, λ h. cc)
finish_args_iff (some (ok a)) r =
    let (to, from) = exclude_contexts_iff a r in
    (
      λ e. let (same, exclusive) = to (ground arith) in (cc, exclusive),
      λ h. cc (from (ground arith, h.1)),
    )

module _ {S : Type 0} (stream : ParseStream S) (size : S → ℕ)
    (advances : Advances stream size) where
  read_value-advances :
      (key : Ident) (s : S) (a : CommandArgument) (t : S)
      → read_value stream key s ≡ ok (a, t)
      → size t ≤ size s
  unfolding read_value
  read_value-advances key s a t e = ground (
    arith,
    parse_value-advances size (stream.parse_lit_str s) (λ value. ok (name_arg value)) s a t
        (advances.lit_str s),
    parse_value-advances size (stream.parse_lit_str s) (λ value. ok (description_arg value)) s a t
        (advances.lit_str s),
    parse_value-advances size (stream.parse_path s) make_check s a t (advances.path s),
    parse_value-advances size (stream.parse_lit_str s) make_context s a t (advances.lit_str s),
    parse_value-advances size (stream.parse_expr s) (λ value. ok (member_permissions_arg value)) s a
        t (advances.expr s),
    parse_value-advances size (stream.parse_expr s) (λ value. ok (bot_permissions_arg value)) s a t
        (advances.expr s),
    parse_value-advances size (stream.parse_lit_int s) make_cooldown s a t (advances.lit_int s),
    parse_value-advances size (stream.parse_lit_int s) make_max_concurrency s a t
        (advances.lit_int s),
  )

  read_key-advances :
      (key : Ident) (s : S) (a : CommandArgument) (t : S)
      → read_key stream key s ≡ ok (a, t)
      → size t ≤ size s
  unfolding read_key
  read_key-advances key s a t e = elim (Result-cases (stream.parse_eq s)) [
    | inl (u, equals) ↦ ground (arith, advances.eq s u equals, read_value-advances key u a t)
    | inr (m, failed) ↦ ground arith
  ]

  read-advances :
      (s : S) (a : CommandArgument) (t : S)
      → read_command_argument stream s ≡ ok (a, t)
      → size t < size s
  unfolding read_command_argument
  read-advances s a t e =
      let ((key, u), here, rest) = >>=-eq-ok (stream.parse_any s) _ e in
      omega (arith, advances.any s key u here, read_key-advances key u a t rest)

  -- Parsing the arguments of `#[command(..)]` ends: with more fuel than the stream has tokens it
  -- returns, if every parser of the stream advances.
  pub parse_command_args-returns :
      (fuel : ℕ) (s : S) → size s < fuel → is_some (parse_command_args stream fuel s) ≡ true
  unfolding parse_command_args finish_args
  parse_command_args-returns fuel s enough =
      finish_args-returns
        (parse_arguments stream (read_command_argument stream) add_command_argument fuel s
          empty_args)
        (parse_arguments-returns stream (read_command_argument stream) add_command_argument size
          read-advances advances.comma fuel s empty_args enough)

  -- With more fuel than the stream has tokens, and parsers that advance, the arguments are accepted as
  -- a result exactly if the stream holds comma-separated arguments, each a known key with the value
  -- that the key takes, of which every key but `check` and `context` is given at most once, no check
  -- and no context twice, and `guild_only` never beside contexts, and the result has the values
  -- given, the checks and contexts in the order given.
  pub parse_command_args_iff :
      (fuel : ℕ) (s : S) (r : CommandArgs)
      → size s < fuel
      → (parse_command_args stream fuel s ≡ some (ok r)) ↔ (
          (given : List CommandArgument) × Holds stream (Reads stream) s given
          × Leaves empty_args given r
          × (r.guild_only ≢ none → r.contexts ≡ []))
  unfolding parse_command_args
  parse_command_args_iff fuel s r enough =
      let read = read_command_argument stream in
      let (last, first) =
        finish_args_iff (parse_arguments stream read add_command_argument fuel s empty_args) r in
      let (to, from) =
        parse_arguments_iff stream read add_command_argument size read-advances advances.comma fuel
          s empty_args r enough in
      (
        λ e.
            let (run, exclusive) = last e in
            let (given, held, all) = to run in
            let keyed =
              Holds-imp stream (Answers read) (Reads stream) (read_command_argument-Reads stream) s
                given held in
            (given, keyed, (add_all-Leaves given empty_args r (tt, tt)).0 all, exclusive),
        λ (given, keyed, leaves, exclusive).
            let held =
              Holds-imp stream (Reads stream) (Answers read) (Reads-read_command_argument stream) s
                given keyed in
            first (
              from (given, held, (add_all-Leaves given empty_args r (tt, tt)).1 leaves),
              exclusive,
            ),
      )

-- What the stream holds, where the parse succeeds.
pub parse_command_args-Holds :
    {S : Type 0} (stream : ParseStream S) (fuel : ℕ) (s : S) (r : CommandArgs)
    → parse_command_args stream fuel s ≡ some (ok r)
    → (given : List CommandArgument) × Holds stream (Answers (read_command_argument stream)) s given
      × Leaves empty_args given r
unfolding parse_command_args
parse_command_args-Holds stream fuel s r e =
    let (run, _) =
      (finish_args_iff
          (parse_arguments stream (read_command_argument stream) add_command_argument fuel s
            empty_args)
          r).0
        e in
    let (given, held, all) =
      parse_arguments-Holds stream (read_command_argument stream) add_command_argument fuel s
        empty_args r run in
    (given, held, (add_all-Leaves given empty_args r (tt, tt)).0 all)
