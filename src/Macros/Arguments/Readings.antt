-- ===== src/Macros/Arguments/Readings.antt =====
-- crates/gloam-commands-macros/src/command.rs, `CommandArgs::parse`: reading one argument against the
-- relation of the keys.
use gloam_macro_commands.Common.{
  ℕ, ◌<◌, ◌^◌, ◌≡◌, ◌≢◌, refl, sym, ap, subst, ◌∙◌, ◌↔◌, inl, inr, String, Bool, true, false, not,
  ◌&&◌, &&_iff, some, List, [], ◌∷◌, All, all, is_empty, ltb, arith, if◌then◌else◌, str_eq, eq_iff,
  Bool-cases,
}
use gloam_macro_commands.Macros.Syntax.{
  Result, ok, err, or_fail, or_fail-eq-ok, ok-injective, >>=-eq-ok, seq_iff, guard_iff, checked_iff,
  Ident, ident_text, is_ident, Segment, Segments, segments_list, plain_arguments,
}
use gloam_macro_commands.Macros.Stream.{ParseStream, parse_value}
use gloam_macro_commands.Macros.Arguments.{
  CommandContext, guild, bot_dm, private_channel, CommandArgument, name_arg, description_arg,
  check_arg, member_permissions_arg, bot_permissions_arg, cooldown_arg, max_concurrency_arg,
  parse_context, base10_parse_64, validate_handler_path, make_check, make_context, make_cooldown,
  make_max_concurrency, read_value, read_key, read_command_argument,
}
use gloam_macro_commands.Macros.Arguments.Keys.{IsContext, IsHandlerPath, Says, Reads}

all_plain_iff :
    (ss : List Segment)
    → (all (λ s. plain_arguments s.arguments) ss ≡ true)
      ↔ All (λ s. plain_arguments s.arguments ≡ true) ss
all_plain_iff [] = (λ _. tt, λ _. refl)
all_plain_iff (s ∷ ss) =
    let (to, from) = all_plain_iff ss in
    (
      λ e. let (here, rest) = (&&_iff _ _).0 e in (here, to rest),
      λ (here, rest). (&&_iff _ _).1 (here, from rest),
    )

not_empty_iff : (ss : List Segment) → (not (is_empty ss) ≡ true) ↔ (ss ≢ [])
not_empty_iff [] = (λ e. cc, λ h. absurd (h refl))
not_empty_iff (s ∷ ss) = (λ _ e. cc, λ _. refl)

IsHandlerPath-iff :
    (path : Segments) → (validate_handler_path path "check" ≡ ok tt) ↔ IsHandlerPath path
unfolding validate_handler_path
IsHandlerPath-iff path =
    let (passed, guarded) =
      guard_iff
        (not (is_empty (segments_list path))
          && all (λ s. plain_arguments s.arguments) (segments_list path))
        _ in
    let (some_to, some_from) = not_empty_iff (segments_list path) in
    let (plain_to, plain_from) = all_plain_iff (segments_list path) in
    (
      λ e. let (a, b) = (&&_iff _ _).0 (passed e) in (some_to a, plain_to b),
      λ (a, b). guarded ((&&_iff _ _).1 (some_from a, plain_from b)),
    )

parse_context-IsContext :
    (value : String) (c : CommandContext) → parse_context value ≡ ok c → IsContext value c
unfolding parse_context
parse_context-IsContext value guild e = elim (Bool-cases (str_eq value "guild")) [
  | inl same ↦ (eq_iff value "guild").0 same
  | inr other ↦ absurd (ground arith)
]
parse_context-IsContext value bot_dm e = elim (Bool-cases (str_eq value "bot_dm")) [
  | inl same ↦ (eq_iff value "bot_dm").0 same
  | inr other ↦ absurd (ground arith)
]
parse_context-IsContext value private_channel e =
    elim (Bool-cases (str_eq value "private_channel")) [
      | inl same ↦ (eq_iff value "private_channel").0 same
      | inr other ↦ absurd (ground arith)
    ]

IsContext-parse_context :
    (value : String) (c : CommandContext) → IsContext value c → parse_context value ≡ ok c
unfolding parse_context
IsContext-parse_context value guild e = rw e refl
IsContext-parse_context value bot_dm e = rw e refl
IsContext-parse_context value private_channel e = rw e refl

base10_iff : (n m : ℕ) → (base10_parse_64 n ≡ some m) ↔ ((n ≡ m) × (n < 2 ^ 64))
unfolding base10_parse_64
base10_iff n m = ground arith

-- What a parsed value gives.
parsed :
    {S V : Type 0} (r : Result (V × S)) (make : V → Result CommandArgument) (a : CommandArgument)
    (t : S)
    → parse_value r make ≡ ok (a, t)
    → (value : V) × (r ≡ ok (value, t)) × (make value ≡ ok a)
unfolding parse_value
parsed (err m) make a t e = cc
parsed (ok (value, u)) make a t e =
    let (b, made, same) = >>=-eq-ok (make value) _ e in
    (
      value,
      ap (λ p. ok (value, p.1)) (ok-injective same),
      made ∙ ap (λ p. ok p.0) (ok-injective same),
    )

if_cases :
    {A : Type 0} (b : Bool) {x y r : A} {P : Type 0}
    → (b ≡ true → x ≡ r → P)
    → (y ≡ r → P)
    → (if b then x else y) ≡ r
    → P
if_cases true h k e = h refl e
if_cases false h k e = k e

ltb-true : (a b : ℕ) → a < b → ltb a b ≡ true
ltb-true a b h = ground arith

module _ {S : Type 0} (stream : ParseStream S) where
  -- A key of this name says what it says.
  keyed :
      (key : Ident) (name : String) (s : S) (a : CommandArgument) (t : S)
      → is_ident key name ≡ true
      → Says stream s name a t
      → Says stream s (ident_text key) a t
  keyed key name s a t e =
      subst (λ k. Says stream s k a t) (sym ((eq_iff (ident_text key) name).0 e))

  said :
      (s : S) (name : String) (t : S) {a b : CommandArgument}
      → ◌≡◌ {A = Result CommandArgument} (ok a) (ok b)
      → Says stream s name a t
      → Says stream s name b t
  said s name t e = subst (λ a. Says stream s name a t) (ok-injective e)

  check-Says :
      (s : S) (a : CommandArgument) (t : S)
      → parse_value (stream.parse_path s) make_check ≡ ok (a, t)
      → Says stream s "check" a t
  unfolding make_check
  check-Says s a t e =
      let (path, here, made) = parsed (stream.parse_path s) make_check a t e in
      let (valid, same) = (seq_iff _ (ok (check_arg path)) a).0 made in
      said s "check" t same (Says.check_said path t here ((IsHandlerPath-iff path).0 valid))

  context-Says :
      (s : S) (a : CommandArgument) (t : S)
      → parse_value (stream.parse_lit_str s) make_context ≡ ok (a, t)
      → Says stream s "context" a t
  unfolding make_context
  context-Says s a t e =
      let (value, here, made) = parsed (stream.parse_lit_str s) make_context a t e in
      let (context, known, same) = >>=-eq-ok (parse_context value) _ made in
      said s "context" t same
        (Says.context_said value context t here (parse_context-IsContext value context known))

  cooldown-Says :
      (s : S) (a : CommandArgument) (t : S)
      → parse_value (stream.parse_lit_int s) make_cooldown ≡ ok (a, t)
      → Says stream s "cooldown" a t
  unfolding make_cooldown
  cooldown-Says s a t e =
      let (n, here, made) = parsed (stream.parse_lit_int s) make_cooldown a t e in
      let (seconds, read, same) = >>=-eq-ok (or_fail (base10_parse_64 n) _) _ made in
      let (equal, small) = (base10_iff n seconds).0 (or_fail-eq-ok _ _ seconds read) in
      said s "cooldown" t (ap (λ k. ok (cooldown_arg k)) equal ∙ same)
        (Says.cooldown_said n t here small)

  max_concurrency-Says :
      (s : S) (a : CommandArgument) (t : S)
      → parse_value (stream.parse_lit_int s) make_max_concurrency ≡ ok (a, t)
      → Says stream s "max_concurrency" a t
  unfolding make_max_concurrency
  max_concurrency-Says s a t e =
      let (n, here, made) = parsed (stream.parse_lit_int s) make_max_concurrency a t e in
      let (limit, read, guarded) = >>=-eq-ok (or_fail (base10_parse_64 n) _) _ made in
      let (equal, small) = (base10_iff n limit).0 (or_fail-eq-ok _ _ limit read) in
      let (test, same) = (checked_iff _ _ (max_concurrency_arg limit) a).0 guarded in
      let positive : 0 < n = ground arith in
      said s "max_concurrency" t (ap (λ k. ok (max_concurrency_arg k)) equal ∙ ap ok same)
        (Says.max_concurrency_said n t here positive small)

  read_value-Says :
      (key : Ident) (s : S) (a : CommandArgument) (t : S)
      → read_value stream key s ≡ ok (a, t)
      → Says stream s (ident_text key) a t
  unfolding read_value
  read_value-Says key s a t =
      if_cases (is_ident key "name")
        (λ k e.
          let (v, here, same) =
            parsed (stream.parse_lit_str s) (λ value. ok (name_arg value)) a t e in
          keyed key "name" s a t k (said s "name" t same (Says.name_said v t here)))
        (if_cases (is_ident key "description")
          (λ k e.
            let (v, here, same) =
              parsed (stream.parse_lit_str s) (λ value. ok (description_arg value)) a t e in
            keyed key "description" s a t k
              (said s "description" t same (Says.description_said v t here)))
          (if_cases (is_ident key "check") (λ k e. keyed key "check" s a t k (check-Says s a t e))
            (if_cases (is_ident key "context")
              (λ k e. keyed key "context" s a t k (context-Says s a t e))
              (if_cases (is_ident key "member_permissions")
                (λ k e.
                  let (v, here, same) =
                    parsed (stream.parse_expr s) (λ value. ok (member_permissions_arg value)) a t
                      e in
                  keyed key "member_permissions" s a t k
                    (said s "member_permissions" t same (Says.member_permissions_said v t here)))
                (if_cases (is_ident key "bot_permissions")
                  (λ k e.
                    let (v, here, same) =
                      parsed (stream.parse_expr s) (λ value. ok (bot_permissions_arg value)) a t
                        e in
                    keyed key "bot_permissions" s a t k
                      (said s "bot_permissions" t same (Says.bot_permissions_said v t here)))
                  (if_cases (is_ident key "cooldown")
                    (λ k e. keyed key "cooldown" s a t k (cooldown-Says s a t e))
                    (if_cases (is_ident key "max_concurrency")
                      (λ k e. keyed key "max_concurrency" s a t k (max_concurrency-Says s a t e))
                      (λ e. cc))))))))

  pub read_command_argument-Reads :
      (s : S) (a : CommandArgument) (t : S)
      → read_command_argument stream s ≡ ok (a, t)
      → Reads stream s a t
  unfolding read_command_argument read_key
  read_command_argument-Reads s a t e =
      let ((key, u), here, rest) = >>=-eq-ok (stream.parse_any s) _ e in
      if_cases (is_ident key "guild_only")
        (λ k same.
          let pair = ok-injective same in
          subst (λ p. Reads stream s p.0 p.1) pair
            (Reads.bare key u here ((eq_iff (ident_text key) "guild_only").0 k)))
        (λ f.
          let (v, equals, value) = >>=-eq-ok (stream.parse_eq u) _ f in
          Reads.valued key u v t a here equals (read_value-Says key v a t value))
        rest

  -- What a key of this name reads.
  named :
      (key : Ident) (name : String) (v : S) (a : CommandArgument) (t : S)
      → ident_text key ≡ name
      → Says stream v name a t
      → read_value stream key v ≡ ok (a, t)
  unfolding read_value parse_value make_check make_context make_cooldown make_max_concurrency
      base10_parse_64
  named key _ v _ t k (Says.name_said value _ e) = rw (k, e) refl
  named key _ v _ t k (Says.description_said value _ e) = rw (k, e) refl
  named key _ v _ t k (Says.check_said path _ e valid) =
      rw (k, e, (IsHandlerPath-iff path).1 valid) refl
  named key _ v _ t k (Says.context_said value context _ e valid) =
      rw (k, e, IsContext-parse_context value context valid) refl
  named key _ v _ t k (Says.member_permissions_said value _ e) = rw (k, e) refl
  named key _ v _ t k (Says.bot_permissions_said value _ e) = rw (k, e) refl
  named key _ v _ t k (Says.cooldown_said seconds _ e small) =
      rw (k, e, ltb-true seconds (2 ^ 64) small) refl
  named key _ v _ t k (Says.max_concurrency_said limit _ e positive small) =
      rw (k, e, ltb-true limit (2 ^ 64) small, ltb-true 0 limit positive) refl

  not_guild_only :
      (name : String) (v : S) (a : CommandArgument) (t : S)
      → Says stream v name a t
      → str_eq name "guild_only" ≡ false
  not_guild_only _ v _ t (Says.name_said value _ e) = refl
  not_guild_only _ v _ t (Says.description_said value _ e) = refl
  not_guild_only _ v _ t (Says.check_said path _ e valid) = refl
  not_guild_only _ v _ t (Says.context_said value context _ e valid) = refl
  not_guild_only _ v _ t (Says.member_permissions_said value _ e) = refl
  not_guild_only _ v _ t (Says.bot_permissions_said value _ e) = refl
  not_guild_only _ v _ t (Says.cooldown_said seconds _ e small) = refl
  not_guild_only _ v _ t (Says.max_concurrency_said limit _ e positive small) = refl

  pub Reads-read_command_argument :
      (s : S) (a : CommandArgument) (t : S)
      → Reads stream s a t
      → read_command_argument stream s ≡ ok (a, t)
  unfolding read_command_argument read_key
  Reads-read_command_argument s _ t (Reads.bare key _ e k) = rw (e, k) refl
  Reads-read_command_argument s a t (Reads.valued key u v _ _ e equals says) =
      rw (e, not_guild_only (ident_text key) v a t says, equals)
        (named key (ident_text key) v a t refl says)
