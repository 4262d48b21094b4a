-- ===== src/Macros/Arguments/Positive.antt =====
-- `max_concurrency = 0` is not accepted.
use gloam_macro_commands.Common.{
  ℕ, ◌<◌, String, Bool, true, false, ◌≡◌, ◌≢◌, refl, sym, subst, ◌∙◌, Option, none, some, List, [],
  ◌∷◌, Memᴰ, All, arith, if◌then◌else◌, ltb, Bool-cases, inl, inr,
}
use gloam_macro_commands.Macros.Syntax.{
  Result, ok, or_fail, ok-injective, checked_iff, seq_iff, Segments, >>=-eq-ok, Result-cases, Ident,
  is_ident, Expr,
}
use gloam_macro_commands.Macros.Stream.{ParseStream, parse_value}
use gloam_macro_commands.Macros.Stream.Reading.{Answers, Holds, end, last, next}
use gloam_macro_commands.Macros.Arguments.{
  CommandArgs, CommandArgument, name_arg, description_arg, member_permissions_arg,
  bot_permissions_arg, max_concurrency_arg, base10_parse_64, parse_context, check_arg,
  guild_only_arg, make_check, make_context, make_cooldown, make_max_concurrency, read_value,
  read_key, read_command_argument, empty_args,
}
use gloam_macro_commands.Macros.Arguments.Given.{Leaves, IsFilled, select, given_max_concurrency}

abbrev IsPositive : CommandArgument → Type 0
IsPositive (max_concurrency_arg n) = 0 < n
IsPositive _ = Unit {0}

parse_value-made :
    {S V A : Type 0} (P : A → Type 0) (r : Result (V × S)) (make : V → Result A) (a : A) (t : S)
    → ((v : V) (b : A) → make v ≡ ok b → P b)
    → parse_value r make ≡ ok (a, t)
    → P a
unfolding parse_value
parse_value-made P r make a t h e =
    let ((v, u), _, rest) = >>=-eq-ok r _ e in
    let (b, made, same) = >>=-eq-ok (make v) _ rest in
    subst P (λ i. (ok-injective same i).0) (h v b made)

make_max_concurrency-IsPositive :
    (n : ℕ) (a : CommandArgument) → make_max_concurrency n ≡ ok a → IsPositive a
unfolding make_max_concurrency
make_max_concurrency-IsPositive n a e =
    let (limit, _, guarded) = >>=-eq-ok (or_fail (base10_parse_64 n) _) _ e in
    let (test, same) = (checked_iff _ _ (max_concurrency_arg limit) a).0 guarded in
    subst IsPositive same (positive limit test)
  where
    positive : (limit : ℕ) → ltb 0 limit ≡ true → 0 < limit
    positive limit e = ground arith

make_check-IsPositive :
    (path : Segments) (a : CommandArgument) → make_check path ≡ ok a → IsPositive a
unfolding make_check
make_check-IsPositive path a e =
    subst IsPositive (ok-injective ((seq_iff _ (ok (check_arg path)) a).0 e).1) tt

make_context-IsPositive :
    (value : String) (a : CommandArgument) → make_context value ≡ ok a → IsPositive a
unfolding make_context
make_context-IsPositive value a e =
    let (context, _, same) = >>=-eq-ok (parse_context value) _ e in
    subst IsPositive (ok-injective same) tt

make_cooldown-IsPositive : (n : ℕ) (a : CommandArgument) → make_cooldown n ≡ ok a → IsPositive a
unfolding make_cooldown
make_cooldown-IsPositive n a e =
    let (seconds, _, same) = >>=-eq-ok (or_fail (base10_parse_64 n) _) _ e in
    subst IsPositive (ok-injective same) tt

-- An argument that takes its value as it is.
plain-IsPositive :
    {V : Type 0} (store : V → CommandArgument)
    → ((v : V) → IsPositive (store v))
    → (v : V) (a : CommandArgument) → ◌≡◌ {A = Result CommandArgument} (ok (store v)) (ok a)
    → IsPositive a
plain-IsPositive store h v a e = subst IsPositive (ok-injective e) (h v)

if_cases :
    {A : Type 0} (b : Bool) {x y r : A} {P : Type 0}
    → (x ≡ r → P)
    → (y ≡ r → P)
    → (if b then x else y) ≡ r
    → P
if_cases true h k e = h e
if_cases false h k e = k e

module _ {S : Type 0} (stream : ParseStream S) where
  read_value-IsPositive :
      (key : Ident) (s : S) (a : CommandArgument) (t : S)
      → read_value stream key s ≡ ok (a, t)
      → IsPositive a
  unfolding read_value
  read_value-IsPositive key s a t =
      if_cases (is_ident key "name") (made_of_text (plain-IsPositive name_arg (λ _. tt))) (
        if_cases (is_ident key "description")
          (made_of_text (plain-IsPositive description_arg (λ _. tt)))
          (if_cases (is_ident key "check")
            (parse_value-made IsPositive (stream.parse_path s) make_check a t make_check-IsPositive)
            (if_cases (is_ident key "context") (made_of_text make_context-IsPositive) (
              if_cases (is_ident key "member_permissions")
                (made_of_expr (plain-IsPositive member_permissions_arg (λ _. tt)))
                (if_cases (is_ident key "bot_permissions")
                  (made_of_expr (plain-IsPositive bot_permissions_arg (λ _. tt)))
                  (if_cases (is_ident key "cooldown") (made_of_int make_cooldown-IsPositive) (
                    if_cases (is_ident key "max_concurrency")
                      (made_of_int make_max_concurrency-IsPositive) (λ e. cc))))))))
    where
      made_of_text :
          {make : String → Result CommandArgument}
          → ((v : String) (b : CommandArgument) → make v ≡ ok b → IsPositive b)
          → parse_value (stream.parse_lit_str s) make ≡ ok (a, t)
          → IsPositive a
      made_of_text {make} = parse_value-made IsPositive (stream.parse_lit_str s) make a t

      made_of_expr :
          {make : Expr → Result CommandArgument}
          → ((v : Expr) (b : CommandArgument) → make v ≡ ok b → IsPositive b)
          → parse_value (stream.parse_expr s) make ≡ ok (a, t)
          → IsPositive a
      made_of_expr {make} = parse_value-made IsPositive (stream.parse_expr s) make a t

      made_of_int :
          {make : ℕ → Result CommandArgument}
          → ((v : ℕ) (b : CommandArgument) → make v ≡ ok b → IsPositive b)
          → parse_value (stream.parse_lit_int s) make ≡ ok (a, t)
          → IsPositive a
      made_of_int {make} = parse_value-made IsPositive (stream.parse_lit_int s) make a t

  read_key-IsPositive :
      (key : Ident) (s : S) (a : CommandArgument) (t : S)
      → read_key stream key s ≡ ok (a, t)
      → IsPositive a
  unfolding read_key
  read_key-IsPositive key s a t e = elim (Bool-cases (is_ident key "guild_only")) [
    | inl bare ↦
        let same : ◌≡◌ {A = Result (CommandArgument × S)} (ok (guild_only_arg, s)) (ok (a, t)) =
          ground arith in
        subst IsPositive (λ i. (ok-injective same i).0) tt
    | inr valued ↦ elim (Result-cases (stream.parse_eq s)) [
      | inl (u, equals) ↦ read_value-IsPositive key u a t (ground arith)
      | inr (m, failed) ↦ absurd (ground arith)
    ]
  ]

  Holds-IsPositive :
      (s : S) (given : List CommandArgument)
      → Holds stream (Answers (read_command_argument stream)) s given
      → All IsPositive given
  unfolding read_command_argument
  Holds-IsPositive s given (end _ _) = tt
  Holds-IsPositive s given (last _ a t _ here _) =
      let ((key, u), _, value) = >>=-eq-ok (stream.parse_any s) _ here in
      (read_key-IsPositive key u a t value, tt)
  Holds-IsPositive s given (next _ a t u rest _ here _ _ h) =
      let ((key, v), _, value) = >>=-eq-ok (stream.parse_any s) _ here in
      (read_key-IsPositive key v a t value, Holds-IsPositive u rest h)

selected :
    (given : List CommandArgument) (n : ℕ)
    → All IsPositive given
    → Memᴰ n (select given_max_concurrency given)
    → 0 < n
selected [] n h m = elim m [ ]
selected (max_concurrency_arg k ∷ rest) n (h, hs) (Memᴰ.head e) = subst (λ n. 0 < n) (sym e) h
selected (max_concurrency_arg k ∷ rest) n (h, hs) (Memᴰ.tail m) = selected rest n hs m
selected (x ∷ rest) n (h, hs) m = selected rest n hs m

filled :
    (vs : List ℕ) (r : Option ℕ) → IsFilled none vs r → ((n : ℕ) → Memᴰ n vs → 0 < n) → r ≢ some 0
filled [] r h p e = cc
filled (v ∷ vs) r h p e =
    let same : some v ≡ some 0 = sym h.1 ∙ e in
    let nothing : v ≡ 0 = cc in absurd (omega (arith, p v (Memᴰ.head refl), nothing))

-- The limit of accepted arguments is not zero.
pub max_concurrency-positive :
    {S : Type 0} (stream : ParseStream S) (s : S) (given : List CommandArgument) (r : CommandArgs)
    → Holds stream (Answers (read_command_argument stream)) s given
    → Leaves empty_args given r
    → r.max_concurrency ≢ some 0
max_concurrency-positive stream s given r held leaves =
    filled (select given_max_concurrency given) r.max_concurrency leaves.max_concurrency
      (λ n. selected given n (Holds-IsPositive stream s given held))
