-- ===== src/Macros/Stream.antt =====
-- crates/gloam-commands-macros/src/{command,choice,group}.rs: the loop in which an `impl Parse` reads
-- `key = value` arguments, over syn's ParseStream.
pub mod Reading
use gloam_macro_commands.Common.{
  ℕ, zero, suc, ◌≤◌, ◌<◌, String, Bool, true, false, ◌≡◌, Option, none, some, List, [], ◌∷◌,
  if◌then◌else◌,
}
use gloam_macro_commands.Macros.Syntax.{Result, ok, err, ◌>>=◌, Ident, Segments, Expr}

-- What the macros call of syn's ParseStream, on streams `S`. An integer literal is its number.
pub record ParseStream (S : Type 0) : Type 0 where
  pub is_empty : S → Bool
  pub parse_any : S → Result (Ident × S)
  pub parse_eq : S → Result S
  pub parse_comma : S → Result S
  pub parse_lit_str : S → Result (String × S)
  pub parse_lit_int : S → Result (ℕ × S)
  pub parse_path : S → Result (Segments × S)
  pub parse_expr : S → Result (Expr × S)

-- A parser advances: an identifier takes a token and no parser puts tokens back.
pub record Advances {S : Type 0} (stream : ParseStream S) (size : S → ℕ) : Type 0 where
  pub any : (s : S) (i : Ident) (t : S) → stream.parse_any s ≡ ok (i, t) → size t < size s
  pub eq : (s t : S) → stream.parse_eq s ≡ ok t → size t ≤ size s
  pub comma : (s t : S) → stream.parse_comma s ≡ ok t → size t ≤ size s
  pub lit_str : (s : S) (v : String) (t : S) → stream.parse_lit_str s ≡ ok (v, t) → size t ≤ size s
  pub lit_int : (s : S) (n : ℕ) (t : S) → stream.parse_lit_int s ≡ ok (n, t) → size t ≤ size s
  pub path : (s : S) (p : Segments) (t : S) → stream.parse_path s ≡ ok (p, t) → size t ≤ size s
  pub expr : (s : S) (e : Expr) (t : S) → stream.parse_expr s ≡ ok (e, t) → size t ≤ size s

-- What a round of the loop does: it ends the parse, or goes on with the stream and the arguments.
pub data Round (S St : Type 0) : Type 0 where
  returned : Result St → Round S St
  more : S → St → Round S St

-- A value that was parsed, and what the macro makes of it.
unfoldable pub parse_value : {S V A : Type 0} → Result (V × S) → (V → Result A) → Result (A × S)
parse_value r make = do (value, t) ← r; a ← make value; ok (a, t)

module _ {S St : Type 0} (stream : ParseStream S) where
  unfoldable pub after_comma : St → Result S → Round S St
  after_comma st (err message) = returned (err message)
  after_comma st (ok s) = more s st

  unfoldable pub after_argument : Result (St × S) → Round S St
  unfolding after_comma
  after_argument (err message) = returned (err message)
  after_argument (ok (st, s)) =
      if stream.is_empty s then returned (ok st) else after_comma st (stream.parse_comma s)

  -- An argument: `read` parses a key and its value, and `add` stores them.
  abbrev pub parse_argument :
      {A : Type 0} → (S → Result (A × S)) → (St → A → Result St) → S → St → Result (St × S)
  parse_argument read add s st = do (a, t) ← read s; st' ← add st a; ok (st', t)

  -- The body of the loop.
  unfoldable pub round :
      {A : Type 0} → (S → Result (A × S)) → (St → A → Result St) → S → St → Round S St
  unfolding after_argument
  round read add s st =
      if stream.is_empty s then returned (ok st) else after_argument (parse_argument read add s st)

  -- The loop, `none` where the fuel is used up.
  unfoldable pub parse_arguments :
      {A : Type 0}
      → (S → Result (A × S))
      → (St → A → Result St)
      → (fuel : ℕ) → S
      → St
      → Option (Result St)
  unfolding round
  parse_arguments read add zero s st = none
  parse_arguments read add (suc fuel) s st = elim (round read add s st) [
    | returned r ↦ some r
    | more t st' ↦ parse_arguments read add fuel t st'
  ]

-- The arguments one after the other.
unfoldable pub add_all : {A St : Type 0} → (St → A → Result St) → St → List A → Result St
add_all add st [] = ok st
add_all add st (a ∷ rest) = add st a >>= λ st'. add_all add st' rest
