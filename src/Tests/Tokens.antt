-- ===== src/Tests/Tokens.antt =====
-- A stream of tokens on which the parsers of syn that the macros call advance.
use gloam_macro_commands.Common.{
  ℕ, ◌<◌, ◌≤◌, ◌≡◌, String, Bool, true, false, List, [], ◌∷◌, length, arith,
}
use gloam_macro_commands.Macros.Syntax.{
  Result, ok, err, Ident, Segments, nil, cons, no_arguments, Expr,
}
use gloam_macro_commands.Macros.Stream.{ParseStream, Advances}

abbrev pub word : String → Ident
word name = record { raw = false; name = name }

-- Tokens, with a path or an expression as one of them.
pub data Token : Type 0 where
  ident_token : Ident → Token
  eq_token comma_token : Token
  str_token : String → Token
  int_token : ℕ → Token
  path_token : Segments → Token
  expr_token : Expr → Token

unfoldable pub any_token : List Token → Result (Ident × List Token)
any_token (ident_token i ∷ rest) = ok (i, rest)
any_token _ = err "expected identifier"

unfoldable pub eq : List Token → Result (List Token)
eq (eq_token ∷ rest) = ok rest
eq _ = err "expected `=`"

unfoldable pub comma : List Token → Result (List Token)
comma (comma_token ∷ rest) = ok rest
comma _ = err "expected `,`"

unfoldable pub lit_str : List Token → Result (String × List Token)
lit_str (str_token t ∷ rest) = ok (t, rest)
lit_str _ = err "expected string literal"

unfoldable pub lit_int : List Token → Result (ℕ × List Token)
lit_int (int_token n ∷ rest) = ok (n, rest)
lit_int _ = err "expected integer literal"

unfoldable pub path : List Token → Result (Segments × List Token)
path (path_token p ∷ rest) = ok (p, rest)
path _ = err "expected identifier"

unfoldable pub expr : List Token → Result (Expr × List Token)
expr (expr_token e ∷ rest) = ok (e, rest)
expr _ = err "expected an expression"

unfoldable pub ended : List Token → Bool
ended [] = true
ended (t ∷ rest) = false

abbrev pub tokens : ParseStream (List Token)
tokens = record {
  is_empty = ended;
  parse_any = any_token;
  parse_eq = eq;
  parse_comma = comma;
  parse_lit_str = lit_str;
  parse_lit_int = lit_int;
  parse_path = path;
  parse_expr = expr;
}

any_token-shorter :
    (s : List Token) (v : Ident) (t : List Token) → any_token s ≡ ok (v, t) → length t < length s
unfolding any_token
any_token-shorter (ident_token x ∷ rest) v t e = ground arith
any_token-shorter s v t e = cc

lit_str-shorter :
    (s : List Token) (v : String) (t : List Token) → lit_str s ≡ ok (v, t) → length t ≤ length s
unfolding lit_str
lit_str-shorter (str_token x ∷ rest) v t e = ground arith
lit_str-shorter s v t e = cc

lit_int-shorter :
    (s : List Token) (v : ℕ) (t : List Token) → lit_int s ≡ ok (v, t) → length t ≤ length s
unfolding lit_int
lit_int-shorter (int_token x ∷ rest) v t e = ground arith
lit_int-shorter s v t e = cc

path-shorter :
    (s : List Token) (v : Segments) (t : List Token) → path s ≡ ok (v, t) → length t ≤ length s
unfolding path
path-shorter (path_token x ∷ rest) v t e = ground arith
path-shorter s v t e = cc

expr-shorter :
    (s : List Token) (v : Expr) (t : List Token) → expr s ≡ ok (v, t) → length t ≤ length s
unfolding expr
expr-shorter (expr_token x ∷ rest) v t e = ground arith
expr-shorter s v t e = cc

eq-shorter : (s t : List Token) → eq s ≡ ok t → length t ≤ length s
unfolding eq
eq-shorter (eq_token ∷ rest) t e = ground arith
eq-shorter s t e = cc

comma-shorter : (s t : List Token) → comma s ≡ ok t → length t ≤ length s
unfolding comma
comma-shorter (comma_token ∷ rest) t e = ground arith
comma-shorter s t e = cc

pub tokens-Advances : Advances tokens length
tokens-Advances = record {
  any = any_token-shorter;
  eq = eq-shorter;
  comma = comma-shorter;
  lit_str = lit_str-shorter;
  lit_int = lit_int-shorter;
  path = path-shorter;
  expr = expr-shorter;
}

abbrev pub named : String → Segments
named name = cons (word name) no_arguments nil
