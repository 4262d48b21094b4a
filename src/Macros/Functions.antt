-- ===== src/Macros/Functions.antt =====
-- crates/gloam-commands-macros/src: the parts of syn's functions that the macros read. `A` is what
-- `parse_args` makes of the list of an attribute.
use gloam_macro_commands.Common.{ℕ, String, Bool, false, ◌&&◌, List}
use gloam_macro_commands.Macros.Syntax.{
  Ident, is_ident, Ty, Segments, nil, cons, plain_arguments, Meta,
}

pub record Attribute (A : Type 0) : Type 0 where
  pub path : Segments
  pub meta : Meta A

-- `attribute.path().is_ident(name)`.
abbrev pub path_is : Segments → String → Bool
path_is nil name = false
path_is (cons i a nil) name = plain_arguments a && is_ident i name
path_is (cons i a (cons j b more)) name = false

pub data Pat : Type 0 where
  ident_pat : Ident → (subpat : Bool) → Pat
  other_pat : ℕ → Pat

pub data FnArg (A : Type 0) : Type 0 where
  receiver : FnArg A
  typed_arg : (attrs : List (Attribute A)) (pat : Pat) (ty : Ty) → FnArg A

pub data ReturnType : Type 0 where
  default_return : ReturnType
  return_type : Ty → ReturnType

-- A function's signature: which qualifiers are written, and whether it has generics.
pub record ItemFn (A : Type 0) : Type 0 where
  pub ident : Ident
  pub asyncness : Bool
  pub constness : Bool
  pub unsafety : Bool
  pub abi : Bool
  pub generic_params : Bool
  pub where_clause : Bool
  pub variadic : Bool
  pub inputs : List (FnArg A)
  pub output : ReturnType
