-- ===== src/Macros/Bounds.antt =====
-- crates/gloam-commands-macros/src/command.rs: the bounds of numbers and of text lengths, read from
-- literals.
pub mod Ranges
use gloam_macro_commands.Common.{
  ℕ, ◌-◌, ◌^◌, String, Bool, true, false, not, ◌&&◌, Option, none, some, leb, ltb, if◌then◌else◌,
}
use gloam_macro_commands.Common.Integer.{ℤ, pos, negsuc, neg_ℕ, int_leb}
use gloam_macro_commands.Common.Binary64.{F64, finite, is_finite, f64_leb, f64_neg, f64_of_digits}
use gloam_macro_commands.Macros.Syntax.{
  Result, ok, err, ◌>>=◌, ◌>>◌, guard, or_fail, transpose, Expr, lit_expr, neg_expr, path_expr,
  other_expr, Lit, str_lit, int_lit, float_lit, other_lit,
}
use gloam_macro_commands.Macros.Types.{
  OptionKind, string, boolean, integer, number, user, channel, role, attachment,
}

abbrev pub max_integer_value : ℕ
max_integer_value = 9007199254740991

abbrev pub max_number_value : F64
max_number_value = finite false 9007199254740992 1074

abbrev pub min_number_value : F64
min_number_value = finite true 9007199254740992 1074

abbrev pub max_string_length : ℕ
max_string_length = 6000

pub data NumericBound : Type 0 where
  integer_value : ℤ → NumericBound
  number_value : F64 → NumericBound

unfoldable pub signed_literal : Expr → Result (Bool × Lit)
signed_literal (lit_expr l) = ok (false, l)
signed_literal (neg_expr (lit_expr l)) = ok (true, l)
signed_literal (neg_expr _) = err "numeric option bounds require literals"
signed_literal _ = err "numeric option bounds require literals"

-- `parse::<i128>()` of the digits, and the sign.
unfoldable pub integer_of_literal : (negative : Bool) → Lit → Result ℤ
integer_of_literal negative (int_lit n) = do
  guard (ltb n (2 ^ 127)) "integer option bound is outside the supported range"
  ok (if negative then neg_ℕ n else pos n)
integer_of_literal negative _ = err "integer option bounds require integer literals"

unfoldable pub parse_integer_bound : Expr → Result ℤ
unfolding signed_literal integer_of_literal
parse_integer_bound expression = do
  (negative, literal) ← signed_literal expression
  value ← integer_of_literal negative literal
  guard (int_leb (neg_ℕ max_integer_value) value && int_leb value (pos max_integer_value))
      "Discord integer option bounds must be between -9007199254740991 and 9007199254740991"
  ok value

unfoldable pub number_of_literal : Lit → Result F64
number_of_literal (float_lit value) = or_fail value "invalid number option bound"
number_of_literal (int_lit n) = ok (f64_of_digits n)
number_of_literal _ = err "number option bounds require numeric literals"

unfoldable pub parse_number_bound : Expr → Result F64
unfolding signed_literal number_of_literal
parse_number_bound expression = do
  (negative, literal) ← signed_literal expression
  magnitude ← number_of_literal literal
  let value = if negative then f64_neg magnitude else magnitude
  guard (is_finite value && f64_leb min_number_value value && f64_leb value max_number_value)
      "Discord number option bounds must be between -9007199254740992 and 9007199254740992"
  ok value

-- `base10_parse::<u32>()`.
unfoldable pub parse_length : Expr → Result ℕ
parse_length (lit_expr (int_lit n)) = do
  guard (ltb n (2 ^ 32)) "string length constraint is outside the supported range"
  ok n
parse_length _ = err "string length constraints require non-negative integer literals"

-- Both bounds are given and `min > max`.
unfoldable pub integers_crossed : Option ℤ → Option ℤ → Bool
integers_crossed (some min) (some max) = not (int_leb min max)
integers_crossed _ _ = false

unfoldable pub numbers_crossed : Option F64 → Option F64 → Bool
numbers_crossed (some min) (some max) = f64_leb max min && not (f64_leb min max)
numbers_crossed _ _ = false

unfoldable pub lengths_crossed : Option ℕ → Option ℕ → Bool
lengths_crossed (some min) (some max) = not (leb min max)
lengths_crossed _ _ = false

abbrev pub map_bound {ℓ κ} : {A : Type ℓ} {B : Type κ} → (A → B) → Option A → Option B
map_bound f none = none
map_bound f (some a) = some (f a)

-- The branches on the option's kind, where a bound is given.
unfoldable pub integer_bounds :
    Option Expr → Option Expr → Result (Option NumericBound × Option NumericBound)
unfolding parse_integer_bound integers_crossed
integer_bounds min max = do
  low ← transpose parse_integer_bound min
  high ← transpose parse_integer_bound max
  guard (not (integers_crossed low high)) "integer `min` cannot be greater than `max`"
  ok (map_bound integer_value low, map_bound integer_value high)

unfoldable pub number_bounds :
    Option Expr → Option Expr → Result (Option NumericBound × Option NumericBound)
unfolding parse_number_bound numbers_crossed
number_bounds min max = do
  low ← transpose parse_number_bound min
  high ← transpose parse_number_bound max
  guard (not (numbers_crossed low high)) "number `min` cannot be greater than `max`"
  ok (map_bound number_value low, map_bound number_value high)

unfoldable pub bounds_of_kind :
    OptionKind → Option Expr → Option Expr → Result (Option NumericBound × Option NumericBound)
unfolding integer_bounds number_bounds
bounds_of_kind integer min max = integer_bounds min max
bounds_of_kind number min max = number_bounds min max
bounds_of_kind _ min max =
    err "`#[min = ...]` and `#[max = ...]` are only supported for `i64` and `f64` options"

unfoldable pub numeric_bounds :
    OptionKind → Option Expr → Option Expr → Result (Option NumericBound × Option NumericBound)
unfolding bounds_of_kind
numeric_bounds kind none none = ok (none, none)
numeric_bounds kind none (some max) = bounds_of_kind kind none (some max)
numeric_bounds kind (some min) max = bounds_of_kind kind (some min) max

unfoldable pub min_length_allowed : Option ℕ → Bool
min_length_allowed none = true
min_length_allowed (some value) = leb value max_string_length

unfoldable pub max_length_allowed : Option ℕ → Bool
max_length_allowed none = true
max_length_allowed (some value) = leb 1 value && leb value max_string_length

unfoldable pub length_bounds : Option Expr → Option Expr → Result (Option ℕ × Option ℕ)
unfolding parse_length lengths_crossed min_length_allowed max_length_allowed
length_bounds min max = do
  low ← transpose parse_length min
  high ← transpose parse_length max
  guard (min_length_allowed low) "Discord string `min_length` must be between 0 and 6000"
  guard (max_length_allowed high) "Discord string `max_length` must be between 1 and 6000"
  guard (not (lengths_crossed low high)) "string `min_length` cannot be greater than `max_length`"
  ok (low, high)

unfoldable pub lengths_of_kind :
    OptionKind → Option Expr → Option Expr → Result (Option ℕ × Option ℕ)
unfolding length_bounds
lengths_of_kind string min max = length_bounds min max
lengths_of_kind _ min max =
    err "`#[min_length = ...]` and `#[max_length = ...]` are only supported for `String` options"

unfoldable pub string_bounds : OptionKind → Option Expr → Option Expr → Result (Option ℕ × Option ℕ)
unfolding lengths_of_kind
string_bounds kind none none = ok (none, none)
string_bounds kind none (some max) = lengths_of_kind kind none (some max)
string_bounds kind (some min) max = lengths_of_kind kind (some min) max
