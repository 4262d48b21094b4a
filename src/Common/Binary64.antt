-- ===== src/Common/Binary64.antt =====
-- The values of `f64`: `finite s m e` is (-1)^s * m * 2^e / 2^1074, so that every finite double
-- and every comparison of doubles is represented exactly.
use Prim.Native.Nat.{ℕ, zero, suc, ◌+◌, ◌*◌, ◌^◌, ◌/◌, ◌%◌}
use mathlib.Core.Bool.{Bool, true, false, not, ◌&&◌, ◌||◌}
use gloam_macro_commands.Common.Tests.{if◌then◌else◌, ltb, leb, nat_eq}
use gloam_macro_commands.Common.Integer.{ℤ, pos, negsuc, neg_ℕ, int_leb}

pub data F64 : Type 0 where
  nan : F64
  infinite : (negative : Bool) → F64
  finite : (negative : Bool) (mantissa exponent : ℕ) → F64

-- A finite value in units of 2^-1074.
unfoldable pub scaled : Bool → ℕ → ℕ → ℤ
scaled negative m e = if negative then neg_ℕ (m * 2 ^ e) else pos (m * 2 ^ e)

unfoldable pub is_finite : F64 → Bool
is_finite (finite _ _ _) = true
is_finite _ = false

-- `a <= b`; false where either is NaN.
unfoldable pub f64_leb : F64 → F64 → Bool
f64_leb nan b = false
f64_leb (infinite s) nan = false
f64_leb (infinite true) b = true
f64_leb (infinite false) (infinite t) = not t
f64_leb (infinite false) (finite _ _ _) = false
f64_leb (finite _ _ _) nan = false
f64_leb (finite _ _ _) (infinite t) = not t
f64_leb (finite s m e) (finite t n f) = int_leb (scaled s m e) (scaled t n f)

-- `a == b`; NaN equals nothing and the two zeros are equal.
unfoldable pub f64_eq : F64 → F64 → Bool
f64_eq a b = f64_leb a b && f64_leb b a

-- `-a`.
unfoldable pub f64_neg : F64 → F64
f64_neg nan = nan
f64_neg (infinite s) = infinite (not s)
f64_neg (finite s m e) = finite (not s) m e

-- `i as f64`, exact for a magnitude of at most 2^53.
unfoldable pub f64_of_int : ℤ → F64
f64_of_int (pos n) = finite false n 1074
f64_of_int (negsuc n) = finite true (suc n) 1074

-- The least `e` with `n / 2^e < 2^53`, where `fuel` of them are tried.
binary_exponent : (fuel n : ℕ) → ℕ
binary_exponent zero n = 0
binary_exponent (suc fuel) n = elim (ltb n (2 ^ 53)) [
  | true ↦ 0
  | false ↦ suc (binary_exponent fuel (n / 2))
]

-- The double nearest to `mantissa + rest / unit` times `unit`, ties to even.
abbrev rounded : (mantissa rest unit : ℕ) → ℕ
rounded m r unit =
    if ltb unit (2 * r) || (nat_eq unit (2 * r) && nat_eq (m % 2) 1) then suc m else m

-- `digits.parse::<f64>()` for the decimal digits of `n`. The exponent of a finite double is at most
-- 971, so that 1024 tries are enough and a larger number overflows.
unfoldable pub f64_of_digits : (n : ℕ) → F64
unfolding binary_exponent
f64_of_digits n =
    let e = binary_exponent 1024 n in
    let m = rounded (n / 2 ^ e) (n % 2 ^ e) (2 ^ e) in
    if leb (2 ^ 1024) (m * 2 ^ e) then infinite false else finite false m (e + 1074)
