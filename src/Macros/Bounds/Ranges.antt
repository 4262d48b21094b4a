-- ===== src/Macros/Bounds/Ranges.antt =====
-- The bounds that the macros accept lie in Discord's ranges, and a minimum is at most the maximum.
use gloam_macro_commands.Common.{
  ℕ, ◌+◌, ◌≤◌, true, false, ◌&&◌, ◌≡◌, Option, none, some, arith, leb, &&_iff, subst, sym, inl, inr,
  Bool-cases, not-eq-true, if◌then◌else◌,
}
use gloam_macro_commands.Common.Integer.{
  ℤ, pos, neg_ℕ, ◌≤ℤ◌, int_leb, int_leb_iff, pos_part, neg_part,
}
use gloam_macro_commands.Common.Binary64.{
  F64, nan, infinite, finite, is_finite, f64_leb, scaled, f64_neg,
}
use gloam_macro_commands.Macros.Syntax.{
  Result, ok, ok-injective, transpose-eq-ok, checked_iff, seq_iff, guard_iff, >>=-eq-ok, transpose,
  Expr,
}
use gloam_macro_commands.Macros.Types.{OptionKind, string, integer, number}
use gloam_macro_commands.Macros.Bounds.{
  NumericBound, integer_value, number_value, max_integer_value, max_number_value, min_number_value,
  max_string_length, signed_literal, integer_of_literal, number_of_literal, parse_integer_bound,
  parse_number_bound, parse_length, integers_crossed, numbers_crossed, lengths_crossed, map_bound,
  integer_bounds, number_bounds, bounds_of_kind, numeric_bounds, min_length_allowed,
  max_length_allowed, length_bounds, lengths_of_kind, string_bounds,
}

abbrev pub IsSafeInteger : ℤ → Type 0
IsSafeInteger z = (neg_ℕ max_integer_value ≤ℤ z) × (z ≤ℤ pos max_integer_value)

abbrev pub IsSafeNumber : F64 → Type 0
IsSafeNumber v =
    (is_finite v ≡ true) × (f64_leb min_number_value v ≡ true) × (f64_leb v max_number_value ≡ true)

-- `P` of a value that is there, and `R` of two values that are both there.
abbrev pub Every : {A : Type 0} → (A → Type 0) → Option A → Type 0
Every P none = Unit {0}
Every P (some a) = P a

abbrev pub Both : {A : Type 0} → (A → A → Type 0) → Option A → Option A → Type 0
Both R none b = Unit {0}
Both R (some a) none = Unit {0}
Both R (some a) (some b) = R a b

-- The ranges of an option of a kind.
pub data IsNumericRange : OptionKind → Option NumericBound → Option NumericBound → Type 0 where
  unbounded : (kind : OptionKind) → IsNumericRange kind none none
  integers :
      (low high : Option ℤ)
      → Every IsSafeInteger low
      → Every IsSafeInteger high
      → Both (λ a b. a ≤ℤ b) low high
      → IsNumericRange integer (map_bound integer_value low) (map_bound integer_value high)
  numbers :
      (low high : Option F64)
      → Every IsSafeNumber low
      → Every IsSafeNumber high
      → Both (λ a b. f64_leb a b ≡ true) low high
      → IsNumericRange number (map_bound number_value low) (map_bound number_value high)

pub data IsLengthRange : OptionKind → Option ℕ → Option ℕ → Type 0 where
  unlimited : (kind : OptionKind) → IsLengthRange kind none none
  lengths :
      (low high : Option ℕ)
      → Every (λ n. n ≤ max_string_length) low
      → Every (λ n. (1 ≤ n) × (n ≤ max_string_length)) high
      → Both (λ a b. a ≤ b) low high
      → IsLengthRange string low high

transpose-Every :
    {A B : Type 0} (f : A → Result B) (P : B → Type 0)
    → ((a : A) (b : B) → f a ≡ ok b → P b)
    → (o : Option A) (r : Option B) → transpose f o ≡ ok r
    → Every P r
transpose-Every f P h none r e = subst (Every P) (ok-injective e) tt
transpose-Every f P h (some a) r e =
    let (b, here, same) = transpose-eq-ok f a r e in subst (Every P) (sym same) (h a b here)

safe_integer :
    (z : ℤ)
    → (int_leb (neg_ℕ max_integer_value) z && int_leb z (pos max_integer_value)) ≡ true
    → IsSafeInteger z
safe_integer z e =
    let (low, high) =
      (&&_iff (int_leb (neg_ℕ max_integer_value) z) (int_leb z (pos max_integer_value))).0 e in
    (
      (int_leb_iff (neg_ℕ max_integer_value) z).0 low,
      (int_leb_iff z (pos max_integer_value)).0 high,
    )

pub parse_integer_bound-IsSafe : (e : Expr) (z : ℤ) → parse_integer_bound e ≡ ok z → IsSafeInteger z
unfolding parse_integer_bound
parse_integer_bound-IsSafe e z h =
    let ((negative, literal), _, rest) = >>=-eq-ok (signed_literal e) _ h in
    let (value, _, guarded) = >>=-eq-ok (integer_of_literal negative literal) _ rest in
    let (test, same) = (checked_iff _ _ value z).0 guarded in
    subst IsSafeInteger same (safe_integer value test)

pub parse_number_bound-IsSafe : (e : Expr) (v : F64) → parse_number_bound e ≡ ok v → IsSafeNumber v
unfolding parse_number_bound
parse_number_bound-IsSafe e v h =
    let ((negative, literal), _, rest) = >>=-eq-ok (signed_literal e) _ h in
    let (magnitude, _, guarded) = >>=-eq-ok (number_of_literal literal) _ rest in
    let value = if negative then f64_neg magnitude else magnitude in
    let (test, same) = (checked_iff _ _ value v).0 guarded in
    subst IsSafeNumber same (ground arith, ground arith, ground arith)

leb_total : (m n : ℕ) → leb m n ≡ false → leb n m ≡ true
leb_total m n h = ground arith

int_leb_total : (a b : ℤ) → int_leb a b ≡ false → int_leb b a ≡ true
int_leb_total a b h = leb_total (pos_part a + neg_part b) (pos_part b + neg_part a) h

f64_leb_total :
    (a b : F64) → is_finite a ≡ true → is_finite b ≡ true → f64_leb a b ≡ false → f64_leb b a ≡ true
unfolding f64_leb is_finite
f64_leb_total (finite s m e) (finite t n f) h k o = int_leb_total (scaled s m e) (scaled t n f) o
f64_leb_total (finite s m e) nan h k o = cc
f64_leb_total (finite s m e) (infinite t) h k o = cc
f64_leb_total nan b h k o = cc
f64_leb_total (infinite s) b h k o = cc

integers_ordered :
    (low high : Option ℤ) → integers_crossed low high ≡ false → Both (λ a b. a ≤ℤ b) low high
unfolding integers_crossed
integers_ordered none high e = tt
integers_ordered (some a) none e = tt
integers_ordered (some a) (some b) e = (int_leb_iff a b).0 (ground arith)

numbers_ordered :
    (low high : Option F64)
    → Every IsSafeNumber low
    → Every IsSafeNumber high
    → numbers_crossed low high ≡ false
    → Both (λ a b. f64_leb a b ≡ true) low high
unfolding numbers_crossed
numbers_ordered none high p q e = tt
numbers_ordered (some a) none p q e = tt
numbers_ordered (some a) (some b) p q e = elim (Bool-cases (f64_leb a b)) [
  | inl ordered ↦ ordered
  | inr crossed ↦ absurd (ground (arith, f64_leb_total a b p.0 q.0 crossed))
]

integer_bounds-IsNumericRange :
    (min max : Option Expr) (low high : Option NumericBound)
    → integer_bounds min max ≡ ok (low, high)
    → IsNumericRange integer low high
unfolding integer_bounds
integer_bounds-IsNumericRange min max low high e =
    let (a, below, rest) = >>=-eq-ok (transpose parse_integer_bound min) _ e in
    let (b, above, guarded) = >>=-eq-ok (transpose parse_integer_bound max) _ rest in
    let (test, same) = (checked_iff _ _ _ (low, high)).0 guarded in
    subst (λ (l, h). IsNumericRange integer l h) same
      (integers a b
        (transpose-Every parse_integer_bound IsSafeInteger parse_integer_bound-IsSafe min a below)
        (transpose-Every parse_integer_bound IsSafeInteger parse_integer_bound-IsSafe max b above)
        (integers_ordered a b (not-eq-true _ test)))

number_bounds-IsNumericRange :
    (min max : Option Expr) (low high : Option NumericBound)
    → number_bounds min max ≡ ok (low, high)
    → IsNumericRange number low high
unfolding number_bounds
number_bounds-IsNumericRange min max low high e =
    let (a, below, rest) = >>=-eq-ok (transpose parse_number_bound min) _ e in
    let (b, above, guarded) = >>=-eq-ok (transpose parse_number_bound max) _ rest in
    let (test, same) = (checked_iff _ _ _ (low, high)).0 guarded in
    let safe_a =
      transpose-Every parse_number_bound IsSafeNumber parse_number_bound-IsSafe min a below in
    let safe_b =
      transpose-Every parse_number_bound IsSafeNumber parse_number_bound-IsSafe max b above in
    subst (λ (l, h). IsNumericRange number l h) same
      (numbers a b safe_a safe_b (numbers_ordered a b safe_a safe_b (not-eq-true _ test)))

bounds_of_kind-IsNumericRange :
    (kind : OptionKind) (min max : Option Expr) (low high : Option NumericBound)
    → bounds_of_kind kind min max ≡ ok (low, high)
    → IsNumericRange kind low high
unfolding bounds_of_kind
bounds_of_kind-IsNumericRange integer min max low high e =
    integer_bounds-IsNumericRange min max low high e
bounds_of_kind-IsNumericRange number min max low high e =
    number_bounds-IsNumericRange min max low high e
bounds_of_kind-IsNumericRange kind min max low high e = cc

pub numeric_bounds-IsNumericRange :
    (kind : OptionKind) (min max : Option Expr) (low high : Option NumericBound)
    → numeric_bounds kind min max ≡ ok (low, high)
    → IsNumericRange kind low high
unfolding numeric_bounds
numeric_bounds-IsNumericRange kind none none low high e =
    subst (λ (l, h). IsNumericRange kind l h) (ok-injective e) (unbounded kind)
numeric_bounds-IsNumericRange kind none (some max) low high e =
    bounds_of_kind-IsNumericRange kind none (some max) low high e
numeric_bounds-IsNumericRange kind (some min) max low high e =
    bounds_of_kind-IsNumericRange kind (some min) max low high e

length_range :
    (low high : Option ℕ)
    → min_length_allowed low ≡ true
    → max_length_allowed high ≡ true
    → lengths_crossed low high ≡ false
    → IsLengthRange string low high
unfolding min_length_allowed max_length_allowed lengths_crossed
length_range none none p q r = lengths none none tt tt tt
length_range none (some b) p q r = lengths none (some b) tt (ground arith) tt
length_range (some a) none p q r = lengths (some a) none (ground arith) tt tt
length_range (some a) (some b) p q r =
    lengths (some a) (some b) (ground arith) (ground arith) (ground arith)

length_bounds-IsLengthRange :
    (min max : Option Expr) (low high : Option ℕ)
    → length_bounds min max ≡ ok (low, high)
    → IsLengthRange string low high
unfolding length_bounds
length_bounds-IsLengthRange min max low high e =
    let (a, _, rest) = >>=-eq-ok (transpose parse_length min) _ e in
    let (b, _, guarded) = >>=-eq-ok (transpose parse_length max) _ rest in
    let (minimum, guarded') = (seq_iff _ _ (low, high)).0 guarded in
    let (maximum, guarded'') = (seq_iff _ _ (low, high)).0 guarded' in
    let (test, same) = (checked_iff _ _ _ (low, high)).0 guarded'' in
    subst (λ (l, h). IsLengthRange string l h) same
      (length_range a b ((guard_iff _ _).0 minimum) ((guard_iff _ _).0 maximum)
        (not-eq-true _ test))

lengths_of_kind-IsLengthRange :
    (kind : OptionKind) (min max : Option Expr) (low high : Option ℕ)
    → lengths_of_kind kind min max ≡ ok (low, high)
    → IsLengthRange kind low high
unfolding lengths_of_kind
lengths_of_kind-IsLengthRange string min max low high e =
    length_bounds-IsLengthRange min max low high e
lengths_of_kind-IsLengthRange kind min max low high e = cc

pub string_bounds-IsLengthRange :
    (kind : OptionKind) (min max : Option Expr) (low high : Option ℕ)
    → string_bounds kind min max ≡ ok (low, high)
    → IsLengthRange kind low high
unfolding string_bounds
string_bounds-IsLengthRange kind none none low high e =
    subst (λ (l, h). IsLengthRange kind l h) (ok-injective e) (unlimited kind)
string_bounds-IsLengthRange kind none (some max) low high e =
    lengths_of_kind-IsLengthRange kind none (some max) low high e
string_bounds-IsLengthRange kind (some min) max low high e =
    lengths_of_kind-IsLengthRange kind (some min) max low high e
