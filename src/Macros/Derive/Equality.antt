-- ===== src/Macros/Derive/Equality.antt =====
-- The branches of a derived extraction tell the values apart that the duplicate check tells apart.
use gloam_macro_commands.Common.{
  ◌<>◌, String, Bool, true, false, ◌&&◌, ◌≡◌, sym, ap, subst, ◌∙◌, inl, inr, some, List, [], ◌∷◌,
  map, find, Memᴰ, Memᴰ-map, Distinct, eq_iff, arith, Bool-cases,
}
use gloam_macro_commands.Common.Integer.{ℤ, pos, negsuc, int_leb, int_leb_iff, ◌≤ℤ◌}
use gloam_macro_commands.Common.Binary64.{F64, finite, scaled, f64_eq, f64_leb}
use gloam_macro_commands.Macros.Derive.{
  ParsedValue, string_value, integer_value, number_value, Host, number_key, zero_number,
  key_of_value,
}
use gloam_macro_commands.Macros.Derive.Generated.{matches}

-- The text of a number depends on its value only, where that is not zero.
abbrev pub ShowsValues : Host → Type 0
ShowsValues host =
    (a b : F64)
    → f64_eq a b ≡ true
    → f64_eq a zero_number ≡ false
    → host.show_number a ≡ host.show_number b

-- The first element that passes, where the elements that pass have one key and the keys differ.
pub find-only :
    {A : Type 0} (test : A → Bool) (key : A → String) (xs : List A) (a : A)
    → Memᴰ a xs
    → test a ≡ true
    → ((x : A) → test x ≡ true → key x ≡ key a)
    → Distinct (map key xs)
    → find test xs ≡ some a
find-only test key [] a m t same d = elim m [ ]
find-only test key (x ∷ xs) a (Memᴰ.head e) t same d =
    rw (find, ap test (sym e) ∙ t) (ap some (sym e))
find-only test key (x ∷ xs) a (Memᴰ.tail m) t same (fresh, d) = elim (Bool-cases (test x)) [
  | inl hit ↦ absurd (fresh (subst (λ k. Memᴰ k (map key xs)) (sym (same x hit)) (Memᴰ-map key m)))
  | inr miss ↦ rw (find, miss) (find-only test key xs a m t same d)
]

int_leb_antisym : (a b : ℤ) → (int_leb a b && int_leb b a) ≡ true → a ≡ b
int_leb_antisym (pos m) (pos n) e = ap pos (ground arith)
int_leb_antisym (pos m) (negsuc n) e = absurd (ground arith)
int_leb_antisym (negsuc m) (pos n) e = absurd (ground arith)
int_leb_antisym (negsuc m) (negsuc n) e = ap negsuc (ground arith)

int_leb_trans : (a b c : ℤ) → int_leb a b ≡ true → int_leb b c ≡ true → int_leb a c ≡ true
int_leb_trans a b c p q =
    (int_leb_iff a c).1 (leq a b c ((int_leb_iff a b).0 p) ((int_leb_iff b c).0 q))
  where
    leq : (a b c : ℤ) → a ≤ℤ b → b ≤ℤ c → a ≤ℤ c
    leq a b c p q = omega (arith, p, q)

pub f64_leb_trans : (a b c : F64) → f64_leb a b ≡ true → f64_leb b c ≡ true → f64_leb a c ≡ true
unfolding f64_leb
f64_leb_trans (finite s m e) (finite t n f) (finite u k g) p q =
    int_leb_trans (scaled s m e) (scaled t n f) (scaled u k g) p q
f64_leb_trans a b c p q = ground arith

f64_eq_sym : (a b : F64) → f64_eq a b ≡ true → f64_eq b a ≡ true
unfolding f64_eq
f64_eq_sym a b e = ground arith

f64_eq_trans : (a b c : F64) → f64_eq a b ≡ true → f64_eq b c ≡ true → f64_eq a c ≡ true
unfolding f64_eq
f64_eq_trans a b c e h = ground (arith, f64_leb_trans a b c, f64_leb_trans c b a)

number_key-eq :
    (host : Host) (a b : F64)
    → ShowsValues host
    → f64_eq a b ≡ true
    → number_key host a ≡ number_key host b
unfolding number_key
number_key-eq host a b shows e = elim (Bool-cases (f64_eq a zero_number)) [
  | inl zero ↦ let also = f64_eq_trans b a zero_number (f64_eq_sym a b e) zero in ground arith
  | inr other ↦ elim (Bool-cases (f64_eq b zero_number)) [
    | inl zero ↦ let not_other = f64_eq_trans a b zero_number e zero in absurd (ground arith)
    | inr both ↦ ground (arith, shows a b e other)
  ]
]

-- Values that match have one key.
pub matches-key :
    (host : Host) (v w : ParsedValue)
    → ShowsValues host
    → matches v (some w) ≡ true
    → key_of_value host v ≡ key_of_value host w
unfolding matches key_of_value
matches-key host (string_value v) (string_value w) shows e = (eq_iff v w).0 e
matches-key host (integer_value a) (integer_value b) shows e =
    ap (λ z. "i:" <> host.show_integer z) (int_leb_antisym a b e)
matches-key host (number_value a) (number_value b) shows e = number_key-eq host a b shows e
matches-key host v w shows e = cc
