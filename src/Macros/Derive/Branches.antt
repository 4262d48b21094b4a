-- ===== src/Macros/Derive/Branches.antt =====
-- The first branch that matches the value of a choice is that of the choice.
use gloam_macro_commands.Common.{
  String, true, ◌≡◌, refl, sym, ap, subst, ◌∙◌, Option, none, some, List, [], ◌∷◌, ◌++◌, map, find,
  Memᴰ, Distinct, Distinct-snoc, contains-absent, arith, not-eq-true, eq_refl,
}
use mathlib.Core.List.{append-nil, append_assoc}
use gloam_macro_commands.Common.Integer.{ℤ, pos, negsuc, int_leb}
use gloam_macro_commands.Common.Binary64.{
  nan, infinite, finite, scaled, is_finite, f64_eq, f64_leb, f64_of_int,
}
use gloam_macro_commands.Error
use gloam_macro_commands.Macros.Syntax.{
  Result, ok, err, or_fail, checked_iff, >>=-eq-ok, seq_iff, guard_iff, ok-injective, Ident, Lit,
  str_lit, int_lit, float_lit, other_lit, Expr, transpose-eq-ok, transpose,
}
use gloam_macro_commands.Macros.Bounds.{parse_integer_bound, parse_number_bound}
use gloam_macro_commands.Macros.Bounds.Ranges.{parse_number_bound-IsSafe}
use gloam_macro_commands.Macros.Derive.{
  ParsedValue, string_value, integer_value, number_value, VariantChoice, ChoiceKind, string,
  integer, number, Variant, Host, value_of_literal, parse_value, parse_variant, value_of,
  key_of_value, value_key, duplicates_from, literal, choice_attribute,
}
use gloam_macro_commands.Macros.Derive.Generated.{matches, branches}
use gloam_macro_commands.Macros.Derive.Equality.{ShowsValues, find-only, matches-key}

-- The key of a choice that has one.
abbrev pub key_or : Result String → String
key_or (ok key) = key
key_or (err m) = ""

abbrev pub keys : Host → ChoiceKind → List VariantChoice → List String
keys host kind cs = map (λ c. key_or (value_key host kind c)) cs

pub duplicates_from-Distinct :
    (host : Host) (kind : ChoiceKind) (names values : List String) (cs : List VariantChoice)
    → duplicates_from host kind names values cs ≡ ok tt
    → Distinct values
    → Distinct (values ++ keys host kind cs)
unfolding duplicates_from
duplicates_from-Distinct host kind names values [] e d = subst Distinct (sym (append-nil values)) d
duplicates_from-Distinct host kind names values (c ∷ rest) e d =
    let (_, keyed) = (seq_iff _ _ tt).0 e in
    let (key, here, checked) = >>=-eq-ok (value_key host kind c) _ keyed in
    let (fresh, more) = (seq_iff _ _ tt).0 checked in
    let all =
      duplicates_from-Distinct host kind (names ++ c.name ∷ []) (values ++ key ∷ []) rest more (
        Distinct-snoc values key d
          (contains-absent values key (not-eq-true _ ((guard_iff _ _).0 fresh)))) in
    subst Distinct
      (append_assoc values (key ∷ []) (keys host kind rest)
        ∙ ap (λ k. values ++ k ∷ keys host kind rest) (sym (ap key_or here)))
      all

-- A number among the values is finite, so that it equals itself.
abbrev pub IsReflexive : Option ParsedValue → Type 0
IsReflexive (some (number_value v)) = is_finite v ≡ true
IsReflexive _ = Unit {0}

pub value_of_literal-IsReflexive :
    (e : Expr) (l : Lit) (v : ParsedValue) → value_of_literal e l ≡ ok v → IsReflexive (some v)
unfolding value_of_literal
value_of_literal-IsReflexive e (str_lit t) v h =
    subst (λ v. IsReflexive (some v)) (ok-injective ((seq_iff _ _ v).0 h).1) tt
value_of_literal-IsReflexive e (int_lit n) v h =
    let (z, _, same) = >>=-eq-ok (parse_integer_bound e) _ h in
    subst (λ v. IsReflexive (some v)) (ok-injective same) tt
value_of_literal-IsReflexive e (float_lit x) v h =
    let (y, here, same) = >>=-eq-ok (parse_number_bound e) _ h in
    subst (λ v. IsReflexive (some v)) (ok-injective same) (parse_number_bound-IsSafe e y here).0
value_of_literal-IsReflexive e (other_lit n) v h = cc

pub parse_value-IsReflexive :
    (o : Option Expr) (r : Option ParsedValue) → transpose parse_value o ≡ ok r → IsReflexive r
unfolding parse_value
parse_value-IsReflexive none r e = subst IsReflexive (ok-injective e) tt
parse_value-IsReflexive (some x) r e =
    let (v, here, same) = transpose-eq-ok parse_value x r e in
    let (l, _, valued) = >>=-eq-ok (or_fail (literal x) _) _ here in
    subst IsReflexive (sym same) (value_of_literal-IsReflexive x l v valued)

pub parse_variant-fields :
    (host : Host) (v : Variant) (c : VariantChoice)
    → parse_variant host v ≡ ok c
    → (c.variant ≡ v.ident) × IsReflexive c.value
unfolding parse_variant
parse_variant-fields host v c e =
    let (_, e₁) = (seq_iff _ _ c).0 e in
    let (attached, _, e₂) = >>=-eq-ok (choice_attribute none v.attrs) _ e₁ in
    let (attribute, _, e₃) = >>=-eq-ok (or_fail attached _) _ e₂ in
    let (args, _, e₄) = >>=-eq-ok (host.parse_args attribute.meta) _ e₃ in
    let (name, _, e₅) = >>=-eq-ok (or_fail args.name _) _ e₄ in
    let (_, e₆) = (seq_iff _ _ c).0 e₅ in
    let (value, valued, e₇) = >>=-eq-ok (transpose parse_value args.value) _ e₆ in
    let (_, same) = (checked_iff _ _ _ c).0 e₇ in
    (
      sym (ap (λ c. c.variant) same),
      subst (λ c. IsReflexive c.value) same (parse_value-IsReflexive args.value value valued),
    )

pub int_leb_refl : (z : ℤ) → int_leb z z ≡ true
int_leb_refl z = ground arith

pub matches_refl : (v : ParsedValue) → IsReflexive (some v) → matches v (some v) ≡ true
unfolding matches f64_eq f64_leb is_finite
matches_refl (string_value v) h = eq_refl v
matches_refl (integer_value z) h = ground (arith, int_leb_refl z)
matches_refl (number_value (finite s m e)) h = ground (arith, int_leb_refl (scaled s m e))
matches_refl (number_value nan) h = cc
matches_refl (number_value (infinite t)) h = cc

-- What the choice stands for is reflexive too.
pub value_of-IsReflexive :
    (kind : ChoiceKind) (i : Ident) (given : Option ParsedValue) (v : ParsedValue)
    → value_of kind i given ≡ some v
    → IsReflexive given
    → IsReflexive (some v)
unfolding value_of f64_of_int is_finite
value_of-IsReflexive string i none v e h = subst IsReflexive e tt
value_of-IsReflexive string i (some (string_value t)) v e h = subst IsReflexive e tt
value_of-IsReflexive integer i (some (integer_value z)) v e h = subst IsReflexive e tt
value_of-IsReflexive number i (some (integer_value (pos n))) v e h = subst IsReflexive e refl
value_of-IsReflexive number i (some (integer_value (negsuc n))) v e h = subst IsReflexive e refl
value_of-IsReflexive number i (some (number_value x)) v e h = subst IsReflexive e h
value_of-IsReflexive kind i given v e h = cc

pub key_or-key_of_value :
    (host : Host) (kind : ChoiceKind) (c : VariantChoice) (v : ParsedValue)
    → value_of kind c.variant c.value ≡ some v
    → key_or (value_key host kind c) ≡ key_of_value host v
unfolding value_key
key_or-key_of_value host kind c v e = rw e refl

-- A choice whose branch matches the value has its key.
pub matching-key :
    (host : Host) (kind : ChoiceKind) (x : VariantChoice) (v : ParsedValue) (w : Option ParsedValue)
    → ShowsValues host
    → value_of kind x.variant x.value ≡ w
    → matches v w ≡ true
    → key_or (value_key host kind x) ≡ key_of_value host v
unfolding matches
matching-key host kind x v (some w) shows e hit =
    key_or-key_of_value host kind x w e ∙ sym (matches-key host v w shows hit)
matching-key host kind x (string_value t) none shows e hit = cc
matching-key host kind x (integer_value z) none shows e hit = cc
matching-key host kind x (number_value n) none shows e hit = cc

-- The first branch that matches the value of a choice is that of the choice.
pub branches-own :
    (host : Host) (kind : ChoiceKind) (cs : List VariantChoice) (name : String) (c : VariantChoice)
    (v : ParsedValue)
    → ShowsValues host
    → Distinct (keys host kind cs)
    → Memᴰ c cs
    → IsReflexive c.value
    → value_of kind c.variant c.value ≡ some v
    → branches kind cs name v ≡ Error.ok c.variant
unfolding branches
branches-own host kind cs name c v shows distinct m reflexive own =
    let first : find (λ x. matches v (value_of kind x.variant x.value)) cs ≡ some c =
      find-only (λ x. matches v (value_of kind x.variant x.value))
        (λ c. key_or (value_key host kind c)) cs c m
        (ap (matches v) own
          ∙ matches_refl v (value_of-IsReflexive kind c.variant c.value v own reflexive))
        (λ x hit.
          matching-key host kind x v (value_of kind x.variant x.value) shows refl hit
          ∙ sym (key_or-key_of_value host kind c v own))
        distinct in
    rw (branches, first) refl
