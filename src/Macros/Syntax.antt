-- ===== src/Macros/Syntax.antt =====
-- crates/gloam-commands-macros/src: the parts of syn's syntax trees that the macros read, and the
-- result of an expansion. The span of an error is left out.
use gloam_macro_commands.Common.{
  ℕ, String, Bool, true, false, ◌≡◌, refl, sym, ap, subst, ◌∙◌, Memᴰ, ◌↔◌, ◌⊎◌, inl, inr, Option,
  none, some, List, [], ◌∷◌, ◌<>◌, str_eq, if◌then◌else◌,
}
use gloam_macro_commands.Common.Binary64.{F64}

-- syn::Result, an error by its message.
pub data Result {ℓ} (A : Type ℓ) : Type ℓ where
  ok : A → Result A
  err : (message : String) → Result A

infixl 5 ◌>>=◌
abbrev pub ◌>>=◌ {ℓ κ} : {A : Type ℓ} {B : Type κ} → Result A → (A → Result B) → Result B
ok value >>= next = next value
err message >>= next = err message

infixl 5 ◌>>◌
abbrev pub ◌>>◌ {ℓ} : {B : Type ℓ} → Result (Unit {0}) → Result B → Result B
first >> next = first >>= λ _. next

-- `if !test { return Err(message) }`.
abbrev pub guard : (test : Bool) → String → Result (Unit {0})
guard false message = err message
guard true message = ok tt

-- `option.ok_or_else(|| message)?`.
abbrev pub or_fail {ℓ} : {A : Type ℓ} → Option A → String → Result A
or_fail none message = err message
or_fail (some a) message = ok a

-- `option.map(f).transpose()`.
abbrev pub transpose {ℓ κ} :
    {A : Type ℓ} {B : Type κ} → (A → Result B) → Option A → Result (Option B)
transpose f none = ok none
transpose f (some a) = f a >>= λ b. ok (some b)

-- `items.map(f).collect::<Result<Vec<_>>>()`.
unfoldable pub collect {ℓ κ} : {A : Type ℓ} {B : Type κ} → (A → Result B) → List A → Result (List B)
collect f [] = ok []
collect f (a ∷ rest) = do b ← f a; bs ← collect f rest; ok (b ∷ bs)

-- An identifier, with `r#` or without.
pub record Ident : Type 0 where
  pub raw : Bool
  pub name : String

abbrev pub ident_text : Ident → String
ident_text i = (if i.raw then "r#" else "") <> i.name

-- `ident == text`.
abbrev pub is_ident : Ident → String → Bool
is_ident i text = str_eq (ident_text i) text

-- `ident.unraw().to_string()`.
abbrev pub unraw : Ident → String
unraw i = i.name

-- Paths and types, with the list types of their parts. A tuple type is given by the number of its
-- elements and any other type by a number that stands for it.
mutual
  pub data Ty : Type 0 where
    path_type : Segments → Ty
    tuple_type : (elems : ℕ) → Ty
    other_type : ℕ → Ty

  pub data Segments : Type 0 where
    nil : Segments
    cons : Ident → PathArguments → Segments → Segments

  pub data PathArguments : Type 0 where
    no_arguments : PathArguments
    angle_bracketed : GenericArguments → PathArguments
    parenthesized : ℕ → PathArguments

  pub data GenericArguments : Type 0 where
    end_args : GenericArguments
    type_arg : Ty → GenericArguments → GenericArguments
    other_arg : ℕ → GenericArguments → GenericArguments

-- A segment of a path.
pub record Segment : Type 0 where
  pub ident : Ident
  pub arguments : PathArguments

abbrev pub segments_list : Segments → List Segment
segments_list nil = []
segments_list (cons i a more) = record { ident = i; arguments = a } ∷ segments_list more

abbrev pub last_segment : Segments → Option Segment
last_segment nil = none
last_segment (cons i a nil) = some (record { ident = i; arguments = a })
last_segment (cons i a (cons j b more)) = last_segment (cons j b more)

abbrev pub plain_arguments : PathArguments → Bool
plain_arguments no_arguments = true
plain_arguments (angle_bracketed _) = false
plain_arguments (parenthesized _) = false

-- A literal. An integer literal is the number that its digits denote, and a number with a fraction
-- or an exponent is what `base10_parse::<f64>` answers.
pub data Lit : Type 0 where
  str_lit : String → Lit
  int_lit : (value : ℕ) → Lit
  float_lit : (value : Option F64) → Lit
  other_lit : ℕ → Lit

pub data Expr : Type 0 where
  lit_expr : Lit → Expr
  neg_expr : Expr → Expr
  path_expr : (qself : Bool) → Segments → Expr
  other_expr : ℕ → Expr

-- Meta: `path`, `path(..)` and `path = value`.
pub data Meta (A : Type 0) : Type 0 where
  bare_meta : Meta A
  list_meta : (arguments : Result A) → Meta A
  name_value : (value : Expr) → Meta A

pub ok-injective {ℓ} : {A : Type ℓ} {a b : A} → Result.ok a ≡ Result.ok b → a ≡ b
ok-injective e = cc

pub >>=-eq-ok {ℓ κ} :
    {A : Type ℓ} {B : Type κ} (r : Result A) (next : A → Result B) {b : B}
    → (r >>= next) ≡ ok b
    → (value : A) × (r ≡ ok value) × (next value ≡ ok b)
>>=-eq-ok (err message) next h = cc
>>=-eq-ok (ok value) next h = (value, refl, h)

pub seq_iff {ℓ} :
    {B : Type ℓ} (m : Result (Unit {0})) (k : Result B) (b : B)
    → ((m >> k) ≡ ok b) ↔ ((m ≡ ok tt) × (k ≡ ok b))
seq_iff (ok tt) k b = (λ e. (refl, e), λ h. h.1)
seq_iff (err x) k b = (λ h. cc, λ h. cc)

pub guard_iff : (b : Bool) (message : String) → (guard b message ≡ ok tt) ↔ (b ≡ true)
guard_iff true message = (λ _. refl, λ _. refl)
guard_iff false message = (λ e. cc, λ e. cc)

pub Result-cases {ℓ} :
    {A : Type ℓ} (r : Result A) → ((a : A) × (r ≡ ok a)) ⊎ ((message : String) × (r ≡ err message))
Result-cases (ok a) = inl (a, refl)
Result-cases (err message) = inr (message, refl)

-- `if !test { return Err(..) } Ok(value)`.
pub checked_iff {ℓ} :
    {A : Type ℓ} (test : Bool) (message : String) (a b : A)
    → ((guard test message >> ok a) ≡ ok b) ↔ ((test ≡ true) × (a ≡ b))
checked_iff true message a b = (λ e. (refl, ok-injective e), λ h. cc (h.1))
checked_iff false message a b = (λ e. cc, λ h. cc)

pub transpose-eq-ok {ℓ κ} :
    {A : Type ℓ} {B : Type κ} (f : A → Result B) (a : A) (o : Option B)
    → transpose f (some a) ≡ ok o
    → (b : B) × (f a ≡ ok b) × (o ≡ some b)
transpose-eq-ok f a o e =
    let (b, here, same) = >>=-eq-ok (f a) _ e in (b, here, sym (ok-injective same))

cons-cases {ℓ} : {A : Type ℓ} {a x : A} {xs : List A} → Memᴰ a (x ∷ xs) → (a ≡ x) ⊎ Memᴰ a xs
cons-cases (Memᴰ.head e) = inl e
cons-cases (Memᴰ.tail m) = inr m

-- Every result comes from an item.
pub collect-source {ℓ κ} :
    {A : Type ℓ} {B : Type κ} (f : A → Result B) (xs : List A) (ys : List B) {b : B}
    → collect f xs ≡ ok ys
    → Memᴰ b ys
    → (a : A) × (f a ≡ ok b) × Memᴰ a xs
unfolding collect
collect-source f [] ys {b} e m = elim (subst (Memᴰ b) (sym (ok-injective e)) m) [ ]
collect-source f (x ∷ xs) ys {b} e m =
    let (c, here, rest) = >>=-eq-ok (f x) _ e in
    let (cs, there, same) = >>=-eq-ok (collect f xs) _ rest in
    elim (cons-cases (subst (Memᴰ b) (sym (ok-injective same)) m)) [
      | inl first ↦ (x, here ∙ ap ok (sym first), Memᴰ.head refl)
      | inr later ↦
          let (a, got, among) = collect-source f xs cs there later in (a, got, Memᴰ.tail among)
    ]

pub or_fail-eq-ok {ℓ} :
    {A : Type ℓ} (o : Option A) (message : String) (a : A) → or_fail o message ≡ ok a → o ≡ some a
or_fail-eq-ok none message a e = cc
or_fail-eq-ok (some x) message a e = ap some (ok-injective e)
