-- ===== src/Common/Lists.antt =====
-- Lists searched and measured with Boolean tests and native numbers.
use Prim.Native.Nat.{ℕ, zero, suc, ◌+◌}
use mathlib.Core.Path.{◌≡◌, refl, sym, subst, ap}
use mathlib.Core.Logic.{◌⊎◌, inl, inr}
use mathlib.Core.Bool.{Bool, true, false, ◌&&◌, ◌||◌}
use mathlib.Core.List.{List, [], ◌∷◌, ◌++◌, map, Memᴰ}
use mathlib.Core.Option.{Option, none, some}
use native.Mathlib.Omega.{arith}
use gloam_macro_commands.Common.Tests.{if◌then◌else◌, Bool-cases}

module _ {ℓ} {A : Type ℓ} where
  abbrev pub length : List A → ℕ
  length [] = 0
  length (x ∷ xs) = suc (length xs)

  abbrev pub get_elem? : List A → ℕ → Option A
  get_elem? [] i = none
  get_elem? (x ∷ xs) zero = some x
  get_elem? (x ∷ xs) (suc i) = get_elem? xs i

  abbrev pub is_empty : List A → Bool
  is_empty [] = true
  is_empty (x ∷ xs) = false

  -- The first element that passes the test.
  abbrev pub find : (A → Bool) → List A → Option A
  find p [] = none
  find p (x ∷ xs) = if p x then some x else find p xs

  abbrev pub any : (A → Bool) → List A → Bool
  any p [] = false
  any p (x ∷ xs) = p x || any p xs

  abbrev pub all : (A → Bool) → List A → Bool
  all p [] = true
  all p (x ∷ xs) = p x && all p xs

  abbrev pub is_some : Option A → Bool
  is_some none = false
  is_some (some x) = true

  pub length-append : (xs ys : List A) → length (xs ++ ys) ≡ length xs + length ys
  length-append [] ys = omega arith
  length-append (x ∷ xs) ys = omega (arith, length-append xs ys)

  pub find-Memᴰ : (p : A → Bool) (xs : List A) {a : A} → find p xs ≡ some a → Memᴰ a xs
  find-Memᴰ p [] e = cc
  find-Memᴰ p (x ∷ xs) e = elim (Bool-cases (p x)) [
    | inl hit ↦ Memᴰ.head (ground arith)
    | inr miss ↦ Memᴰ.tail (find-Memᴰ p xs (ground arith))
  ]

  pub find-passes : (p : A → Bool) (xs : List A) {a : A} → find p xs ≡ some a → p a ≡ true
  find-passes p [] {a} e = cc
  find-passes p (x ∷ xs) {a} e = ground (arith, find-passes p xs {a = a})

  -- No element occurs twice.
  abbrev pub Distinct : List A → Type ℓ
  Distinct [] = Unit
  Distinct (x ∷ xs) = (¬ Memᴰ x xs) × Distinct xs

module _ {ℓ κ} {A : Type ℓ} (P : A → Type κ) where
  abbrev pub All : List A → Type κ
  All [] = Unit
  All (x ∷ xs) = P x × All xs

  pub All-append : (xs ys : List A) → All xs → All ys → All (xs ++ ys)
  All-append [] ys hx hy = hy
  All-append (x ∷ xs) ys hx hy = (hx.0, All-append xs ys hx.1 hy)

  pub All-Memᴰ : (xs : List A) {a : A} → All xs → Memᴰ a xs → P a
  All-Memᴰ [] h m = elim m [ ]
  All-Memᴰ (x ∷ xs) h (Memᴰ.head e) = subst P (sym e) h.0
  All-Memᴰ (x ∷ xs) h (Memᴰ.tail m) = All-Memᴰ xs h.1 m

pub length-map {ℓ κ} :
    {A : Type ℓ} {B : Type κ} (f : A → B) (xs : List A) → length (map f xs) ≡ length xs
length-map f [] = refl
length-map f (x ∷ xs) = ap suc (length-map f xs)

pub All-imp {ℓ κ μ} :
    {A : Type ℓ} (P : A → Type κ) (Q : A → Type μ) (xs : List A)
    → ((a : A) → P a → Q a)
    → All P xs
    → All Q xs
All-imp P Q [] f h = tt
All-imp P Q (x ∷ xs) f (h, hs) = (f x h, All-imp P Q xs f hs)

pub Memᴰ-map {ℓ κ} :
    {A : Type ℓ} {B : Type κ} (f : A → B) {a : A} {xs : List A} → Memᴰ a xs → Memᴰ (f a) (map f xs)
Memᴰ-map f (Memᴰ.head e) = Memᴰ.head (ap f e)
Memᴰ-map f (Memᴰ.tail m) = Memᴰ.tail (Memᴰ-map f m)

pub Memᴰ-map-inverse {ℓ κ} :
    {A : Type ℓ} {B : Type κ} (f : A → B) (xs : List A) {b : B}
    → Memᴰ b (map f xs)
    → (a : A) × Memᴰ a xs × (b ≡ f a)
Memᴰ-map-inverse f [] m = elim m [ ]
Memᴰ-map-inverse f (x ∷ xs) (Memᴰ.head e) = (x, Memᴰ.head refl, e)
Memᴰ-map-inverse f (x ∷ xs) (Memᴰ.tail m) =
    let (a, n, e) = Memᴰ-map-inverse f xs m in (a, Memᴰ.tail n, e)

module _ {ℓ} {A : Type ℓ} where
  Memᴰ-append : (x : A) (xs ys : List A) → Memᴰ x (xs ++ ys) → Memᴰ x xs ⊎ Memᴰ x ys
  Memᴰ-append x [] ys m = inr m
  Memᴰ-append x (y ∷ xs) ys (Memᴰ.head e) = inl (Memᴰ.head e)
  Memᴰ-append x (y ∷ xs) ys (Memᴰ.tail m) = elim (Memᴰ-append x xs ys m) [
    | inl h ↦ inl (Memᴰ.tail h)
    | inr h ↦ inr h
  ]

  Memᴰ-middle : (xs ys : List A) (y : A) → Memᴰ y (xs ++ y ∷ ys)
  Memᴰ-middle [] ys y = Memᴰ.head refl
  Memᴰ-middle (x ∷ xs) ys y = Memᴰ.tail (Memᴰ-middle xs ys y)

  pub Distinct-snoc : (xs : List A) (y : A) → Distinct xs → ¬ Memᴰ y xs → Distinct (xs ++ y ∷ [])
  Distinct-snoc [] y d h = (λ m. elim m [ ], tt)
  Distinct-snoc (x ∷ xs) y (fresh, d) h = (
    λ m. elim (Memᴰ-append x xs (y ∷ []) m) [
      | inl there ↦ fresh there
      | inr here ↦ h (Memᴰ.head (sym (only here)))
    ],
    Distinct-snoc xs y d (λ m. h (Memᴰ.tail m)),
  )
    where
      only : Memᴰ x (y ∷ []) → x ≡ y
      only (Memᴰ.head e) = e
      only (Memᴰ.tail m) = elim m [ ]

  pub Distinct-middle : (xs ys : List A) (y : A) → Distinct (xs ++ y ∷ ys) → ¬ Memᴰ y xs
  Distinct-middle [] ys y d m = elim m [ ]
  Distinct-middle (x ∷ xs) ys y (fresh, d) (Memᴰ.head e) =
      fresh (subst (λ z. Memᴰ z (xs ++ y ∷ ys)) e (Memᴰ-middle xs ys y))
  Distinct-middle (x ∷ xs) ys y (fresh, d) (Memᴰ.tail m) = Distinct-middle xs ys y d m
