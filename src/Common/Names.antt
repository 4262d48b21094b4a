-- ===== src/Common/Names.antt =====
-- Sets of names kept as lists: membership, names without repetition.
use mathlib.Core.Path.{◌≡◌, refl, sym}
use mathlib.Core.Logic.{◌↔◌, ◌⊎◌, inl, inr}
use mathlib.Core.Bool.{true, false}
use mathlib.Core.List.{List, [], ◌∷◌, Memᴰ}
use native.Mathlib.Omega.{arith}
use Prim.Native.String.{String}
use text.Mathlib.TextEquality.{eq_iff}
use gloam_macro_commands.Common.Tests.{Bool-cases}
use gloam_macro_commands.Common.Lists.{All, is_empty}
use gloam_macro_commands.Common.Text.{contains, str_eq}

pub contains_iff : (xs : List String) (a : String) → (contains xs a ≡ true) ↔ Memᴰ a xs
contains_iff [] a = (λ e. cc, λ m. elim m [ ])
contains_iff (x ∷ xs) a = (to (contains_iff xs a).0, from (contains_iff xs a).1)
  where
    to : (contains xs a ≡ true → Memᴰ a xs) → contains (x ∷ xs) a ≡ true → Memᴰ a (x ∷ xs)
    to ih e = elim (Bool-cases (str_eq x a)) [
      | inl same ↦ Memᴰ.head (sym ((eq_iff x a).0 same))
      | inr other ↦ Memᴰ.tail (ih (ground arith))
    ]

    from : (Memᴰ a xs → contains xs a ≡ true) → Memᴰ a (x ∷ xs) → contains (x ∷ xs) a ≡ true
    from ih (Memᴰ.head e) = ground (arith, eq_iff x a)
    from ih (Memᴰ.tail m) = ground (arith, ih m)

pub not_contains :
    (seen : List String) (name : String) → ¬ Memᴰ name seen → contains seen name ≡ false
not_contains seen name h = elim (Bool-cases (contains seen name)) [
  | inl e ↦ absurd (h ((contains_iff seen name).0 e))
  | inr e ↦ e
]

pub contains-absent :
    (seen : List String) (name : String) → contains seen name ≡ false → ¬ Memᴰ name seen
contains-absent seen name e m = cc (e, (contains_iff seen name).1 m)

-- No name occurs twice.
abbrev pub Unique : List String → Type 0
Unique [] = Unit {0}
Unique (x ∷ xs) = (¬ Memᴰ x xs) × Unique xs

-- None of the names is in `seen`.
abbrev pub AllFresh : List String → List String → Type 0
AllFresh seen names = All (λ n. ¬ Memᴰ n seen) names

pub AllFresh-cons :
    (n : String) (seen names : List String)
    → AllFresh (n ∷ seen) names
    → AllFresh seen names × (¬ Memᴰ n names)
AllFresh-cons n seen [] h = (tt, λ m. elim m [ ])
AllFresh-cons n seen (x ∷ names) (h, hs) =
    let (fresh, absent) = AllFresh-cons n seen names hs in
    ((λ m. h (Memᴰ.tail m), fresh), λ m. not_here m h absent)
  where
    not_here : Memᴰ n (x ∷ names) → ¬ Memᴰ x (n ∷ seen) → ¬ Memᴰ n names → ⊥
    not_here (Memᴰ.head e) h absent = h (Memᴰ.head (sym e))
    not_here (Memᴰ.tail m) h absent = absent m

pub cons-AllFresh :
    (n : String) (seen names : List String)
    → AllFresh seen names
    → ¬ Memᴰ n names
    → AllFresh (n ∷ seen) names
cons-AllFresh n seen [] h absent = tt
cons-AllFresh n seen (x ∷ names) (h, hs) absent =
    (not_in, cons-AllFresh n seen names hs (λ m. absent (Memᴰ.tail m)))
  where
    not_in : Memᴰ x (n ∷ seen) → ⊥
    not_in (Memᴰ.head e) = absent (Memᴰ.head (sym e))
    not_in (Memᴰ.tail m) = h m

-- The order in which the loop collects the names.
abbrev pub collected : List String → List String → List String
collected [] seen = seen
collected (n ∷ ns) seen = collected ns (n ∷ seen)

pub collected-Memᴰ :
    (n : String) (names seen : List String)
    → Memᴰ n (collected names seen)
    → Memᴰ n names ⊎ Memᴰ n seen
collected-Memᴰ n [] seen m = inr m
collected-Memᴰ n (x ∷ names) seen m = split (collected-Memᴰ n names (x ∷ seen) m)
  where
    split : Memᴰ n names ⊎ Memᴰ n (x ∷ seen) → Memᴰ n (x ∷ names) ⊎ Memᴰ n seen
    split (inl h) = inl (Memᴰ.tail h)
    split (inr (Memᴰ.head e)) = inl (Memᴰ.head e)
    split (inr (Memᴰ.tail h)) = inr h

pub Memᴰ-collected :
    (n : String) (names seen : List String)
    → Memᴰ n names ⊎ Memᴰ n seen
    → Memᴰ n (collected names seen)
Memᴰ-collected n [] seen (inl m) = elim m [ ]
Memᴰ-collected n [] seen (inr m) = m
Memᴰ-collected n (x ∷ names) seen (inl (Memᴰ.head e)) =
    Memᴰ-collected n names (x ∷ seen) (inr (Memᴰ.head e))
Memᴰ-collected n (x ∷ names) seen (inl (Memᴰ.tail m)) = Memᴰ-collected n names (x ∷ seen) (inl m)
Memᴰ-collected n (x ∷ names) seen (inr m) = Memᴰ-collected n names (x ∷ seen) (inr (Memᴰ.tail m))

pub no_names : (names : List String) → AllFresh [] names
no_names [] = tt
no_names (n ∷ names) = (λ m. elim m [ ], no_names names)

pub is_empty_iff {ℓ} : {A : Type ℓ} (xs : List A) → (is_empty xs ≡ true) ↔ (xs ≡ [])
is_empty_iff [] = (λ _. refl, λ _. refl)
is_empty_iff (x ∷ xs) = (λ e. cc, λ e. cc)
