-- ===== src/Common/Text.antt =====
-- Text: joining, the code-point order of `str` (which is its byte order in UTF-8).
use Prim.Native.Char.{Char, code}
use Prim.Native.String
use Prim.Native.String.{String}
use mathlib.Core.Path.{◌≡◌, refl, ap₂}
use mathlib.Core.Bool.{Bool, true, false, ◌&&◌, ◌||◌}
use mathlib.Core.List.{List, [], ◌∷◌}
use native.Mathlib.Omega.{arith}
use text.Mathlib.Text.{◌==◌}
use text.Mathlib.TextEquality.{codes_equal}
use gloam_macro_commands.Common.Tests.{ltb, nat_eq}

-- `a == b` on texts.
abbrev pub str_eq : String → String → Bool
str_eq a b = a == b

infixr 66 ◌<>◌
abbrev pub ◌<>◌ : String → String → String
a <> b = String.◌++◌ a b

-- `parts.join(" ")`.
abbrev pub join : List String → String
join [] = ""
join (x ∷ []) = x
join (x ∷ y ∷ ys) = x <> " " <> join (y ∷ ys)

abbrev pub contains : List String → String → Bool
contains [] a = false
contains (x ∷ xs) a = str_eq x a || contains xs a

code_injective : (x y : Char) → code x ≡ code y → x ≡ y
code_injective x y e = codes_equal x y (ground arith)

-- `a < b` on texts, by code points.
pub str_ltb : String → String → Bool
str_ltb String.[] String.[] = false
str_ltb String.[] (String.◌∷◌ d t) = true
str_ltb (String.◌∷◌ c s) String.[] = false
str_ltb (String.◌∷◌ c s) (String.◌∷◌ d t) =
    ltb (code c) (code d) || (nat_eq (code c) (code d) && str_ltb s t)

pub str_ltb_trans : (a b c : String) → str_ltb a b ≡ true → str_ltb b c ≡ true → str_ltb a c ≡ true
unfolding str_ltb
str_ltb_trans String.[] String.[] c p q = cc
str_ltb_trans String.[] (String.◌∷◌ _ _) String.[] p q = cc
str_ltb_trans String.[] (String.◌∷◌ _ _) (String.◌∷◌ _ _) p q = refl
str_ltb_trans (String.◌∷◌ _ _) String.[] c p q = cc
str_ltb_trans (String.◌∷◌ _ _) (String.◌∷◌ _ _) String.[] p q = cc
str_ltb_trans (String.◌∷◌ x a) (String.◌∷◌ y b) (String.◌∷◌ z c) p q =
    ground (arith, str_ltb_trans a b c)

pub str_ltb_irrefl : (a : String) → str_ltb a a ≡ false
unfolding str_ltb
str_ltb_irrefl String.[] = refl
str_ltb_irrefl (String.◌∷◌ c s) = ground (arith, str_ltb_irrefl s)

pub str_ltb_connex : (a b : String) → str_ltb a b ≡ false → str_ltb b a ≡ false → a ≡ b
unfolding str_ltb
str_ltb_connex String.[] String.[] p q = refl
str_ltb_connex String.[] (String.◌∷◌ _ _) p q = cc
str_ltb_connex (String.◌∷◌ _ _) String.[] p q = cc
str_ltb_connex (String.◌∷◌ x a) (String.◌∷◌ y b) p q =
    let same : code x ≡ code y = ground arith in
    let here : x ≡ y = code_injective x y same in
    let rest : a ≡ b = str_ltb_connex a b (ground arith) (ground arith) in ap₂ String.◌∷◌ here rest
