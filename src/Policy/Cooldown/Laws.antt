-- ===== src/Policy/Cooldown/Laws.antt =====
-- The cooldown map: its keys stay distinct, and what a lookup finds after each operation.
use gloam_macro_commands.Common.{ℕ, ◌≡◌, refl, none, some, [], ◌∷◌, nat_eq, if◌then◌else◌, arith}
use gloam_macro_commands.Policy.Cooldown.{Cooldowns, get, insert, retain, active}

abbrev pub Distinct : Cooldowns → Type 0
Distinct [] = Unit {0}
Distinct ((u, deadline) ∷ rest) = (get u rest ≡ none) × Distinct rest

pub get-insert :
    (u user ready : ℕ) (m : Cooldowns)
    → get u (insert user ready m) ≡ (if nat_eq user u then some ready else get u m)
unfolding get insert
get-insert u user ready [] = refl
get-insert u user ready ((v, deadline) ∷ m) = ground (arith, get-insert u user ready m)

get-retain-none : (u now : ℕ) (m : Cooldowns) → get u m ≡ none → get u (retain now m) ≡ none
unfolding get retain
get-retain-none u now [] h = refl
get-retain-none u now ((v, deadline) ∷ m) h = ground (arith, get-retain-none u now m)

pub get-retain :
    (u now : ℕ) (m : Cooldowns) → Distinct m → get u (retain now m) ≡ active now (get u m)
unfolding get retain active
get-retain u now [] h = refl
get-retain u now ((v, deadline) ∷ m) (fresh, h) =
    ground (arith, get-retain u now m h, get-retain-none v now m fresh)

pub insert-Distinct : (user ready : ℕ) (m : Cooldowns) → Distinct m → Distinct (insert user ready m)
unfolding insert get
insert-Distinct user ready [] h = (refl, tt)
insert-Distinct user ready ((v, deadline) ∷ m) (fresh, h) =
    ground (arith, get-insert v user ready m, insert-Distinct user ready m h)

pub retain-Distinct : (now : ℕ) (m : Cooldowns) → Distinct m → Distinct (retain now m)
unfolding retain
retain-Distinct now [] h = tt
retain-Distinct now ((v, deadline) ∷ m) (fresh, h) =
    ground (arith, get-retain-none v now m fresh, retain-Distinct now m h)
