-- ===== src/Exec.antt =====
-- Effectful code that may fail: an action on a state `S` returns the new state with a result, and
-- an error keeps the effects that came before it.
use gloam_macro_commands.Common.{arith, ◌≡◌, refl, ◌↔◌}
use gloam_macro_commands.Error.{Error, Result, ok, err}

abbrev pub Exec : Type 0 → Type 0 → Type 0
Exec S A = S → S × Result A

abbrev pub pure : {S A : Type 0} → A → Exec S A
pure a s = (s, ok a)

abbrev pub lift : {S A : Type 0} → Result A → Exec S A
lift r s = (s, r)

abbrev pub after : {S A B : Type 0} → S × Result A → (A → Exec S B) → S × Result B
after (s, ok a) f = f a s
after (s, err e) f = (s, err e)

infixl 5 ◌>>=◌ ◌>>◌
abbrev pub ◌>>=◌ : {S A B : Type 0} → Exec S A → (A → Exec S B) → Exec S B
◌>>=◌ m f s = after (m s) f

abbrev pub ◌>>◌ : {S B : Type 0} → Exec S (Unit {0}) → Exec S B → Exec S B
m >> k = m >>= λ _. k

-- Inversion of a step that succeeded.
pub >>=-eq-ok :
    {S A B : Type 0} (r : S × Result A) (f : A → Exec S B) {t : S} {b : B}
    → after r f ≡ (t, ok b)
    → (s : S) × (a : A) × (r ≡ (s, ok a)) × (f a s ≡ (t, ok b))
>>=-eq-ok (s, ok a) f h = (s, a, refl, h)
>>=-eq-ok (s, err e) f h = cc

-- A step followed by another succeeds if both do.
pub after_iff :
    {S B : Type 0} (r : S × Result (Unit {0})) (f : Unit {0} → Exec S B) (b : B)
    → ((after r f).1 ≡ ok b) ↔ ((r.1 ≡ ok tt) × ((f tt r.0).1 ≡ ok b))
after_iff (s, ok tt) f b = (λ e. (refl, e), λ h. h.1)
after_iff (s, err e) f b = (λ h. cc, λ h. cc)

pub after_ok :
    {S B : Type 0} (r : S × Result (Unit {0})) (f : Unit {0} → Exec S B)
    → r.1 ≡ ok tt
    → after r f ≡ f tt r.0
after_ok (s, ok tt) f h = refl
after_ok (s, err e) f h = cc

pub after_err :
    {S B : Type 0} (r : S × Result (Unit {0})) (f : Unit {0} → Exec S B) (e : Error)
    → r.1 ≡ err e
    → after r f ≡ (r.0, err e)
after_err (s, ok tt) f e h = cc
after_err (s, err x) f e h = ground arith
