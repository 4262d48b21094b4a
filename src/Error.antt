-- ===== src/Error.antt =====
-- crates/gloam-commands/src/error.rs: the framework's errors and its `Result`. An error value of
-- serde_json, tokio or Gloamwire that the framework only carries is a number that stands for it.
use gloam_macro_commands.Common.{
  ℕ, String, Bool, true, false, ◌≡◌, refl, ◌↔◌, ◌⊎◌, inl, inr, arith, Option, none, some, List, [],
  ◌∷◌, map, All,
}

pub data Error : Type 0 where
  duplicate_command : (name : String) → Error
  duplicate_command_path : (path : String) → Error
  invalid_command_hierarchy : (path : String) → Error
  unknown_command_path : (path : String) → Error
  invalid_autocomplete_configuration : (path : String) → Error
  invalid_autocomplete_focus : (path : String) → Error
  unknown_autocomplete_option : (path option : String) → Error
  invalid_autocomplete_response : (reason : String) → Error
  invalid_command_policy : (path : String) → Error
  command_context_not_allowed : (path : String) → Error
  missing_member_permissions : (path : String) (required actual : ℕ) → Error
  missing_bot_permissions : (path : String) (required actual : ℕ) → Error
  command_check_failed : (path check : String) → Error
  command_user_unavailable : (path : String) → Error
  command_on_cooldown : (path : String) (retry_after : ℕ) → Error
  invalid_concurrency_limit : Error
  invalid_interaction_payload : (cause : ℕ) → Error
  missing_application_command_data : Error
  missing_option : (name : String) → Error
  invalid_option : (name expected : String) → Error
  invalid_choice : (name : String) → Error
  interaction_not_acknowledged : Error
  interaction_already_acknowledged : Error
  original_response_deleted : Error
  response_visibility_mismatch : Error
  no_async_runtime : Error
  command_scheduler_closed : Error
  command_task : (cause : ℕ) → Error
  gloamwire : (cause : ℕ) → Error

pub data Result {ℓ} (A : Type ℓ) : Type ℓ where
  ok : A → Result A
  err : Error → Result A

abbrev pub is_ok {ℓ} : {A : Type ℓ} → Result A → Bool
is_ok (ok a) = true
is_ok (err e) = false

-- `if !test { return Err(error) }`.
abbrev pub guard : (test : Bool) → Error → Result (Unit {0})
guard false error = err error
guard true error = ok tt

-- `?`: an error ends the function.
infixl 5 ◌>>=◌
abbrev pub ◌>>=◌ {ℓ κ} : {A : Type ℓ} {B : Type κ} → Result A → (A → Result B) → Result B
ok value >>= next = next value
err error >>= next = err error

infixl 5 ◌>>◌
abbrev pub ◌>>◌ {ℓ} : {B : Type ℓ} → Result (Unit {0}) → Result B → Result B
first >> next = first >>= λ _. next

abbrev pub map_ok {ℓ κ} : {A : Type ℓ} {B : Type κ} → (A → B) → Result A → Result B
map_ok f (ok a) = ok (f a)
map_ok f (err e) = err e

-- `option.ok_or(e)?`.
abbrev pub or_fail {ℓ} : {A : Type ℓ} → Option A → Error → Result A
or_fail none e = err e
or_fail (some a) e = ok a

-- `items.map(f).collect::<Result<Vec<_>>>()`.
unfoldable pub collect {ℓ κ} : {A : Type ℓ} {B : Type κ} → (A → Result B) → List A → Result (List B)
collect f [] = ok []
collect f (a ∷ rest) = do b ← f a; bs ← collect f rest; ok (b ∷ bs)

pub >>=-eq-ok {ℓ κ} :
    {A : Type ℓ} {B : Type κ} (r : Result A) (next : A → Result B) {b : B}
    → (r >>= next) ≡ ok b
    → (value : A) × (r ≡ ok value) × (next value ≡ ok b)
>>=-eq-ok (err error) next h = cc
>>=-eq-ok (ok value) next h = (value, refl, h)

pub seq_iff {ℓ} :
    {B : Type ℓ} (m : Result (Unit {0})) (k : Result B) (b : B)
    → ((m >> k) ≡ ok b) ↔ ((m ≡ ok tt) × (k ≡ ok b))
seq_iff (ok tt) k b = (λ e. (refl, e), λ h. h.1)
seq_iff (err x) k b = (λ h. cc, λ h. cc)

pub guard_iff : (b : Bool) (e : Error) → (guard b e ≡ ok tt) ↔ (b ≡ true)
guard_iff b e = ground arith

pub seq_assoc {ℓ} :
    {B : Type ℓ} (m n : Result (Unit {0})) (k : Result B) → ((m >> n) >> k) ≡ (m >> (n >> k))
seq_assoc (ok tt) n k = refl
seq_assoc (err x) n k = refl

pub Result-cases : (r : Result (Unit {0})) → (r ≡ ok tt) ⊎ ((e : Error) × (r ≡ err e))
Result-cases (ok tt) = inl refl
Result-cases (err e) = inr (e, refl)

-- `collect`'s step, from what the head and the tail answer.
cons_iff {κ μ} :
    {B : Type κ} (P : Type μ) (Q : Type μ) (g : B) (gs : List B) (r : Result B)
    (rs : Result (List B)) (ys : List B)
    → ((b : B) → (r ≡ ok b) ↔ (P × (b ≡ g)))
    → ((bs : List B) → (rs ≡ ok bs) ↔ (Q × (bs ≡ gs)))
    → ((r >>= λ b. rs >>= λ bs. ok (b ∷ bs)) ≡ ok ys) ↔ ((P × Q) × (ys ≡ g ∷ gs))
cons_iff P Q g gs (ok b) (ok bs) ys h hs = (
  λ k. let (p, here) = (h b).0 refl in let (q, rest) = (hs bs).0 refl in ((p, q), cc),
  λ k.
      let here : ok b ≡ ok g = (h g).1 (k.0.0, refl) in
      let rest : ok bs ≡ ok gs = (hs gs).1 (k.0.1, refl) in cc,
)
cons_iff P Q g gs (ok b) (err y) ys h hs =
    (λ k. cc, λ k. let rest : err y ≡ ok gs = (hs gs).1 (k.0.1, refl) in cc)
cons_iff P Q g gs (err y) rs ys h hs =
    (λ k. cc, λ k. let here : err y ≡ ok g = (h g).1 (k.0.0, refl) in cc)

pub collect_iff {ℓ κ μ} :
    {A : Type ℓ} {B : Type κ} (f : A → Result B) (P : A → Type μ) (g : A → B)
    → ((a : A) (b : B) → (f a ≡ ok b) ↔ (P a × (b ≡ g a)))
    → (xs : List A) (ys : List B) → (collect f xs ≡ ok ys) ↔ (All P xs × (ys ≡ map g xs))
unfolding collect
collect_iff f P g h [] ys = (λ e. (tt, cc), λ e. cc)
collect_iff f P g h (x ∷ xs) ys =
    cons_iff (P x) (All P xs) (g x) (map g xs) (f x) (collect f xs) ys (h x)
      (λ bs. collect_iff f P g h xs bs)
