-- ===== src/Options/Extraction.antt =====
-- crates/gloam-commands/src/options.rs: what extraction answers for a required and for an optional
-- parameter.
use gloam_macro_commands.Common.{
  ◌≡◌, refl, subst, Bool-cases, ◌↔◌, ◌⊎◌, inl, inr, arith, String, Bool, true, false, Option, none,
  some, List, [], ◌∷◌, is_some, ◌≢◌, All, str_eq, eq_iff,
}
use gloam_macro_commands.Error.{Error, Result, ok, err, missing_option, invalid_option}
use gloam_macro_commands.Discord.{
  OptionType, same_type, same_type_iff, InteractionValue, InteractionOption, option_kind,
  option_value, option_name,
}
use gloam_macro_commands.Options.{get_option, CommandOption, extract_value, read_value, optional}

not_same : (a b : String) → a ≢ b → str_eq a b ≡ false
not_same a b other = elim (Bool-cases (str_eq a b)) [
  | inl same ↦ absurd (other ((eq_iff a b).0 same))
  | inr h ↦ h
]

-- The first option of the name.
pub data IsFirst (name : String) : List InteractionOption → InteractionOption → Type 0 where
  here :
      (o : InteractionOption) (rest : List InteractionOption)
      → option_name o ≡ name
      → IsFirst name (o ∷ rest) o
  later :
      (o p : InteractionOption) (rest : List InteractionOption)
      → option_name o ≢ name
      → IsFirst name rest p
      → IsFirst name (o ∷ rest) p

IsFirst-get_option :
    (name : String) (options : List InteractionOption) (o : InteractionOption)
    → IsFirst name options o
    → get_option options name ≡ some o
unfolding get_option
IsFirst-get_option name _ o (here _ rest same) = rw ((eq_iff (option_name o) name).1 same) refl
IsFirst-get_option name _ o (later p _ rest other first) =
    rw (not_same (option_name p) name other) (IsFirst-get_option name rest o first)

pub get_option-IsFirst :
    (name : String) (options : List InteractionOption) (o : InteractionOption)
    → get_option options name ≡ some o
    → IsFirst name options o
unfolding get_option
get_option-IsFirst name [] o e = cc
get_option-IsFirst name (p ∷ rest) o e = elim (Bool-cases (str_eq (option_name p) name)) [
  | inl same ↦
      let found : p ≡ o = ground arith in
      subst (IsFirst name (p ∷ rest)) found (here p rest ((eq_iff (option_name p) name).0 same))
  | inr other ↦
      later p o rest
        (λ same.
          let t : str_eq (option_name p) name ≡ true = (eq_iff (option_name p) name).1 same in cc)
        (get_option-IsFirst name rest o (ground arith))
]

named_absent :
    (name : String) (options : List InteractionOption)
    → All (λ o. option_name o ≢ name) options
    → get_option options name ≡ none
unfolding get_option
named_absent name [] h = refl
named_absent name (p ∷ rest) (other, h) =
    rw (not_same (option_name p) name other) (named_absent name rest h)

absent_named :
    (name : String) (options : List InteractionOption)
    → get_option options name ≡ none
    → All (λ o. option_name o ≢ name) options
unfolding get_option
absent_named name [] e = tt
absent_named name (p ∷ rest) e = elim (Bool-cases (str_eq (option_name p) name)) [
  | inl same ↦ absurd (ground arith)
  | inr other ↦ (
    λ same. let t : str_eq (option_name p) name ≡ true = (eq_iff (option_name p) name).1 same in cc,
    absent_named name rest (ground arith),
  )
]

module _ {A : Type 0} (kind : OptionType) (expected : String)
    (read : InteractionValue → Option A) where
  -- What the parameter `name` gets, read off the submission: the answer of the specification.
  pub data Extracts (options : List InteractionOption) (name : String) : Result A → Type 0 where
    missing :
        All (λ o. option_name o ≢ name) options → Extracts options name (err (missing_option name))
    mismatched :
        (o : InteractionOption)
        → IsFirst name options o
        → (option_kind o ≡ kind → ⊥)
        → Extracts options name (err (invalid_option name expected))
    unreadable :
        (o : InteractionOption)
        → IsFirst name options o
        → read_value read (option_value o) ≡ none
        → Extracts options name (err (invalid_option name expected))
    found :
        (o : InteractionOption) (a : A)
        → IsFirst name options o
        → option_kind o ≡ kind
        → read_value read (option_value o) ≡ some a
        → Extracts options name (ok a)

  sound :
      (options : List InteractionOption) (name : String) (o : Option InteractionOption)
      → get_option options name ≡ o
      → Extracts options name (extract_value kind expected read options name)
  unfolding extract_value
  sound options name none e =
      let here : Extracts options name (err (missing_option name)) =
        missing (absent_named name options e) in
      subst (Extracts options name) (ground arith) here
  sound options name (some o) e = by_kind (Bool-cases (same_type (option_kind o) kind))
    where
      answer : Result A
      answer = extract_value kind expected read options name

      by_value :
          (v : Option A)
          → read_value read (option_value o) ≡ v
          → same_type (option_kind o) kind ≡ true
          → Extracts options name answer
      by_value none n k =
          let here : Extracts options name (err (invalid_option name expected)) =
            unreadable o (get_option-IsFirst name options o e) n in
          subst (Extracts options name) (ground arith) here
      by_value (some a) n k =
          let here : Extracts options name (ok a) =
            found o a (get_option-IsFirst name options o e) ((same_type_iff _ _).0 k) n in
          subst (Extracts options name) (ground arith) here

      by_kind :
          (same_type (option_kind o) kind ≡ true) ⊎ (same_type (option_kind o) kind ≡ false)
          → Extracts options name answer
      by_kind (inl k) = by_value (read_value read (option_value o)) refl k
      by_kind (inr k) =
          let here : Extracts options name (err (invalid_option name expected)) =
            mismatched o (get_option-IsFirst name options o e) (λ same.
              let t : same_type (option_kind o) kind ≡ true = (same_type_iff _ _).1 same in cc) in
          subst (Extracts options name) (ground arith) here

  complete :
      {options : List InteractionOption} {name : String} {r : Result A}
      → Extracts options name r
      → extract_value kind expected read options name ≡ r
  unfolding extract_value
  complete {options} {name} (missing e) = let here = named_absent name options e in ground arith
  complete {options} {name} (mismatched o f k) = by_kind (same_type (option_kind o) kind) refl
    where
      by_kind :
          (b : Bool)
          → same_type (option_kind o) kind ≡ b
          → extract_value kind expected read options name ≡ err (invalid_option name expected)
      by_kind true t = absurd (k ((same_type_iff _ _).0 t))
      by_kind false t = ground (arith, IsFirst-get_option name options o f)
  complete {options} {name} (unreadable o f n) = by_kind (same_type (option_kind o) kind) refl
    where
      by_kind :
          (b : Bool)
          → same_type (option_kind o) kind ≡ b
          → extract_value kind expected read options name ≡ err (invalid_option name expected)
      by_kind true t = ground (arith, IsFirst-get_option name options o f)
      by_kind false t = ground (arith, IsFirst-get_option name options o f)
  complete {options} {name} (found o a f k n) =
      let e = IsFirst-get_option name options o f in
      let same : same_type (option_kind o) kind ≡ true = (same_type_iff _ _).1 k in ground arith

  -- A required parameter gets the readable value of the first option with its name, if that has the
  -- parameter's kind; without such an option it is reported missing, and any other option with its
  -- name is reported invalid.
  pub extract_value_iff :
      (options : List InteractionOption) (name : String) (r : Result A)
      → (extract_value kind expected read options name ≡ r) ↔ Extracts options name r
  extract_value_iff options name r = (
    λ e. subst (Extracts options name) e (sound options name (get_option options name) refl),
    λ x. complete x,
  )

-- What an optional parameter gets from what its type extracts.
pub data ExtractsOptional {A : Type 0} (t : CommandOption A) (options : List InteractionOption)
    (name : String) : Result (Option A) → Type 0 where
  absent : get_option options name ≡ none → ExtractsOptional t options name (ok none)
  present :
      (a : A)
      → is_some (get_option options name) ≡ true
      → t.extract options name ≡ ok a
      → ExtractsOptional t options name (ok (some a))
  failed :
      (e : Error)
      → is_some (get_option options name) ≡ true
      → t.extract options name ≡ err e
      → ExtractsOptional t options name (err e)

module _ {A : Type 0} (t : CommandOption A) where
  optional_sound :
      (options : List InteractionOption) (name : String) (o : Option InteractionOption)
      (x : Result A)
      → get_option options name ≡ o
      → t.extract options name ≡ x
      → ExtractsOptional t options name ((optional t).extract options name)
  unfolding optional
  optional_sound options name none x e f =
      let here : ExtractsOptional t options name (ok none) = absent e in
      subst (ExtractsOptional t options name) (ground arith) here
  optional_sound options name (some o) (ok a) e f =
      let here : ExtractsOptional t options name (ok (some a)) = present a (ground arith) f in
      subst (ExtractsOptional t options name) (ground arith) here
  optional_sound options name (some o) (err x) e f =
      let here : ExtractsOptional t options name (err x) = failed x (ground arith) f in
      subst (ExtractsOptional t options name) (ground arith) here

  optional_complete :
      {options : List InteractionOption} {name : String} {r : Result (Option A)}
      → ExtractsOptional t options name r
      → (optional t).extract options name ≡ r
  unfolding optional
  optional_complete (absent e) = ground arith
  optional_complete (present a s e) = ground arith
  optional_complete (failed x s e) = ground arith

  -- An optional parameter is `none` exactly if no option with its name was submitted; otherwise it
  -- gets what its type extracts, errors included.
  pub optional_iff :
      (options : List InteractionOption) (name : String) (r : Result (Option A))
      → ((optional t).extract options name ≡ r) ↔ ExtractsOptional t options name r
  optional_iff options name r = (
    λ e.
        subst (ExtractsOptional t options name) e (
          optional_sound options name (get_option options name) (t.extract options name) refl refl),
    λ x. optional_complete x,
  )
