-- ===== src/Autocomplete/Choices.antt =====
-- crates/gloam-commands/src/framework.rs, `autocomplete_response_choices`: which handler results are
-- accepted, and what is sent for them.
use gloam_macro_commands.Common.{
  ℕ, ◌≤◌, ◌≡◌, refl, ◌↔◌, arith, count, zero, suc, ◌*◌, ◌^◌, if◌then◌else◌, Bool, true, false, ◌&&◌,
  List, map, length, All, leb, leb_iff,
}
use gloam_macro_commands.Common.Integer.{ℤ, ◌≤ℤ◌, pos, negsuc, int_leb, neg_ℕ}
use gloam_macro_commands.Common.Binary64.{F64, nan, infinite, finite, is_finite, f64_leb, scaled}
use gloam_macro_commands.Error.{
  Error, Result, ok, err, ◌>>◌, guard, collect, collect_iff, seq_iff, guard_iff,
}
use gloam_macro_commands.Discord.{
  OptionType, string, integer, number, ChoiceValue, string_choice, integer_choice, number_choice,
  OptionChoice,
}
use gloam_macro_commands.Command.{
  AutocompleteChoice, AutocompleteChoiceValue, string_result, integer_result, number_result,
}
use gloam_macro_commands.Autocomplete.{
  min_autocomplete_number_value, max_autocomplete_number_value, choice_value,
  autocomplete_response_choice, autocomplete_response_choices,
}

abbrev pub IsNumeric : F64 → Type 0
IsNumeric nan = ⊥
IsNumeric (infinite s) = ⊥
IsNumeric (finite s m e) = m * 2 ^ e ≤ 9007199254740992 * 2 ^ 1074

-- A value of the focused option's type within Discord's limits.
abbrev pub IsValidValue : OptionType → AutocompleteChoiceValue → Type 0
IsValidValue string (string_result v) = count v ≤ 100
IsValidValue integer (integer_result v) =
    (negsuc 9007199254740990 ≤ℤ v) × (v ≤ℤ pos 9007199254740991)
IsValidValue number (number_result v) = IsNumeric v
IsValidValue kind value = ⊥

abbrev pub IsValidChoice : OptionType → AutocompleteChoice → Type 0
IsValidChoice kind c = (1 ≤ count c.name) × (count c.name ≤ 100) × IsValidValue kind c.value

abbrev pub sent_value : AutocompleteChoiceValue → ChoiceValue
sent_value (string_result v) = string_choice v
sent_value (integer_result v) = integer_choice v
sent_value (number_result v) = number_choice v

abbrev pub sent_choice : AutocompleteChoice → OptionChoice
sent_choice c = record { name = c.name; value = sent_value c.value }

signed : Bool → ℕ → ℤ
signed negative a = if negative then neg_ℕ a else pos a

-- A signed number lies between -b and b if its magnitude is at most b.
magnitude_iff :
    (negative : Bool) (a b : ℕ)
    → ((int_leb (neg_ℕ b) (signed negative a) && int_leb (signed negative a) (pos b)) ≡ true)
      ↔ (a ≤ b)
unfolding signed
magnitude_iff true zero zero = ground arith
magnitude_iff true zero (suc b) = ground arith
magnitude_iff true (suc a) zero = ground arith
magnitude_iff true (suc a) (suc b) = ground arith
magnitude_iff false a zero = ground arith
magnitude_iff false a (suc b) = ground arith

number_iff :
    (v : F64)
    → ((is_finite v
          && (f64_leb min_autocomplete_number_value v && f64_leb v max_autocomplete_number_value))
        ≡ true)
      ↔ IsNumeric v
unfolding is_finite f64_leb scaled signed
number_iff nan = ground arith
number_iff (infinite s) = ground arith
number_iff (finite s m e) = magnitude_iff s (m * 2 ^ e) (9007199254740992 * 2 ^ 1074)

-- A guard whose test decides `P`, and a value.
guarded_iff :
    {A P : Type 0} (b : Bool) (e : Error) (a c : A)
    → (b ≡ true) ↔ P
    → ((guard b e >> ok a) ≡ ok c) ↔ (P × (c ≡ a))
guarded_iff true e a c d = (λ h. (d.0 refl, cc), λ h. cc)
guarded_iff false e a c d = (λ h. cc, λ h. let t : false ≡ true = d.1 h.0 in cc)

choice_value_iff :
    (kind : OptionType) (v : AutocompleteChoiceValue) (w : ChoiceValue)
    → (choice_value kind v ≡ ok w) ↔ (IsValidValue kind v × (w ≡ sent_value v))
unfolding choice_value
choice_value_iff string (string_result v) w =
    guarded_iff (leb (count v) 100) _ (string_choice v) w (leb_iff (count v) 100)
choice_value_iff integer (integer_result v) w = guarded_iff _ _ (integer_choice v) w (in_range v)
  where
    in_range :
        (v : ℤ)
        → ((int_leb (negsuc 9007199254740990) v && int_leb v (pos 9007199254740991)) ≡ true)
          ↔ ((negsuc 9007199254740990 ≤ℤ v) × (v ≤ℤ pos 9007199254740991))
    in_range v = ground arith
choice_value_iff number (number_result v) w = guarded_iff _ _ (number_choice v) w (number_iff v)
choice_value_iff kind v w = (λ h. cc, λ h. absurd h.0)

choice_iff :
    (kind : OptionType) (c : AutocompleteChoice) (o : OptionChoice)
    → (autocomplete_response_choice kind c ≡ ok o) ↔ (IsValidChoice kind c × (o ≡ sent_choice c))
unfolding autocomplete_response_choice
choice_iff kind c o = with_value (choice_value kind c.value) refl
  where
    with_value :
        (r : Result ChoiceValue)
        → choice_value kind c.value ≡ r
        → (autocomplete_response_choice kind c ≡ ok o)
          ↔ (IsValidChoice kind c × (o ≡ sent_choice c))
    with_value (ok v) e = ground (arith, choice_value_iff kind c.value v)
    with_value (err x) e = ground (arith, choice_value_iff kind c.value (sent_value c.value))

-- Handler results are accepted if there are at most 25 and each has a name of 1 to 100 characters
-- and a value of the focused option's type: a string of at most 100 characters, an integer of
-- magnitude below 2^53, a finite number of magnitude at most 2^53. What is sent for them keeps
-- their order, names and values; any other results are refused.
pub autocomplete_response_choices_iff :
    (kind : OptionType) (cs : List AutocompleteChoice) (os : List OptionChoice)
    → (autocomplete_response_choices kind cs ≡ ok os)
      ↔ ((length cs ≤ 25) × All (IsValidChoice kind) cs × (os ≡ map sent_choice cs))
unfolding autocomplete_response_choices
autocomplete_response_choices_iff kind cs os =
    let each =
      collect_iff (autocomplete_response_choice kind) (IsValidChoice kind) sent_choice
        (choice_iff kind) cs os in
    let first =
      seq_iff (guard (leb (length cs) 25) _) (collect (autocomplete_response_choice kind) cs) os in
    (
      λ h.
          let (g, k) = first.0 h in
          let (valid, sent) = each.0 k in
          ((leb_iff (length cs) 25).0 ((guard_iff _ _).0 g), valid, sent),
      λ h. first.1 ((guard_iff _ _).1 ((leb_iff (length cs) 25).1 h.0), each.1 (h.1, h.2)),
    )
