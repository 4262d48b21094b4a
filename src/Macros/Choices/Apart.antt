-- ===== src/Macros/Choices/Apart.antt =====
-- The inline choices that the macros accept: at most 25, in Discord's ranges, with different names
-- and values.
use gloam_macro_commands.Common.{
  ◌+◌, ◌≤◌, true, false, ◌≡◌, List, [], ◌∷◌, ◌++◌, map, any, length, length-append, All, All-append,
  Distinct, Distinct-snoc, arith, leb_iff, count, contains, contains_iff, subst, sym, not-eq-true,
}
use mathlib.Core.List.{map-append}
use gloam_macro_commands.Macros.Syntax.{
  ok, or_fail, ok-injective, >>=-eq-ok, seq_iff, guard_iff, checked_iff, Expr, lit_expr, str_lit,
}
use gloam_macro_commands.Macros.Names.{IsShort, is_short-IsShort}
use gloam_macro_commands.Macros.Types.{OptionKind, string, integer, number}
use gloam_macro_commands.Macros.Bounds.{parse_integer_bound, parse_number_bound}
use gloam_macro_commands.Macros.Bounds.Ranges.{
  IsSafeInteger, IsSafeNumber, parse_integer_bound-IsSafe, parse_number_bound-IsSafe,
}
use gloam_macro_commands.Macros.Choices.{
  InlineChoiceArgs, InlineChoiceValue, string_choice, integer_choice, number_choice, InlineChoice,
  ChoiceSource, no_choices, inline_choices, typed_choices, validate_choice_name,
  parse_string_choice_value, same_choice_value, parse_choice_value, takes_choices, parse_choice,
  parse_choices, parse_inline_choices,
}

-- A value of an option of the kind, in Discord's range.
abbrev pub IsValueOf : OptionKind → InlineChoiceValue → Type 0
IsValueOf string (string_choice v) = count v ≤ 100
IsValueOf integer (integer_choice z) = IsSafeInteger z
IsValueOf number (number_choice v) = IsSafeNumber v
IsValueOf _ _ = ⊥

abbrev pub IsChoiceOf : OptionKind → InlineChoice → Type 0
IsChoiceOf kind c = IsShort c.name × IsValueOf kind c.value

-- No two values are equal, as `==` compares them.
abbrev pub AreApart : List InlineChoice → Type 0
AreApart [] = Unit {0}
AreApart (c ∷ cs) = All (λ d. same_choice_value c.value d.value ≡ false) cs × AreApart cs

pub record AreChoices (kind : OptionKind) (cs : List InlineChoice) : Type 0 where
  pub names : Distinct (map (λ c. c.name) cs)
  pub values : AreApart cs
  pub each : All (IsChoiceOf kind) cs

AreApart-snoc :
    (cs : List InlineChoice) (d : InlineChoice)
    → AreApart cs
    → any (λ c. same_choice_value c.value d.value) cs ≡ false
    → AreApart (cs ++ d ∷ [])
AreApart-snoc [] d h e = (tt, tt)
AreApart-snoc (c ∷ cs) d (apart, h) e = (
  All-append (λ x. same_choice_value c.value x.value ≡ false) cs (d ∷ []) apart (ground arith, tt),
  AreApart-snoc cs d h (ground arith),
)

string_value-IsValueOf :
    (e : Expr) (v : InlineChoiceValue) → parse_string_choice_value e ≡ ok v → IsValueOf string v
unfolding parse_string_choice_value
string_value-IsValueOf (lit_expr (str_lit t)) v h =
    let (short, same) = (checked_iff _ _ (string_choice t) v).0 h in
    subst (IsValueOf string) same ((leb_iff (count t) 100).0 short)
string_value-IsValueOf e v h = cc

parse_choice_value-IsValueOf :
    (kind : OptionKind) (e : Expr) (v : InlineChoiceValue)
    → parse_choice_value kind e ≡ ok v
    → IsValueOf kind v
unfolding parse_choice_value parse_string_choice_value
parse_choice_value-IsValueOf string e v h = string_value-IsValueOf e v h
parse_choice_value-IsValueOf integer e v h =
    let (z, here, same) = >>=-eq-ok (parse_integer_bound e) _ h in
    subst (IsValueOf integer) (ok-injective same) (parse_integer_bound-IsSafe e z here)
parse_choice_value-IsValueOf number e v h =
    let (z, here, same) = >>=-eq-ok (parse_number_bound e) _ h in
    subst (IsValueOf number) (ok-injective same) (parse_number_bound-IsSafe e z here)
parse_choice_value-IsValueOf kind e v h = cc

-- One more choice, with a new name and a new value.
extended :
    (kind : OptionKind) (parsed : List InlineChoice) (c : InlineChoice)
    → IsChoiceOf kind c
    → contains (map (λ c. c.name) parsed) c.name ≡ false
    → any (λ d. same_choice_value d.value c.value) parsed ≡ false
    → AreChoices kind parsed
    → AreChoices kind (parsed ++ c ∷ [])
extended kind parsed c here fresh apart h = record {
  names = subst Distinct (sym (map-append (λ c. c.name) parsed (c ∷ []))) (
      Distinct-snoc (map (λ c. c.name) parsed) c.name h.names
        (λ m. cc (fresh, (contains_iff (map (λ c. c.name) parsed) c.name).1 m)));
  values = AreApart-snoc parsed c h.values apart;
  each = All-append (IsChoiceOf kind) parsed (c ∷ []) h.each (here, tt);
}

parse_choice-keeps :
    (kind : OptionKind) (parsed : List InlineChoice) (a : InlineChoiceArgs) (c : InlineChoice)
    → parse_choice kind parsed a ≡ ok c
    → AreChoices kind parsed
    → AreChoices kind (parsed ++ c ∷ [])
unfolding parse_choice validate_choice_name
parse_choice-keeps kind parsed a c e h =
    let (name, _, named) = >>=-eq-ok (or_fail a.name _) _ e in
    let (short, checked) = (seq_iff _ _ c).0 named in
    let (fresh, unique) = (seq_iff _ _ c).0 checked in
    let (expression, _, valued) = >>=-eq-ok (or_fail a.value _) _ unique in
    let (value, here, guarded) = >>=-eq-ok (parse_choice_value kind expression) _ valued in
    let (new, same) = (checked_iff _ _ _ c).0 guarded in
    subst (λ c. AreChoices kind (parsed ++ c ∷ [])) same
      (extended kind parsed (record { name = name; value = value })
        (
          is_short-IsShort name ((guard_iff _ _).0 short),
          parse_choice_value-IsValueOf kind expression value here,
        )
        (not-eq-true _ ((guard_iff _ _).0 fresh)) (not-eq-true _ new) h)

parse_choices-AreChoices :
    (kind : OptionKind) (args : List InlineChoiceArgs) (parsed cs : List InlineChoice)
    → parse_choices kind parsed args ≡ ok cs
    → AreChoices kind parsed
    → AreChoices kind cs × (length cs ≡ length parsed + length args)
unfolding parse_choices
parse_choices-AreChoices kind [] parsed cs e h =
    (subst (AreChoices kind) (ok-injective e) h, ground arith)
parse_choices-AreChoices kind (a ∷ rest) parsed cs e h =
    let (c, here, more) = >>=-eq-ok (parse_choice kind parsed a) _ e in
    let (all, counted) =
      parse_choices-AreChoices kind rest (parsed ++ c ∷ []) cs more
        (parse_choice-keeps kind parsed a c here h) in
    (all, omega (arith, counted, length-append parsed (c ∷ [])))

-- The choices of an option that has some, of a kind that takes choices.
abbrev pub AreInline : OptionKind → ChoiceSource → Type 0
AreInline kind no_choices = Unit {0}
AreInline kind (inline_choices cs) =
    AreChoices kind cs × (takes_choices kind ≡ true) × (1 ≤ length cs) × (length cs ≤ 25)
AreInline kind typed_choices = ⊥

pub parse_inline_choices-AreInline :
    (kind : OptionKind) (args : List InlineChoiceArgs) (source : ChoiceSource)
    → parse_inline_choices kind args ≡ ok source
    → AreInline kind source
unfolding parse_inline_choices
parse_inline_choices-AreInline kind [] source e = subst (AreInline kind) (ok-injective e) tt
parse_inline_choices-AreInline kind (a ∷ rest) source e =
    let (few, checked) = (seq_iff _ _ source).0 e in
    let (taken, parse) = (seq_iff _ _ source).0 checked in
    let (cs, parsed, same) = >>=-eq-ok (parse_choices kind [] (a ∷ rest)) _ parse in
    let (all, counted) =
      parse_choices-AreChoices kind (a ∷ rest) [] cs parsed
        (record { names = tt; values = tt; each = tt }) in
    let short = (leb_iff (length (a ∷ rest)) 25).0 ((guard_iff _ _).0 few) in
    subst (AreInline kind) (ok-injective same)
      (all, (guard_iff _ _).0 taken, omega (arith, counted), omega (arith, counted, short))

-- An option with autocomplete was given no choices.
pub parse_inline_choices-none :
    (kind : OptionKind) (source : ChoiceSource)
    → parse_inline_choices kind [] ≡ ok source
    → source ≡ no_choices
unfolding parse_inline_choices
parse_inline_choices-none kind source e = sym (ok-injective e)
