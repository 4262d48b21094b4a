-- ===== src/Macros/Commands/Leaves.antt =====
-- A command that `#[command]` accepts is one that the registry accepts, and its policy is what the
-- arguments say.
use gloam_macro_commands.Common.{
  String, Bool, true, false, ◌≡◌, ◌≢◌, refl, sym, subst, ◌∙◌, ◌⊎◌, inl, inr, Option, none, some,
  List, [], ◌∷◌, map, find, Memᴰ, All, All-imp, Unique, arith, is_some, str_eq, eq_iff, eq_refl,
  Bool-cases,
}
use gloam_macro_commands.Discord.{OptionType}
use gloam_macro_commands.Discord
use gloam_macro_commands.Descriptor.{CommandOptionDescriptor, new_command, with_options}
use gloam_macro_commands.Policy.{CommandPolicy}
use gloam_macro_commands.Command.{CommandHandler, AutocompleteHandlerDescriptor}
use gloam_macro_commands.Registry.Leaves.{
  IsValidLeaf, IsServed, IsEligible, IsCompletable, handler_names,
}
use gloam_macro_commands.Macros.Commands.Descriptors.{option_descriptor_tokens-fields}
use gloam_macro_commands.Macros.Syntax.{ok, Segments, Ty}
use gloam_macro_commands.Macros.Types.{
  OptionKind, string, boolean, integer, number, user, channel, role, attachment, option_type,
}
use gloam_macro_commands.Macros.Names.{Naming}
use gloam_macro_commands.Macros.Choices.{takes_choices}
use gloam_macro_commands.Macros.Parameters.{OptionParameter}
use gloam_macro_commands.Macros.Parameters.Kinds.{IsWithinLimits}
use gloam_macro_commands.Macros.Commands.{
  Scope, option_descriptor_tokens, add_handler, autocomplete_handlers,
}

-- The option type of each kind: `CommandOption::KIND` of the types that the macros know.
abbrev pub type_of_kind : OptionKind → OptionType
type_of_kind string = Discord.string
type_of_kind boolean = Discord.boolean
type_of_kind integer = Discord.integer
type_of_kind number = Discord.number
type_of_kind user = Discord.user
type_of_kind channel = Discord.channel
type_of_kind role = Discord.role
type_of_kind attachment = Discord.attachment

-- The types that the macros know by name are the framework's.
abbrev pub Resolves : {W V : Type 0} → Scope W V → Type 0
Resolves scope =
    (ty : Ty) (k : OptionKind) (r : Bool)
    → option_type ty ≡ ok (k, r)
    → scope.kind ty ≡ type_of_kind k

abbrev pub option_names : List OptionParameter → List String
option_names os = map (λ o. o.name) os

module _ {W V : Type 0} (scope : Scope W V) where
  -- The handlers are named as options are.
  add_handler-Memᴰ :
      (name : String) (path : Option Segments) (hs : List (AutocompleteHandlerDescriptor W))
      {n : String}
      → Memᴰ n (handler_names (add_handler scope name path hs))
      → (n ≡ name) ⊎ Memᴰ n (handler_names hs)
  unfolding add_handler
  add_handler-Memᴰ name none hs m = inr m
  add_handler-Memᴰ name (some path) hs (Memᴰ.head e) = inl e
  add_handler-Memᴰ name (some path) hs (Memᴰ.tail m) = inr m

  handler_names-Memᴰ :
      (os : List OptionParameter) {n : String}
      → Memᴰ n (handler_names (autocomplete_handlers scope os))
      → Memᴰ n (option_names os)
  unfolding autocomplete_handlers
  handler_names-Memᴰ [] m = m
  handler_names-Memᴰ (o ∷ os) m =
      elim (add_handler-Memᴰ o.name o.autocomplete (autocomplete_handlers scope os) m) [
        | inl here ↦ Memᴰ.head here
        | inr there ↦ Memᴰ.tail (handler_names-Memᴰ os there)
      ]

  add_handler-Unique :
      (name : String) (path : Option Segments) (hs : List (AutocompleteHandlerDescriptor W))
      → ¬ Memᴰ name (handler_names hs)
      → Unique (handler_names hs)
      → Unique (handler_names (add_handler scope name path hs))
  unfolding add_handler
  add_handler-Unique name none hs fresh u = u
  add_handler-Unique name (some path) hs fresh u = (fresh, u)

  handlers-Unique :
      (os : List OptionParameter)
      → Unique (option_names os)
      → Unique (handler_names (autocomplete_handlers scope os))
  unfolding autocomplete_handlers
  handlers-Unique [] u = tt
  handlers-Unique (o ∷ os) (fresh, u) =
      add_handler-Unique o.name o.autocomplete (autocomplete_handlers scope os)
        (λ m. fresh (handler_names-Memᴰ os m)) (handlers-Unique os u)

  -- A handler of the later options is still served behind an option of another name.
  IsServed-tail :
      (d : CommandOptionDescriptor) (ds : List CommandOptionDescriptor)
      (hs : List (AutocompleteHandlerDescriptor W))
      → ¬ Memᴰ d.name (handler_names hs)
      → All (IsServed ds) hs
      → All (IsServed (d ∷ ds)) hs
  IsServed-tail d ds [] absent h = tt
  IsServed-tail d ds (x ∷ hs) absent ((o, found, on), h) = (
    (o, passed (Bool-cases (str_eq d.name x.option_name)), on),
    IsServed-tail d ds hs (λ m. absent (Memᴰ.tail m)) h,
  )
    where
      passed :
          (str_eq d.name x.option_name ≡ true) ⊎ (str_eq d.name x.option_name ≡ false)
          → find (λ option. str_eq option.name x.option_name) (d ∷ ds) ≡ some o
      passed (inl same) = absurd (absent (Memᴰ.head ((eq_iff d.name x.option_name).0 same)))
      passed (inr other) = rw (find, other) found

  add_handler-IsServed :
      (d : CommandOptionDescriptor) (ds : List CommandOptionDescriptor) (path : Option Segments)
      (hs : List (AutocompleteHandlerDescriptor W))
      → d.autocomplete ≡ is_some path
      → All (IsServed (d ∷ ds)) hs
      → All (IsServed (d ∷ ds)) (add_handler scope d.name path hs)
  unfolding add_handler
  add_handler-IsServed d ds none hs on h = h
  add_handler-IsServed d ds (some path) hs on h = ((d, rw (find, eq_refl d.name) refl, on), h)

  abbrev descriptors : List OptionParameter → List CommandOptionDescriptor
  descriptors os = map (option_descriptor_tokens scope) os

  handlers-IsServed :
      (os : List OptionParameter)
      → Unique (option_names os)
      → All (IsServed (descriptors os)) (autocomplete_handlers scope os)
  unfolding autocomplete_handlers
  handlers-IsServed [] u = tt
  handlers-IsServed (o ∷ os) (fresh, u) =
      let d = option_descriptor_tokens scope o in
      let (named, _, _, completed) = option_descriptor_tokens-fields scope o in
      let rest : All (IsServed (d ∷ descriptors os)) (autocomplete_handlers scope os) =
        IsServed-tail d (descriptors os) (autocomplete_handlers scope os)
          (λ m. fresh (
            handler_names-Memᴰ os
              (subst (λ n. Memᴰ n (handler_names (autocomplete_handlers scope os))) named m)))
          (handlers-IsServed os u) in
      subst
        (λ n.
          All (IsServed (d ∷ descriptors os))
            (add_handler scope n o.autocomplete (autocomplete_handlers scope os)))
        named
        (add_handler-IsServed d (descriptors os) o.autocomplete (autocomplete_handlers scope os)
          completed rest)

  add_handler-has :
      (name : String) (path : Option Segments) (hs : List (AutocompleteHandlerDescriptor W))
      → path ≢ none
      → Memᴰ name (handler_names (add_handler scope name path hs))
  unfolding add_handler
  add_handler-has name none hs h = absurd (h refl)
  add_handler-has name (some path) hs h = Memᴰ.head refl

  add_handler-keeps :
      (name n : String) (path : Option Segments) (hs : List (AutocompleteHandlerDescriptor W))
      → Memᴰ n (handler_names hs)
      → Memᴰ n (handler_names (add_handler scope name path hs))
  unfolding add_handler
  add_handler-keeps name n none hs m = m
  add_handler-keeps name n (some path) hs m = Memᴰ.tail m

  -- An option with autocomplete has its handler.
  abbrev HasHandler : List String → OptionParameter → Type 0
  HasHandler names o = o.autocomplete ≢ none → Memᴰ o.name names

  handlers_complete :
      (os : List OptionParameter)
      → All (HasHandler (handler_names (autocomplete_handlers scope os))) os
  unfolding autocomplete_handlers
  handlers_complete [] = tt
  handlers_complete (o ∷ os) = (
    add_handler-has o.name o.autocomplete (autocomplete_handlers scope os),
    All-imp (HasHandler (handler_names (autocomplete_handlers scope os)))
        (HasHandler (
          handler_names (add_handler scope o.name o.autocomplete (autocomplete_handlers scope os))))
        os
        (λ x h asked.
          add_handler-keeps o.name x.name o.autocomplete (autocomplete_handlers scope os) (h asked))
        (handlers_complete os),
  )

  completable : (k : OptionKind) → takes_choices k ≡ true → IsCompletable (type_of_kind k)
  completable string e = inl refl
  completable integer e = inr (inl refl)
  completable number e = inr (inr refl)
  completable k e = cc

  IsEligible-tokens :
      (naming : Naming) (names : List String) (o : OptionParameter)
      → Resolves scope
      → IsWithinLimits naming o
      → (o.autocomplete ≢ none → Memᴰ o.name names)
      → IsEligible names (option_descriptor_tokens scope o)
  IsEligible-tokens naming names o resolves limits named on =
      let (same_name, same_kind, plain, completed) = option_descriptor_tokens-fields scope o in
      let asked : o.autocomplete ≢ none = λ e. ground arith in
      elim limits.kind [
        | inl (k, scalar) ↦
            let (takes, empty) = scalar.completed asked in
            (
              subst IsCompletable (sym (same_kind ∙ resolves o.ty k o.required scalar.of_type))
                  (completable k takes),
              plain empty,
              subst (λ n. Memᴰ n names) (sym same_name) (named asked),
            )
        | inr typed ↦ absurd (asked typed.autocomplete)
      ]

  All-IsEligible :
      (naming : Naming) (names : List String) (os : List OptionParameter)
      → Resolves scope
      → All (IsWithinLimits naming) os
      → All (HasHandler names) os
      → All (IsEligible names) (descriptors os)
  All-IsEligible naming names [] resolves limits has = tt
  All-IsEligible naming names (o ∷ os) resolves (limit, limits) (h, has) = (
    IsEligible-tokens naming names o resolves limit h,
    All-IsEligible naming names os resolves limits has,
  )

  -- The leaf that is generated for options within the limits is accepted, if they have different
  -- names and the policy's limit is not zero.
  pub generated-IsValidLeaf :
      (naming : Naming) (os : List OptionParameter) (name description : String)
      (handler : CommandHandler W) (policy : CommandPolicy W)
      → Resolves scope
      → Unique (option_names os)
      → All (IsWithinLimits naming) os
      → policy.max_concurrency ≢ some 0
      → IsValidLeaf (with_options (new_command name description) (descriptors os)) (record {
        handler = handler;
        autocomplete = autocomplete_handlers scope os;
        policy = policy;
      })
  unfolding with_options new_command
  generated-IsValidLeaf naming os name description handler policy resolves unique limits slots =
      record {
        slots = slots;
        distinct = handlers-Unique os unique;
        served = handlers-IsServed os unique;
        eligible =
            All-IsEligible naming (handler_names (autocomplete_handlers scope os)) os resolves
              limits (handlers_complete os);
      }
