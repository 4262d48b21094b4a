-- ===== src/Registration/Invocation.antt =====
-- crates/gloam-commands/src/registration.rs with framework.rs, `resolve_command`: what users invoke
-- of the registered commands is what dispatch resolves.
use gloam_macro_commands.Common.{◌≡◌, true, false, List, [], ◌∷◌, Memᴰ, All}
use gloam_macro_commands.Error.{ok}
use gloam_macro_commands.Registration.Described.{AreRegistered}
use gloam_macro_commands.Discord.{OptionType, sub_command, sub_command_group, InteractionOption}
use gloam_macro_commands.Command.{SlashCommand, leaf, group, descriptor}
use gloam_macro_commands.Resolve.{ResolvedCommand, resolve_command}
use gloam_macro_commands.Resolve.Paths.{Wraps}
use gloam_macro_commands.Registration.{
  ApplicationOption, registered_kind, registered_name, registered_options,
}

abbrev pub IsScalar : OptionType → Type 0
IsScalar kind = (kind ≡ sub_command → ⊥) × (kind ≡ sub_command_group → ⊥)

-- What Discord submits for a registered option list: values for the options themselves if they are
-- scalar, or one subcommand, possibly inside one subcommand group. The last two arguments are the
-- options that the user fills in and the values submitted for them.
pub data Invokes (registered : List ApplicationOption)
    : List InteractionOption → List ApplicationOption → List InteractionOption → Type 0 where
  direct :
      (submitted : List InteractionOption)
      → All (λ r. IsScalar (registered_kind r)) registered
      → Invokes registered submitted registered submitted
  subcommand :
      (r : ApplicationOption) (o : InteractionOption) (inside : List InteractionOption)
      → Memᴰ r registered
      → registered_kind r ≡ sub_command
      → Wraps o (registered_name r) false inside
      → Invokes registered (o ∷ []) (registered_options r) inside
  nested :
      (r q : ApplicationOption) (o p : InteractionOption) (inside : List InteractionOption)
      → Memᴰ r registered
      → registered_kind r ≡ sub_command_group
      → Memᴰ q (registered_options r)
      → registered_kind q ≡ sub_command
      → Wraps o (registered_name r) true (p ∷ [])
      → Wraps p (registered_name q) false inside
      → Invokes registered (o ∷ []) (registered_options q) inside

module _ {W : Type 0} where
  -- A leaf's own options are not subcommands.
  abbrev pub HasScalarOptions : SlashCommand W → Type 0
  HasScalarOptions (leaf d l) = All (λ o. IsScalar o.kind) d.options
  HasScalarOptions (group d cs) = Unit

  -- The resolution that an invocation asks for: the leaf has the options that were filled in.
  pub record Serves (c : SlashCommand W) (submitted : List InteractionOption)
      (filled : List ApplicationOption) (values : List InteractionOption) : Type 0 where
    pub resolved : ResolvedCommand W
    pub resolves : resolve_command c submitted ≡ ok resolved
    pub offers : AreRegistered (descriptor resolved.command).options filled
    pub passes : resolved.options ≡ values
