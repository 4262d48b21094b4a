-- ===== src/Tests/Dispatching.antt =====
-- Runs of the builder, of dispatch and of the execution slots.
use gloam_macro_commands.Discord.{
  Interaction, InteractionOption, option_focused, application_command_autocomplete,
}
use gloam_macro_commands.Command.{AutocompleteHandlerDescriptor}
use gloam_macro_commands.Dispatch.{autocomplete}
use gloam_macro_commands.Dispatch.Completion.{
  IsOnlyFocused, IsRegisteredFor, completion, build-completion,
}
use gloam_macro_commands.Tests.Fixtures.{count_option, count_handler}
use gloam_macro_commands.Common.{
  ◌+◌, ◌≤◌, ◌≡◌, refl, ◌++◌, ◌↔◌, true, ℕ, none, some, [], ◌∷◌, Memᴰ, All, Unique, length, zero,
  suc, get_elem?,
}
use gloam_macro_commands.Error.{ok}
use gloam_macro_commands.Registry.{new}
use gloam_macro_commands.Registry.Hierarchy.{IsValidCommand}
use gloam_macro_commands.Registration.{unmanaged}
use gloam_macro_commands.Dispatch.{Framework, PreparedCommand, command, prepare_dispatch}
use gloam_macro_commands.Dispatch.Routing.{created, prepared, build-prepare_dispatch}
use gloam_macro_commands.Dispatch.Origins.{Routed, prepare_dispatch_sound}
use gloam_macro_commands.Builder.{FrameworkBuilder, build}
use gloam_macro_commands.Builder.Contents.{build_iff, Holds, built, build-Holds}
use gloam_macro_commands.Scheduling.{dispatch_event, try_execute}
use gloam_macro_commands.Scheduling.Permits.{needed, try_execute-needed}
use gloam_macro_commands.Scheduling.Spawning.{started, in_use}
use gloam_macro_commands.Scheduling.Capacity.{
  Scheduler, Step, Reach, Reach-conserves, Reach-capacity,
}
use gloam_macro_commands.Tests.Fixtures.{
  admin, set_descriptor, set_leaf, count_given, interaction, set_data,
}
use gloam_macro_commands.Tests.Counters.{counters}
use gloam_macro_commands.Tests.Trees.{filled, inserted, set-Reaches}

abbrev pub settings : FrameworkBuilder ℕ
settings = record {
  commands = admin ∷ [];
  registration = unmanaged;
  max_concurrent_commands = 2;
  before_hooks = [];
  after_hooks = [];
  error_handler = none;
}

build_iff_example :
    ((f : Framework ℕ) × (build settings 4 ≡ ok f))
    ↔ ((1 ≤ 2) × All IsValidCommand (admin ∷ []) × Unique ("admin" ∷ []))
build_iff_example = build_iff settings 4

abbrev pub framework : Framework ℕ
framework = built settings 4 filled

builds : build settings 4 ≡ ok framework
unfolding build
builds = rw inserted refl

build-Holds_example : (framework ≡ built settings 4 filled) × Holds new (admin ∷ []) filled
build-Holds_example = build-Holds settings 4 framework builds

abbrev set_prepared : PreparedCommand ℕ
set_prepared =
    prepared framework interaction set_data ("admin" ∷ "config" ∷ "set" ∷ []) (count_given ∷ [])
      none 0 set_descriptor set_leaf

dispatches : prepare_dispatch framework (created interaction) none 0 ≡ ok (command set_prepared)
dispatches =
    build-prepare_dispatch settings 4 framework admin ("admin" ∷ "config" ∷ "set" ∷ [])
      set_descriptor set_leaf interaction set_data (count_given ∷ []) none 0 builds (Memᴰ.head refl)
      set-Reaches refl refl refl refl refl

build-prepare_dispatch_example :
    prepare_dispatch framework (created interaction) none 0 ≡ ok (command set_prepared)
build-prepare_dispatch_example =
    build-prepare_dispatch settings 4 framework admin ("admin" ∷ "config" ∷ "set" ∷ [])
      set_descriptor set_leaf interaction set_data (count_given ∷ []) none 0 builds (Memᴰ.head refl)
      set-Reaches refl refl refl refl refl

prepare_dispatch_sound_example : Routed framework (created interaction) none 0 set_prepared
prepare_dispatch_sound_example =
    prepare_dispatch_sound framework (created interaction) none 0 set_prepared dispatches

-- Two permits for the framework and two for the command.
abbrev pub two_each : ℕ → ℕ
two_each a = 2

both_granted : (try_execute counters (some 9) 4 two_each).1 ≡ ok (some (4 ∷ 9 ∷ []))
unfolding try_execute
both_granted = refl

try_execute-needed_example : 4 ∷ 9 ∷ [] ≡ needed counters (some 9) 4
try_execute-needed_example =
    try_execute-needed counters (some 9) 4 two_each (4 ∷ 9 ∷ []) both_granted

abbrev idle : Scheduler (ℕ → ℕ)
idle = record { slots = two_each; running = [] }

abbrev busy : Scheduler (ℕ → ℕ)
busy = record {
  slots = (dispatch_event counters framework true (created interaction) none 0 two_each).0;
  running =
      started (dispatch_event counters framework true (created interaction) none 0 two_each).1
      ++ [];
}

-- The command starts.
starts : Reach counters framework idle busy
starts = Reach.next Reach.here (Step.dispatched idle true (created interaction) none 0)

Reach-conserves_example :
    busy.slots 4 + in_use 4 busy.running ≡ idle.slots 4 + in_use 4 idle.running
Reach-conserves_example = Reach-conserves counters framework starts 4

Reach-capacity_example : length busy.running ≤ 2
Reach-capacity_example = Reach-capacity counters framework refl starts

-- The same submission while the user still types.
abbrev typing : Interaction
typing = record interaction { kind = application_command_autocomplete }

focused_first : IsOnlyFocused (count_given ∷ []) 0 count_given
focused_first = (refl, refl, first)
  where
    first :
        (k : ℕ) (p : InteractionOption)
        → get_elem? (count_given ∷ []) k ≡ some p
        → option_focused p ≡ some true
        → k ≡ 0
    first zero p there on = refl
    first (suc k) p there on = cc

registered_count : IsRegisteredFor count_given set_descriptor count_option
registered_count = (Memᴰ.head refl, refl, refl, refl)

build-completion_example :
    (h : AutocompleteHandlerDescriptor ℕ) × Memᴰ h (count_handler ∷ [])
    × (h.option_name ≡ "count")
    × (prepare_dispatch framework (created typing) none 0
        ≡ ok (
            autocomplete (
              completion framework typing set_data
                ("admin" ∷ "config" ∷ "set" ∷ [])
                (count_given ∷ [])
                0
                none
                set_descriptor
                count_option
                h)))
build-completion_example =
    build-completion settings 4 framework admin ("admin" ∷ "config" ∷ "set" ∷ []) set_descriptor
      set_leaf typing set_data (count_given ∷ []) none 0 0 count_given count_option builds
      (Memᴰ.head refl) set-Reaches refl refl refl refl refl focused_first registered_count
