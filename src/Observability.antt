-- ===== src/Observability.antt =====
-- crates/gloam-commands/src/observability.rs with the feature `tracing`: the records that the
-- lifecycle emits, each with the command path. Without the feature the functions do nothing.
use gloam_macro_commands.Common.{String, List}

pub data Observation : Type 0 where
  command_started command_succeeded command_failed command_error_handled
        command_error_handler_failed :
      List String → Observation
