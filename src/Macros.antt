-- ===== src/Macros.antt =====
-- crates/gloam-commands-macros/src: the procedural macros, from the syntax that they read to the
-- commands that the generated code builds.
pub mod Syntax
pub mod Stream
pub mod Arguments
pub mod Types
pub mod Bounds
pub mod Names
pub mod Choices
pub mod Functions
pub mod Signature
pub mod Handlers
pub mod Attributes
pub mod Parameters
pub mod Commands
pub mod Derive
pub mod Groups
