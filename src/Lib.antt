-- ===== src/Lib.antt =====
-- Verification of the Gloam slash-command framework, crate crates/gloam-commands, and of the macros
-- that generate its commands, crate crates/gloam-commands-macros. A Gateway event reaches
-- `Framework::dispatch`, which looks its command up in the registry, resolves the submitted options
-- to a leaf of the command's tree, takes execution slots and spawns a future. The future evaluates
-- the command's policy, runs hooks and handler, and the handler answers through its context, whose
-- response state clones share. Autocomplete interactions take the same way to a handler whose
-- results are checked and sent. The builder validates commands into the registry; registration
-- publishes the registry to Discord.
--
-- Each part below has a file for its definitions, named after the source, and a directory of the
-- same name for its theorems.
--
-- Policy, Policy/Cooldown: crates/gloam-commands/src/policy.rs, `CommandPolicy` and `evaluate`; a
--   cooldown map is named by an address and changed under its lock
-- Execute, Observability: framework.rs, `execute_command`, with the records of observability.rs
-- Response: response.rs; Response/Protocol states what Discord documents of answering an
--   interaction, also that the first followup after a deferral edits the deferred response;
--   Response/Interleaving models cloned contexts in concurrent tasks
-- Dispatch: framework.rs, `prepare_dispatch`; Builder: `FrameworkBuilder`; Scheduling: `dispatch`,
--   `spawn_prepared` and `try_execute` over tokio's semaphores; Managed: `drive_shards` and the
--   loops it calls, over rounds of delivered events
-- Resolve: framework.rs, `resolve_command` and `focused_option_index`
-- Registry: registry.rs; Command and Descriptor: command.rs and the types of autocomplete.rs;
--   Context: the contexts
-- Autocomplete: framework.rs, `execute_autocomplete` and the checks of its choices
-- Options: options.rs; Registration: registration.rs; Error: error.rs
-- Macros/Arguments: crates/gloam-commands-macros/src/command.rs, `CommandArgs`, over the token
--   streams of Macros/Stream; Macros/Attributes, Macros/Choices and Macros/Bounds: its parameter
--   attributes, choices and bounds; Macros/Types and Macros/Parameters: its option types and
--   `option_parameters`; Macros/Signature and Macros/Names: its checks of the function;
--   Macros/Commands: `expand` and what it generates, in the types of Command and Policy
-- Macros/Groups: group.rs and commands.rs of the macros; Macros/Groups/Building relates a module to
--   the tree that the macros inside it build, outer ones first
-- Macros/Derive: choice.rs of the macros; Macros/Handlers: check.rs and autocomplete.rs of the
--   macros; Macros/Syntax and Macros/Functions: the parts of syn's syntax trees that the macros
--   inspect
-- Discord: the payload types of Gloamwire that the sources name; Exec: effectful code that may
--   fail, as state passing
-- Common: shared tests, lists, texts, signed integers and doubles
--
-- Async code is modelled between its suspension points. A handler, hook or check is an action on a
-- world `W` that it shares with the others; it cannot reach cooldown maps or slots, which only the
-- framework changes. The REST client, the parser of ids, Gloamwire's permission sets and decoders,
-- the clock and tokio's semaphores are parameters: their results are arbitrary, and only the
-- semaphores have laws (Scheduling, `Semaphores`), those that tokio documents; Tests/Counters is an
-- instance. A new cooldown map or semaphore gets its address as an argument; `build_slots` of
-- Scheduling is `build` with the semaphore it creates, and Scheduling/Limits ties the futures that
-- run to the builder's limit. For the macros the parsers of syn, the pattern and the case mapping
-- of names, and how numbers are printed are parameters too. Interleavings of tasks are step
-- relations: Response/Interleaving for one interaction, Scheduling/Capacity for the futures of a
-- framework.
--
-- Numbers are natural numbers without a bound: ids, permission sets, instants and lengths are only
-- compared or added where the source checks the addition. `i64` values are signed integers and
-- `f64` values are exact dyadic numbers with infinities and NaN (Common/Integer, Common/Binary64).
-- All recursion is on the structure of trees and lists, but for the loop that parses the arguments
-- of an attribute, which takes fuel: a stream of tokens is a parameter with parsers that advance on
-- it, and more fuel than it has tokens is enough (Macros/Arguments/Parsing).
--
-- A handler that panics and a task that is aborted inside a request are outside the model of the
-- response state; for the execution slots every end of a future is the same.
--
-- Not modelled: `run`, which starts and stops Gloamwire's shards around the managed loop, `Runtime`
-- and `CommandTask`, which only pass on what they hold, localizations and the other fields that the
-- framework leaves empty, and of the macros lib.rs, which only passes token streams on, the
-- positions of errors, and the visibility and attributes that generated items copy.
pub mod Common
pub mod Error
pub mod Discord
pub mod Context
pub mod Exec
pub mod Observability
pub mod Policy
pub mod Descriptor
pub mod Command
pub mod Registry
pub mod Resolve
pub mod Execute
pub mod Response
pub mod Autocomplete
pub mod Options
pub mod Registration
pub mod Dispatch
pub mod Builder
pub mod Scheduling
pub mod Managed
pub mod Macros
mod Tests
