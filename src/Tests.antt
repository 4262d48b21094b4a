-- ===== src/Tests.antt =====
-- Runs of the model at concrete inputs.
mod Fixtures
mod Answers
mod Policies
mod Trees
mod Counters
mod Dispatching
mod Loops
mod Tokens
mod Macros
mod Derives
mod Groups
