-- ===== src/Cli.antt =====
-- cli/src/core: the command line before a command runs.
pub mod Options
pub mod Hoist
pub mod Registry
pub mod Dispatch
mod Tests
