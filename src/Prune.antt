-- ===== src/Prune.antt =====
-- The selection of actions: core/utils.ts (`matchPatterns`) and cli/api/commands/prune.ts.
pub mod Patterns
pub mod Selection
pub mod Walks
pub mod Reaching
pub mod Ending
pub mod Included
pub mod Exact
pub mod Matches
mod Examples
