-- ===== src/Session.antt =====
-- core/session.ts: the passes that `Session.compile` makes over the compiled graph.
pub mod Graph
pub mod Extracts
pub mod Rename
pub mod Resolve
pub mod Unique
pub mod Depend
pub mod Create
pub mod Cycles
pub mod Compile
pub mod Examples
