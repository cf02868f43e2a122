-- ===== src/ValidateGraph.antt =====
-- cli/api/commands/validate_graph.ts: the order and the state of validation.
mod Order
pub mod Shadows
pub mod Releasing
pub mod Laws
mod Examples
pub mod Topological
pub mod Counting
pub mod Waiting
pub mod Timestamps
pub mod Emission
unfoldable pub use Order.*
unfoldable pub use Shadows.*
