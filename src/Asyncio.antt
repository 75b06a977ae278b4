-- ===== src/Asyncio.antt =====
-- What the code uses of the standard library's asyncio.Queue and asyncio.Event, and the sentinel
-- that the code puts into its queues: `none` in a queue of options.
mod Queues
mod Events
mod Sentinel
pub mod GivenUp
unfoldable pub use Queues.*
unfoldable pub use Events.*
pub use Sentinel.*
