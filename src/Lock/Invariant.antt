-- ===== src/Lock/Invariant.antt =====
-- The invariant of the lock tables, and the calls that keep it.
mod Defs
mod Holders
mod Entries
mod Active
mod Promotion
mod Withdrawal
mod Keep
pub use Defs.*
pub use Holders.*
pub use Entries.*
pub use Active.*
pub use Promotion.*
pub use Withdrawal.*
pub use Keep.*
