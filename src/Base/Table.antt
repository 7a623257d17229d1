-- ===== src/Base/Table.antt =====
-- The database client (Prisma), which is not part of the repository.
pub mod Defs
pub mod Laws
pub mod Memory
pub mod Sums
pub mod Rows
pub use Defs.*
pub use Laws.*
pub use Memory.*
pub use Sums.*
pub use Rows.*
