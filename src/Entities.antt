-- ===== src/Entities.antt =====
-- The rows of the database and the jobs of the queues.
pub mod Status
pub mod Rows
pub mod Jobs
pub mod Fees
pub mod Secrets
pub use Status.*
pub use Rows.*
pub use Jobs.*
pub use Fees.*
pub use Secrets.*
