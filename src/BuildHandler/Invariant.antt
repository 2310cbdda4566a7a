-- ===== src/BuildHandler/Invariant.antt =====
-- The consistency of the database: what the queue and the baselines name is a build that the
-- database knows, under its own project, and no build is queued twice.
mod Queued
mod Steps
mod Removal
mod Next
mod Records
pub use Queued.*
pub use Steps.*
pub use Removal.*
pub use Next.*
pub use Records.*
