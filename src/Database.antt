-- ===== src/Database.antt =====
-- The documents of the collections (src/*/entities), the state of the database, and the calls that
-- the services are made of. Identifiers and times are numbers. Fields that the modelled operations
-- neither read nor write (timestamps, gateway data of payments) are left out.
pub mod Documents
pub mod Calls
pub mod Reading
unfoldable pub use Documents.*
unfoldable pub use Calls.*
