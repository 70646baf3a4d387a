-- ===== src/Database.antt =====
-- src/database/mod.rs: the methods of `AppDatabase`. An insert takes the row as a function of its
-- key, and an update the key of a row with the change of the columns that are set.
pub mod Rows
pub mod Insert
pub mod Update
pub mod Find
pub mod Reads
pub mod Effects
pub mod Answers
pub mod Latest
unfoldable pub use Rows.*
unfoldable pub use Insert.*
unfoldable pub use Update.*
unfoldable pub use Find.*
