-- ===== src/World.antt =====
-- What the handlers act on: the tables of src/database/entities, the files directory, and the
-- parameters that stand for the code outside the repository.
mod Tables
mod Outside
mod Monad
pub mod Inversion
pub mod Atomic
pub mod Keeps
pub use Tables.*
pub use Outside.*
unfoldable pub use Monad.*
pub mod Forward
pub mod Triples
pub mod Panics
