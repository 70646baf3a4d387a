-- ===== src/Routes.antt =====
-- The handlers of src/routes.rs, one module to each request that changes state, and one for the
-- requests that read.
pub mod Addresses
pub mod Transfers
pub mod Processed
pub mod Lookup
pub mod Post
pub mod Respond
pub mod Reads
pub mod FormReads
pub mod Atomicity
pub mod Ranges
pub mod FirstAnswer
pub mod Refusals
pub mod Voters
pub mod Entries
pub mod Shown
pub mod Credits
pub mod BumpAnswers
pub mod RespondForms
pub mod Responders
pub mod Posters
