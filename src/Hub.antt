-- ===== src/Hub.antt =====
-- What holds of the hub's tables between two requests: the specification that the handlers of
-- src/routes.rs keep.
pub mod Settled
pub mod Created
pub mod Uploads
pub mod SideTables
pub mod Bystanders
pub mod Aside
pub mod Posting
pub mod PostKeeps
pub mod Responding
pub mod Recorded
pub mod Recording
pub mod RespondKeeps
pub mod Responses
pub mod Marking
pub mod Requests
pub mod Progress
pub mod Reach
pub mod Integrity
pub mod IntegrityRows
pub mod IntegrityWrites
pub mod IntegrityKeeps
pub mod IntegrityRequests
pub mod Induction
pub mod Verdicts
pub mod MarkAnswers
pub mod Reservations
pub mod Answers
pub mod Gate
pub mod Guests
pub mod Received
pub mod References
pub mod Panics
pub mod Unbroken
