-- ===== src/Hands.antt =====
-- Hands dealt by the server: server/hand-coordinator.js and the transcript of server/transcript.js.
pub mod Events
pub mod Transcript
pub mod Stores
pub mod State
pub mod Coordinator
pub mod Dealing
pub mod Ending
pub mod Maps
pub mod History
pub mod Records
pub mod Steps
pub mod Served
pub mod Verified
pub mod Reach
pub mod Committed
pub mod Invariant
pub mod Order
pub mod Safety
pub mod Requests
pub mod Kept
pub mod Replays
pub mod Undone
pub mod Remembered
pub mod Known
pub mod Repeated
pub mod Answers
pub mod Dealer
pub mod Pinned
pub mod Samples
mod Tests
