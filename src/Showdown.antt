-- ===== src/Showdown.antt =====
-- The showdown, server/poker/showdown.js.
pub mod Finish
pub mod Paid
mod Tests
