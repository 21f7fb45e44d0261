-- ===== src/Pots.antt =====
-- The pots of a hand, server/poker/pots.js: side pots, rake and the division among the winners.
pub mod Types
pub mod Build
pub mod Rake
pub mod Settle
pub mod Refusals
pub mod Levels
pub mod Conserved
pub mod Raked
pub mod Awards
pub mod Settled
pub mod Winners
pub mod Fair
