-- ===== src/Fairness.antt =====
-- The fair-deal protocol of fairness/protocol.js: seeds, the shuffled deck, its commitment, and the audit.
pub mod Fields
pub mod Deck
pub mod Tree
pub mod Cards
pub mod Plan
pub mod Hand
pub mod Audit
pub mod Swaps
pub mod Shuffle
pub mod Paths
pub mod Reveals
pub mod Sampling
pub mod Positions
pub mod Holes
pub mod Dealt
pub mod Created
pub mod Uniques
pub mod Canonical
pub mod Audited
pub mod Accepted
pub mod Samples
mod Tests
