-- ===== src/Betting.antt =====
-- The betting engine, server/poker/betting.js: its state, its operations and their proofs.
pub mod State
pub mod Clockwise
pub mod Chips
pub mod Advance
pub mod Create
pub mod Actions
pub mod Deal
pub mod Turns
pub mod Nearest
pub mod Outcome
pub mod Bankroll
pub mod Soundness
pub mod Progress
pub mod Raises
pub mod Limits
pub mod Termination
pub mod Streets
pub mod Board
pub mod Forced
pub mod Blinds
pub mod Opening
pub mod Setups
pub mod Creation
pub mod Created
pub mod Started
pub mod Hand
pub mod Endings
pub mod Ends
pub mod Winner
mod Tests
