-- ===== src/Settlement.antt =====
-- The settlement tree of server/settlement/merkle.js and the rules of server/settlement/custody.js.
pub mod Merkle
pub mod Pushed
pub mod Rounds
pub mod Kept
pub mod Loop
pub mod Claims
mod Tests
pub mod Custody
pub mod Transfers
