-- ===== src/Evaluator.antt =====
-- The hand evaluator, server/poker/evaluator.js.
pub mod Compare
pub mod Five
pub mod Best
pub mod Order
pub mod Optimal
pub mod Selections
pub mod Valid
pub mod Hands
pub mod Omaha
