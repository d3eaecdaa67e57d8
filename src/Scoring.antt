-- ===== src/Scoring.antt =====
-- src/scoring.rs: findings, their score and the verdict that they force.
pub mod Finding
pub mod Score
pub mod Verdict
pub mod Classify
pub mod Order
pub mod Rules
