-- ===== src/Examples.antt =====
-- Runs of the definitions and instances of the theorems at concrete inputs.
mod Scoring
mod Acceptance
mod KnownHosts
mod Sudoers
mod Utils
mod VerdictCache
mod Coverage
mod Outcome
mod Rules
