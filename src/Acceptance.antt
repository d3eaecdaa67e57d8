-- ===== src/Acceptance.antt =====
-- src/acceptance.rs: accepted risks, the rules that silence a finding.
pub mod Glob
pub mod Rules
pub mod Apply
