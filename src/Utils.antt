-- ===== src/Utils.antt =====
-- src/utils.rs: predicates on paths and addresses, and the sanitizers of untrusted text.
pub mod Sanitize
pub mod Paths
pub mod Provenance
