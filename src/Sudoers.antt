-- ===== src/Sudoers.antt =====
-- src/scanners/sudoers.rs: the parser of sudoers files, from physical lines to the commands that an
-- entry grants without a password.
pub mod Lines
pub mod Walk
pub mod Aliases
pub mod Commands
