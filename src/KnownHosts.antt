-- ===== src/KnownHosts.antt =====
-- src/known_hosts.rs: the trust store of the SSH client, read, matched against a host, and asked
-- whether to accept the key that the server presents.
pub mod Glob
pub mod Load
pub mod Algorithms
pub mod Verify
