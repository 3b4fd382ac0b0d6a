-- ===== src/Ssh.antt =====
-- The keys and the configuration of the SSH daemon (internal/ssh).
pub mod Host
pub mod Keys
pub mod Config
pub mod Daemon
pub mod Handler
