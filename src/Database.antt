-- ===== src/Database.antt =====
-- The database subsystem (internal/database).
pub mod Quote
pub mod Classify
pub mod Stream
pub mod Token
pub mod Query
pub mod Sink
mod Examples
