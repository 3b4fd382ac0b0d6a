-- ===== src/Filesystem.antt =====
-- The file operations of the agent (internal/filesystem).
pub mod Manager
mod Examples
