-- ===== src/Text.antt =====
-- The functions of Go's `strings` and `bytes` that the agent uses, over byte strings.
pub mod Regex
pub mod Search
pub mod Case
pub mod Lines
pub mod Scanner
pub mod Space
pub mod Decimal
pub mod FilePath
