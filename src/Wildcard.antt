-- ===== src/Wildcard.antt =====
-- wildcard/match.go: patterns with '*' and '?'.
pub mod Pattern
pub mod Suffixes
pub mod Loop
pub mod Fixed
pub mod Probe
pub mod Search
pub mod Correct
pub mod Prefix
mod Tests
mod Examples
