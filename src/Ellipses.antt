-- ===== src/Ellipses.antt =====
-- ellipses: the expansion of patterns such as {1...64}.
pub mod Text
pub mod Range
pub mod RangeTexts
pub mod RangeForm
pub mod RangeLaws
pub mod Lists
pub mod Patterns
pub mod Expansion
pub mod Search
mod Examples
